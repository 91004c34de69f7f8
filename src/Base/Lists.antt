-- ===== src/Base/Lists.antt =====
-- Lists measured by native numbers, a predicate on all items, counting, and the choice of one item.
use Prim.Native.Nat.{ℕ, zero, suc, ◌+◌, ◌≤◌}
use mathlib.Core.Path.{◌≡◌, ap, subst, sym, ◌∙◌, refl}
use mathlib.Core.Logic.{inl, inr}
use mathlib.Core.Bool.{Bool, true, false, not}
use mathlib.Core.List.{List, [], ◌∷◌, ◌++◌}
use mathlib.Core.Option.{Option, none, some}
use native.Mathlib.Omega.{arith}
use loqa_core.Base.Tests.{if◌then◌else◌, Option-cases, Bool-cases}

module _ {ℓ} {A : Type ℓ} where
  abbrev pub length : List A → ℕ
  length [] = 0
  length (x ∷ xs) = suc (length xs)

  pub length-append : (xs ys : List A) → length (xs ++ ys) ≡ length xs + length ys
  length-append [] ys = omega arith
  length-append (x ∷ xs) ys = omega (arith, length-append xs ys)

  abbrev pub is_empty : List A → Bool
  is_empty [] = true
  is_empty (x ∷ xs) = false

  abbrev pub All {κ} : (A → Type κ) → List A → Type κ
  All P [] = Unit
  All P (x ∷ xs) = P x × All P xs

  pub All-map {κ} : (P Q : A → Type κ) (xs : List A) → ((x : A) → P x → Q x) → All P xs → All Q xs
  All-map P Q [] f h = tt
  All-map P Q (x ∷ xs) f h = (f x h.0, All-map P Q xs f h.1)

  -- How many items pass a test.
  abbrev pub count_if : (A → Bool) → List A → ℕ
  count_if p [] = 0
  count_if p (x ∷ xs) = (if p x then 1 else 0) + count_if p xs

  -- The items that pass a test, in order.
  abbrev pub keep_if : (A → Bool) → List A → List A
  keep_if p [] = []
  keep_if p (x ∷ xs) = if p x then x ∷ keep_if p xs else keep_if p xs

  -- The item at an index, and the others: a scheduler's choice.
  abbrev cons_rest : A → Option (A × List A) → Option (A × List A)
  cons_rest x none = none
  cons_rest x (some (y, ys)) = some (y, x ∷ ys)

  unfoldable pub take_at : ℕ → List A → Option (A × List A)
  take_at n [] = none
  take_at zero (x ∷ xs) = some (x, xs)
  take_at (suc n) (x ∷ xs) = cons_rest x (take_at n xs)

-- The choice of an item splits every count.
pub count_if-take_at {ℓ} :
    {A : Type ℓ} (p : A → Bool) (n : ℕ) (xs : List A) {x : A} {rest : List A}
    → take_at n xs ≡ some (x, rest)
    → count_if p xs ≡ count_if p (x ∷ rest)
unfolding take_at
count_if-take_at p n [] h = cc
count_if-take_at p zero (x ∷ xs) h = ground arith
count_if-take_at p (suc n) (y ∷ ys) {x} {rest} h = elim (Option-cases (take_at n ys)) [
  | inl e ↦ cc (h, e)
  | inr ((z, zs), e) ↦ ground (arith, count_if-take_at p n ys {x = z} {rest = zs} e, e, h)
]

abbrev Picked {ℓ κ} : {A : Type ℓ} → (A → Type κ) → Option (A × List A) → Type κ
Picked P none = Unit
Picked P (some (x, rest)) = P x × All P rest

-- What holds of all items holds of the chosen one and of the others.
pub All-take_at {ℓ κ} :
    {A : Type ℓ} (P : A → Type κ) (n : ℕ) (xs : List A) {x : A} {rest : List A}
    → take_at n xs ≡ some (x, rest)
    → All P xs
    → All P (x ∷ rest)
unfolding take_at
All-take_at P n [] h a = cc
All-take_at P zero (x ∷ xs) h a = subst (Picked P) h a
All-take_at P (suc n) (y ∷ ys) {x} {rest} h a = elim (Option-cases (take_at n ys)) [
  | inl e ↦ cc (h, e)
  | inr ((z, zs), e) ↦
      let b = All-take_at P n ys {x = z} {rest = zs} e a.1 in
      subst (Picked P) (ap (cons_rest y) (sym e) ∙ h) (b.0, (a.0, b.1))
]

-- Items that a test never meets.
pub count_if-eq-zero {ℓ} :
    {A : Type ℓ} (p : A → Bool) (xs : List A) → count_if p xs ≡ 0 → All (λ x. p x ≡ false) xs
count_if-eq-zero p [] h = tt
count_if-eq-zero p (x ∷ xs) h = (ground arith, count_if-eq-zero p xs (ground arith))

module _ {ℓ} {A : Type ℓ} where
  abbrev pub take : ℕ → List A → List A
  take zero _ = []
  take (suc n) [] = []
  take (suc n) (x ∷ xs) = x ∷ take n xs

  abbrev pub drop : ℕ → List A → List A
  drop zero xs = xs
  drop (suc n) [] = []
  drop (suc n) (x ∷ xs) = drop n xs

  pub length-take-le : (n : ℕ) (xs : List A) → length (take n xs) ≤ n
  length-take-le zero xs = omega arith
  length-take-le (suc n) [] = omega arith
  length-take-le (suc n) (x ∷ xs) = omega (arith, length-take-le n xs)

  pub length-le-add-drop : (n : ℕ) (xs : List A) → length xs ≤ n + length (drop n xs)
  length-le-add-drop zero xs = omega arith
  length-le-add-drop (suc n) [] = omega arith
  length-le-add-drop (suc n) (x ∷ xs) = omega (arith, length-le-add-drop n xs)

  pub count_if-drop-le :
      (p : A → Bool) (n : ℕ) (xs : List A) → count_if p (drop n xs) ≤ count_if p xs
  count_if-drop-le p zero xs = omega arith
  count_if-drop-le p (suc n) [] = omega arith
  count_if-drop-le p (suc n) (x ∷ xs) = omega (arith, count_if-drop-le p n xs)

  pub All-take {κ} : (P : A → Type κ) (n : ℕ) (xs : List A) → All P xs → All P (take n xs)
  All-take P zero xs h = tt
  All-take P (suc n) [] h = tt
  All-take P (suc n) (x ∷ xs) h = (h.0, All-take P n xs h.1)

  -- Of a test and its opposite, each item passes one.
  pub length-keep_if :
      (p : A → Bool) (xs : List A)
      → length (keep_if (λ x. not (p x)) xs) + count_if p xs ≡ length xs
  length-keep_if p [] = refl
  length-keep_if p (x ∷ xs) = ground (arith, length-keep_if p xs)

  pub All-keep_if : (p : A → Bool) (xs : List A) → All (λ x. p x ≡ true) (keep_if p xs)
  All-keep_if p [] = tt
  All-keep_if p (x ∷ xs) = elim (Bool-cases (p x)) [
    | inl hit ↦ rw hit (hit, All-keep_if p xs)
    | inr miss ↦ rw miss (All-keep_if p xs)
  ]

  pub keep_if-All {κ} :
      (P : A → Type κ) (p : A → Bool) (xs : List A) → All P xs → All P (keep_if p xs)
  keep_if-All P p [] h = tt
  keep_if-All P p (x ∷ xs) h = elim (Bool-cases (p x)) [
    | inl hit ↦ rw hit (h.0, keep_if-All P p xs h.1)
    | inr miss ↦ rw miss (keep_if-All P p xs h.1)
  ]

module _ {ℓ} {A : Type ℓ} where
  pub append_nil : (xs : List A) → xs ++ [] ≡ xs
  append_nil [] = refl
  append_nil (x ∷ xs) = ap (λ ys. x ∷ ys) (append_nil xs)

  pub append_assoc : (xs ys zs : List A) → (xs ++ ys) ++ zs ≡ xs ++ (ys ++ zs)
  append_assoc [] ys zs = refl
  append_assoc (x ∷ xs) ys zs = ap (λ rest. x ∷ rest) (append_assoc xs ys zs)

  pub length-append-one : (xs : List A) (x : A) → length (xs ++ x ∷ []) ≡ suc (length xs)
  length-append-one [] x = refl
  length-append-one (y ∷ xs) x = ground (arith, length-append-one xs x)

  pub count_if-append :
      (p : A → Bool) (xs ys : List A) → count_if p (xs ++ ys) ≡ count_if p xs + count_if p ys
  count_if-append p [] ys = ground arith
  count_if-append p (x ∷ xs) ys = ground (arith, count_if-append p xs ys)

  pub count_if-append-one :
      (p : A → Bool) (xs : List A) (x : A)
      → count_if p (xs ++ x ∷ []) ≡ count_if p xs + (if p x then 1 else 0)
  count_if-append-one p [] x = ground arith
  count_if-append-one p (y ∷ xs) x = ground (arith, count_if-append-one p xs x)

  pub All-append {κ} : (P : A → Type κ) (xs ys : List A) → All P xs → All P ys → All P (xs ++ ys)
  All-append P [] ys h k = k
  All-append P (x ∷ xs) ys h k = (h.0, All-append P xs ys h.1 k)

  pub count_if-true : (xs : List A) → count_if (λ x. true) xs ≡ length xs
  count_if-true [] = refl
  count_if-true (x ∷ xs) = ground (arith, count_if-true xs)

  pub length-take_at :
      (n : ℕ) (xs : List A) {x : A} {rest : List A}
      → take_at n xs ≡ some (x, rest)
      → length xs ≡ suc (length rest)
  length-take_at n xs {x} {rest} h =
      sym (count_if-true xs)
      ∙ count_if-take_at (λ y. true) n xs {x = x} {rest = rest} h
      ∙ count_if-true (x ∷ rest)
