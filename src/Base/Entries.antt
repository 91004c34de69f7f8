-- ===== src/Base/Entries.antt =====
-- The entries of a Go map, counted and kept under a predicate.
use Prim.Native.Nat.{ℕ, ◌+◌, ◌≤◌}
use Prim.Native.String.{String}
use mathlib.Core.Logic.{inl, inr}
use text.Mathlib.Text.{◌==◌}
use text.Mathlib.TextEquality.{eq_iff}
use mathlib.Core.Path.{◌≡◌, subst, sym, refl, ap, ◌∙◌}
use mathlib.Core.Bool.{Bool, not, false}
use mathlib.Core.Option.{Option, none, some}
use mathlib.Core.List.{[], ◌∷◌}
use native.Mathlib.Omega.{arith}
use loqa_core.Base.Tests.{if◌then◌else◌, Bool-cases}
use loqa_core.Base.Lists.{All, count_if, keep_if}
use loqa_core.Base.Dict.{Map, lookup, insert, delete, update_all, lookup-insert}

module _ {ℓ} {V : Type ℓ} where
  -- The entries whose value passes a test.
  abbrev pub count_values : (V → Bool) → Map V → ℕ
  count_values p m = count_if (λ e. p e.1) m

  -- 1 if there is a value and it passes.
  abbrev pub found : (V → Bool) → Option V → ℕ
  found p none = 0
  found p (some value) = if p value then 1 else 0

  -- Storing a value takes the old one out of every count.
  pub count_values-insert :
      (p : V → Bool) (key : String) (new : V) (m : Map V)
      → count_values p (insert key new m) + found p (lookup key m)
        ≡ count_values p m + (if p new then 1 else 0)
  unfolding insert lookup
  count_values-insert p key new [] = ground arith
  count_values-insert p key new ((name, value) ∷ entries) =
      ground (arith, count_values-insert p key new entries)

  pub count_values-delete-le :
      (p : V → Bool) (key : String) (m : Map V)
      → count_values p (delete key m) + found p (lookup key m) ≤ count_values p m
  unfolding delete lookup
  count_values-delete-le p key [] = ground arith
  count_values-delete-le p key ((name, value) ∷ entries) =
      ground (arith, count_values-delete-le p key entries, count-delete-le p key entries)
    where
      count-delete-le :
          (p : V → Bool) (key : String) (m : Map V)
          → count_values p (delete key m) ≤ count_values p m
      count-delete-le p key [] = ground arith
      count-delete-le p key ((name, value) ∷ entries) =
          ground (arith, count-delete-le p key entries)

  -- A predicate on keys and values.
  abbrev pub AllEntries {κ} : (String → V → Type κ) → Map V → Type κ
  AllEntries P m = All (λ e. P e.0 e.1) m

  pub insert-AllEntries {κ} :
      (P : String → V → Type κ) (key : String) (new : V) (m : Map V)
      → P key new
      → AllEntries P m
      → AllEntries P (insert key new m)
  unfolding insert
  insert-AllEntries P key new [] n h = (n, tt)
  insert-AllEntries P key new ((name, value) ∷ entries) n h = elim (Bool-cases (name == key)) [
    | inl same ↦ rw same (subst (λ k. P k new) (sym ((eq_iff name key).0 same)) n, h.1)
    | inr other ↦ rw other (h.0, insert-AllEntries P key new entries n h.1)
  ]

  pub delete-AllEntries {κ} :
      (P : String → V → Type κ) (key : String) (m : Map V)
      → AllEntries P m
      → AllEntries P (delete key m)
  unfolding delete
  delete-AllEntries P key [] h = tt
  delete-AllEntries P key ((name, value) ∷ entries) h = elim (Bool-cases (name == key)) [
    | inl same ↦ rw same (delete-AllEntries P key entries h.1)
    | inr other ↦ rw other (h.0, delete-AllEntries P key entries h.1)
  ]

  pub lookup-AllEntries {κ} :
      (P : String → V → Type κ) (key : String) (m : Map V) {value : V}
      → lookup key m ≡ some value
      → AllEntries P m
      → P key value
  unfolding lookup
  lookup-AllEntries P key [] e h = cc
  lookup-AllEntries P key ((name, value) ∷ entries) {value = wanted} e h =
      elim (Bool-cases (name == key)) [
        | inl same ↦
            let hit : value ≡ wanted = ground arith in
            subst (λ v. P key v) hit (subst (λ k. P k value) ((eq_iff name key).0 same) h.0)
        | inr other ↦ lookup-AllEntries P key entries (rw other at e) h.1
      ]

  pub update_all-AllEntries {κ} :
      (P : String → V → Type κ) (f : V → V) (m : Map V)
      → ((k : String) (v : V) → P k v → P k (f v))
      → AllEntries P m
      → AllEntries P (update_all f m)
  unfolding update_all
  update_all-AllEntries P f [] keep h = tt
  update_all-AllEntries P f ((name, value) ∷ entries) keep h =
      (keep name value h.0, update_all-AllEntries P f entries keep h.1)

module _ {ℓ} {V : Type ℓ} where
  -- No key stands twice.
  abbrev pub IsUnique : Map V → Type ℓ
  IsUnique [] = Unit
  IsUnique ((name, value) ∷ entries) = (lookup name entries ≡ none) × IsUnique entries

  lookup-insert_ne :
      (key asked : String) (new : V) (m : Map V)
      → key == asked ≡ false
      → lookup asked m ≡ none
      → lookup asked (insert key new m) ≡ none
  lookup-insert_ne key asked new m apart h = ground (arith, lookup-insert key asked new m)

  pub insert-IsUnique :
      (key : String) (new : V) (m : Map V) → IsUnique m → IsUnique (insert key new m)
  unfolding insert lookup
  insert-IsUnique key new [] h = (refl, tt)
  insert-IsUnique key new ((name, value) ∷ entries) h = elim (Bool-cases (name == key)) [
    | inl same ↦ rw same h
    | inr apart ↦
        let apart' : key == name ≡ false = ground (arith, eq_iff name key, eq_iff key name) in
        rw apart
          (lookup-insert_ne key name new entries apart' h.0, insert-IsUnique key new entries h.1)
  ]

  lookup-keep_if-none :
      (p : String × V → Bool) (key : String) (m : Map V)
      → lookup key m ≡ none
      → lookup key (keep_if p m) ≡ none
  unfolding lookup
  lookup-keep_if-none p key [] h = refl
  lookup-keep_if-none p key ((name, value) ∷ entries) h =
      ground (arith, lookup-keep_if-none p key entries)

  -- What is left of a value under a filter on entries.
  abbrev pub spared : (String → V → Bool) → String → Option V → Option V
  spared doomed key none = none
  spared doomed key (some value) = if doomed key value then none else some value

  pub lookup-keep_if :
      (doomed : String → V → Bool) (key : String) (m : Map V)
      → IsUnique m
      → lookup key (keep_if (λ e. not (doomed e.0 e.1)) m) ≡ spared doomed key (lookup key m)
  unfolding lookup
  lookup-keep_if doomed key [] h = refl
  lookup-keep_if doomed key ((name, value) ∷ entries) h = elim (Bool-cases (name == key)) [
    | inl same ↦
        let e : name ≡ key = (eq_iff name key).0 same in
        let gone : lookup key entries ≡ none =
          ap (λ (k : String). lookup k entries) (sym e) ∙ h.0 in
        ground (
          arith,
          e,
          eq_iff name key,
          lookup-keep_if-none (λ e. not (doomed e.0 e.1)) key entries gone,
        )
    | inr apart ↦ ground (arith, lookup-keep_if doomed key entries h.1)
  ]

  pub keep_if-IsUnique : (p : String × V → Bool) (m : Map V) → IsUnique m → IsUnique (keep_if p m)
  keep_if-IsUnique p [] h = tt
  keep_if-IsUnique p ((name, value) ∷ entries) h = elim (Bool-cases (p (name, value))) [
    | inl hit ↦ rw hit (lookup-keep_if-none p name entries h.0, keep_if-IsUnique p entries h.1)
    | inr miss ↦ rw miss (keep_if-IsUnique p entries h.1)
  ]
