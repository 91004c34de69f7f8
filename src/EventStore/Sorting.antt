-- ===== src/EventStore/Sorting.antt =====
-- internal/eventstore/store.go: the two orders of rows by time.
use loqa_core.Base.{
  ℕ, zero, suc, ◌+◌, ◌≤◌, ◌≡◌, refl, String, Bool, List, [], ◌∷◌, Map, count_if, take, drop, All,
  All-map, leb, arith, if◌then◌else◌, Time, Bool-cases, inl, inr, All-take,
}
use loqa_core.EventStore.{Event, SessionRow, insert_by, sort_by, insert_newest, newest_first}

-- No item comes before one that is older.
abbrev pub IsAscending : List Event → Type 0
IsAscending [] = Unit {0}
IsAscending (x ∷ xs) = All (λ y. x.created_at ≤ y.created_at) xs × IsAscending xs

abbrev by_time : Event → Time
by_time e = e.created_at

insert_by-All :
    (P : Event → Type 0) (x : Event) (xs : List Event)
    → P x
    → All P xs
    → All P (insert_by by_time x xs)
unfolding insert_by
insert_by-All P x [] p h = (p, tt)
insert_by-All P x (y ∷ ys) p h = elim (Bool-cases (leb (by_time x) (by_time y))) [
  | inl e ↦ rw e (p, h)
  | inr e ↦ rw e (h.0, insert_by-All P x ys p h.1)
]

insert_by-IsAscending :
    (x : Event) (xs : List Event) → IsAscending xs → IsAscending (insert_by by_time x xs)
unfolding insert_by
insert_by-IsAscending x [] h = (tt, tt)
insert_by-IsAscending x (y ∷ ys) h = elim (Bool-cases (leb (by_time x) (by_time y))) [
  | inl e ↦
      let le : by_time x ≤ by_time y = ground arith in
      rw e ((le, All-map _ _ ys (λ z q. omega arith) h.0), h)
  | inr e ↦
      let le : by_time y ≤ by_time x = ground arith in
      rw e (
        insert_by-All (λ z. y.created_at ≤ z.created_at) x ys le h.0,
        insert_by-IsAscending x ys h.1,
      )
]

pub sort_by-IsAscending : (xs : List Event) → IsAscending (sort_by by_time xs)
unfolding sort_by
sort_by-IsAscending [] = tt
sort_by-IsAscending (x ∷ xs) = insert_by-IsAscending x _ (sort_by-IsAscending xs)

pub sort_by-All : (P : Event → Type 0) (xs : List Event) → All P xs → All P (sort_by by_time xs)
unfolding sort_by
sort_by-All P [] h = tt
sort_by-All P (x ∷ xs) h = insert_by-All P x _ h.0 (sort_by-All P xs h.1)

count_if-insert_by :
    (p : Event → Bool) (x : Event) (xs : List Event)
    → count_if p (insert_by by_time x xs) ≡ (if p x then 1 else 0) + count_if p xs
unfolding insert_by
count_if-insert_by p x [] = refl
count_if-insert_by p x (y ∷ ys) = ground (arith, count_if-insert_by p x ys)

-- Sorting loses no row and makes none up.
pub count_if-sort_by :
    (p : Event → Bool) (xs : List Event) → count_if p (sort_by by_time xs) ≡ count_if p xs
unfolding sort_by
count_if-sort_by p [] = refl
count_if-sort_by p (x ∷ xs) =
    ground (arith, count_if-insert_by p x (sort_by by_time xs), count_if-sort_by p xs)

take-IsAscending : (n : ℕ) (xs : List Event) → IsAscending xs → IsAscending (take n xs)
take-IsAscending zero xs h = tt
take-IsAscending (suc n) [] h = tt
take-IsAscending (suc n) (x ∷ xs) h = (All-take _ n xs h.0, take-IsAscending n xs h.1)

All-drop : (P : Event → Type 0) (n : ℕ) (xs : List Event) → All P xs → All P (drop n xs)
All-drop P zero xs h = h
All-drop P (suc n) [] h = tt
All-drop P (suc n) (x ∷ xs) h = All-drop P n xs h.1

-- What is left out is not older than what is taken.
pub take-drop-IsAscending :
    (n : ℕ) (xs : List Event)
    → IsAscending xs
    → IsAscending (take n xs)
      × All (λ x. All (λ y. x.created_at ≤ y.created_at) (drop n xs)) (take n xs)
take-drop-IsAscending zero xs h = (tt, tt)
take-drop-IsAscending (suc n) [] h = (tt, tt)
take-drop-IsAscending (suc n) (x ∷ xs) h =
    (take-IsAscending (suc n) (x ∷ xs) h, (All-drop _ n xs h.0, (take-drop-IsAscending n xs h.1).1))

-- The same for the sessions, newest first.
abbrev pub IsDescending : Map SessionRow → Type 0
IsDescending [] = Unit {0}
IsDescending (x ∷ xs) = All (λ y. y.1.created_at ≤ x.1.created_at) xs × IsDescending xs

insert_newest-All :
    (P : String × SessionRow → Type 0) (x : String × SessionRow) (xs : Map SessionRow)
    → P x
    → All P xs
    → All P (insert_newest x xs)
unfolding insert_newest
insert_newest-All P x [] p h = (p, tt)
insert_newest-All P x (y ∷ ys) p h = elim (Bool-cases (leb y.1.created_at x.1.created_at)) [
  | inl e ↦ rw e (p, h)
  | inr e ↦ rw e (h.0, insert_newest-All P x ys p h.1)
]

insert_newest-IsDescending :
    (x : String × SessionRow) (xs : Map SessionRow)
    → IsDescending xs
    → IsDescending (insert_newest x xs)
unfolding insert_newest
insert_newest-IsDescending x [] h = (tt, tt)
insert_newest-IsDescending x (y ∷ ys) h = elim (Bool-cases (leb y.1.created_at x.1.created_at)) [
  | inl e ↦
      let le : y.1.created_at ≤ x.1.created_at = ground arith in
      rw e ((le, All-map _ _ ys (λ z q. omega arith) h.0), h)
  | inr e ↦
      let le : x.1.created_at ≤ y.1.created_at = ground arith in
      rw e (
        insert_newest-All (λ z. z.1.created_at ≤ y.1.created_at) x ys le h.0,
        insert_newest-IsDescending x ys h.1,
      )
]

pub newest_first-IsDescending : (xs : Map SessionRow) → IsDescending (newest_first xs)
unfolding newest_first
newest_first-IsDescending [] = tt
newest_first-IsDescending (x ∷ xs) = insert_newest-IsDescending x _ (newest_first-IsDescending xs)

count_if-insert_newest :
    (p : String × SessionRow → Bool) (x : String × SessionRow) (xs : Map SessionRow)
    → count_if p (insert_newest x xs) ≡ (if p x then 1 else 0) + count_if p xs
unfolding insert_newest
count_if-insert_newest p x [] = refl
count_if-insert_newest p x (y ∷ ys) = ground (arith, count_if-insert_newest p x ys)

pub count_if-newest_first :
    (p : String × SessionRow → Bool) (xs : Map SessionRow)
    → count_if p (newest_first xs) ≡ count_if p xs
unfolding newest_first
count_if-newest_first p [] = refl
count_if-newest_first p (x ∷ xs) =
    ground (arith, count_if-insert_newest p x (newest_first xs), count_if-newest_first p xs)
