-- ===== src/EventStore/Retention.antt =====
-- internal/eventstore/store.go, Prune: what the retention settings promise.
use loqa_core.Base.{
  ℕ, zero, suc, ◌-◌, ◌*◌, ◌^◌, ◌≤◌, ◌<◌, ◌≡◌, refl, ◌∙◌, String, ◌==◌, eq_iff, Bool, true, false,
  not, ◌||◌, List, [], ◌∷◌, Map, count_if, count_if-drop-le, keep_if, All, All-map, keep_if-All,
  length, length-keep_if, length-le-add-drop, drop, Time, ltb, leb, arith, if◌then◌else◌,
  Bool-cases, inl, inr, pos, wrap64, scale, int_ltb,
}
use loqa_core.Config.{EventStoreConfig}
use loqa_core.EventStore.{
  SessionRow, Tables, delete_sessions, delete_events_before, delete_surplus, expire, pruned,
  cutoff_at, day, is_among, newest_first, insert_newest,
}
use loqa_core.EventStore.Sorting.{IsDescending, newest_first-IsDescending, count_if-newest_first}

-- A count of days that an int64 of nanoseconds can hold.
pub cutoff_at-fits : (now : Time) (d : ℕ) → day * d < 2 ^ 63 → cutoff_at now (pos d) ≡ now - day * d
unfolding cutoff_at scale wrap64
cutoff_at-fits now zero h = ground arith
cutoff_at-fits now (suc n) h = ground arith

abbrev among_row : Map SessionRow → String × SessionRow → Bool
among_row rows e = is_among e.0 rows

among_self : (rows : Map SessionRow) → All (λ e. among_row rows e ≡ true) rows
among_self [] = tt
among_self (x ∷ rows) =
    (ground (arith, eq_iff x.0 x.0), All-map _ _ rows (λ e h. ground arith) (among_self rows))

count_if-All {ℓ} :
    {A : Type ℓ} (p : A → Bool) (xs : List A) → All (λ x. p x ≡ true) xs → count_if p xs ≡ length xs
count_if-All p [] h = refl
count_if-All p (x ∷ xs) h = ground (arith, h.0, count_if-All p xs h.1)

length-insert_newest :
    (x : String × SessionRow) (xs : Map SessionRow) → length (insert_newest x xs) ≡ suc (length xs)
unfolding insert_newest
length-insert_newest x [] = refl
length-insert_newest x (y ∷ ys) = ground (arith, length-insert_newest x ys)

length-newest_first : (xs : Map SessionRow) → length (newest_first xs) ≡ length xs
unfolding newest_first
length-newest_first [] = refl
length-newest_first (x ∷ xs) = length-insert_newest x _ ∙ ground (arith, length-newest_first xs)

pub delete_surplus-length :
    (limit : ℕ) (t : Tables) → length (delete_surplus limit t).sessions ≤ limit
unfolding delete_surplus delete_sessions
delete_surplus-length limit t =
    let rows = newest_first t.sessions in
    let doomed = among_row (drop limit rows) in
    omega (
      arith,
      length-keep_if doomed t.sessions,
      count_if-newest_first doomed t.sessions,
      count_if-drop-le doomed limit rows,
      count_if-All doomed (drop limit rows) (among_self (drop limit rows)),
      length-le-add-drop limit rows,
      length-newest_first t.sessions,
    )

insert_newest-All_inv {ℓ} :
    (P : String × SessionRow → Type ℓ) (x : String × SessionRow) (xs : Map SessionRow)
    → All P (insert_newest x xs)
    → P x × All P xs
unfolding insert_newest
insert_newest-All_inv P x [] h = h
insert_newest-All_inv P x (y ∷ ys) h =
    by_test (leb y.1.created_at x.1.created_at) (insert_newest-All_inv P x ys) h
  where
    by_test :
        (b : Bool)
        → (All P (insert_newest x ys) → P x × All P ys)
        → All P (if b then x ∷ y ∷ ys else y ∷ insert_newest x ys)
        → P x × (P y × All P ys)
    by_test true rest k = k
    by_test false rest k = let both = rest k.1 in (both.0, (k.0, both.1))

newest_first-All_inv {ℓ} :
    (P : String × SessionRow → Type ℓ) (xs : Map SessionRow) → All P (newest_first xs) → All P xs
unfolding newest_first
newest_first-All_inv P [] h = tt
newest_first-All_inv P (x ∷ xs) h =
    let split = insert_newest-All_inv P x (newest_first xs) h in
    (split.0, newest_first-All_inv P xs split.1)

All-drop_rows {ℓ} :
    (P : String × SessionRow → Type ℓ) (n : ℕ) (xs : Map SessionRow) → All P xs → All P (drop n xs)
All-drop_rows P zero xs h = h
All-drop_rows P (suc n) [] h = tt
All-drop_rows P (suc n) (x ∷ xs) h = All-drop_rows P n xs h.1

-- No row of the list is newer than this one.
abbrev pub IsOldBeside : Map SessionRow → String × SessionRow → Type 0
IsOldBeside rows e = All (λ r. r.1.created_at ≤ e.1.created_at) rows

spared_rows :
    (n : ℕ) (xs : Map SessionRow)
    → IsDescending xs
    → All (λ e. not (among_row (drop n xs) e) ≡ true → IsOldBeside (drop n xs) e) xs
spared_rows zero xs h = All-map _ _ xs (λ e hit miss. absurd (ground arith)) (among_self xs)
spared_rows (suc n) [] h = tt
spared_rows (suc n) (x ∷ xs) h = (λ miss. All-drop_rows _ n xs h.0, spared_rows n xs h.1)

keep_if-given {ℓ κ} :
    {A : Type ℓ} (P : A → Type κ) (p : A → Bool) (xs : List A)
    → All (λ x. p x ≡ true → P x) xs
    → All P (keep_if p xs)
keep_if-given P p [] h = tt
keep_if-given P p (x ∷ xs) h = elim (Bool-cases (p x)) [
  | inl hit ↦ rw hit (h.0 hit, keep_if-given P p xs h.1)
  | inr miss ↦ rw miss (keep_if-given P p xs h.1)
]

-- The sessions that the surplus takes away.
abbrev pub surplus : ℕ → Tables → Map SessionRow
surplus limit t = drop limit (newest_first t.sessions)

pub delete_surplus-newest :
    (limit : ℕ) (t : Tables) → All (IsOldBeside (surplus limit t)) (delete_surplus limit t).sessions
unfolding delete_surplus delete_sessions
delete_surplus-newest limit t = keep_if-given _ _ t.sessions (
    newest_first-All_inv _ t.sessions
      (spared_rows limit (newest_first t.sessions) (newest_first-IsDescending t.sessions)))

-- A mode in which `Prune` deletes anything.
abbrev pub is_pruning : EventStoreConfig → Bool
is_pruning cfg = cfg.retention_mode == "persistent" || cfg.retention_mode == "session"

abbrev pub IsFresh : Time → Tables → Type 0
IsFresh cutoff t =
    All (λ e. ltb e.1.created_at cutoff ≡ false) t.sessions
    × All (λ e. ltb e.created_at cutoff ≡ false) t.events

All-any {ℓ κ} : {A : Type ℓ} (P : A → Type κ) (xs : List A) → ((x : A) → P x) → All P xs
All-any P [] h = tt
All-any P (x ∷ xs) h = (h x, All-any P xs h)

not-true : (b : Bool) → not b ≡ true → b ≡ false
not-true true h = ground (arith, h)
not-true false h = refl

expire-IsFresh : (cutoff : Time) (t : Tables) → IsFresh cutoff (expire cutoff t)
unfolding delete_sessions delete_events_before
expire-IsFresh cutoff t = (
  keep_if-given _ _ t.sessions (All-any _ t.sessions (λ e h. not-true _ h)),
  keep_if-All _ _ _ (keep_if-given _ _ t.events (All-any _ t.events (λ e h. not-true _ h))),
)

delete_surplus-IsFresh :
    (cutoff : Time) (limit : ℕ) (t : Tables)
    → IsFresh cutoff t
    → IsFresh cutoff (delete_surplus limit t)
unfolding delete_surplus delete_sessions
delete_surplus-IsFresh cutoff limit t h =
    (keep_if-All _ _ t.sessions h.0, keep_if-All _ _ t.events h.1)

-- In session and persistent mode, with a positive number of days that a Duration can hold, and a
-- positive number of sessions, a prune leaves no session and no event that is older than that many
-- days, leaves at most that many sessions, and no session that it takes away as surplus is newer
-- than one that it leaves.
pub pruned-bounds :
    (cfg : EventStoreConfig) (now : Time) (t : Tables) (days limit : ℕ)
    → is_pruning cfg ≡ true
    → cfg.retention_days ≡ pos days
    → 0 < days
    → day * days < 2 ^ 63
    → cfg.max_sessions ≡ pos limit
    → 0 < limit
    → let cutoff = now - day * days in
      IsFresh cutoff (pruned cfg now t)
      × (length (pruned cfg now t).sessions ≤ limit)
      × All (IsOldBeside (surplus limit (expire cutoff t))) (pruned cfg now t).sessions
unfolding pruned
pruned-bounds cfg now t days limit mode d some_days fits m some_limit =
    let runs : int_ltb (pos 0) (pos days) ≡ true = ground arith in
    let limits : int_ltb (pos 0) (pos limit) ≡ true = ground arith in
    rw (mode, d, m, runs, limits, cutoff_at-fits now days fits)
      (
        delete_surplus-IsFresh _ limit _ (expire-IsFresh _ t),
        delete_surplus-length limit _,
        delete_surplus-newest limit _,
      )
