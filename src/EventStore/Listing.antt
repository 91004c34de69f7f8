-- ===== src/EventStore/Listing.antt =====
-- internal/eventstore/store.go, ListSessionEvents: what a caller is shown of the timeline.
use loqa_core.Base.{
  ℕ, zero, ◌+◌, ◌≤◌, ◌<◌, ◌≡◌, refl, sym, ◌∙◌, String, ◌==◌, Bool, true, false, ◌&&◌, some, List,
  [], ◌∷◌, ◌++◌, suc, Time, ℤ, lookup, eq_iff, subst, count_if, keep_if, All, All-keep_if, All-take,
  length, length-take-le, take, drop, arith, if◌then◌else◌, count_if-append-one, count_if-true,
}
use loqa_core.Config.{EventStoreConfig}
use loqa_core.EventStore.{
  Event, Tables, sort_by, select_events, insert_event, is_there, is_ephemeral, effective_limit,
  append_event, on_tables, dated, list_session_events,
}
use loqa_core.EventStore.Sorting.{
  IsAscending, sort_by-IsAscending, sort_by-All, count_if-sort_by, take-drop-IsAscending,
}

count_if-take-drop {ℓ} :
    {A : Type ℓ} (p : A → Bool) (n : ℕ) (xs : List A)
    → count_if p (take n xs) + count_if p (drop n xs) ≡ count_if p xs
count_if-take-drop p zero xs = omega arith
count_if-take-drop p (suc n) [] = refl
count_if-take-drop p (suc n) (x ∷ xs) = ground (arith, count_if-take-drop p n xs)

count_if-keep_if {ℓ} :
    {A : Type ℓ} (p q : A → Bool) (xs : List A)
    → count_if p (keep_if q xs) ≡ count_if (λ x. q x && p x) xs
count_if-keep_if p q [] = refl
count_if-keep_if p q (x ∷ xs) = ground (arith, count_if-keep_if p q xs)

-- The rows of the session that the limit leaves out.
abbrev pub omitted_events : String → ℕ → Tables → List Event
omitted_events session_id limit t =
    drop limit (sort_by (λ e. e.created_at) (keep_if (λ e. e.session_id == session_id) t.events))

-- A listing holds at most `limit` events, all of the session asked for, in ascending order of time;
-- no event of the session that it leaves out is older than one that it shows; and any test that
-- counts events of the session in the store counts the same in the listing and what it leaves out
-- together.
pub select_events_lem :
    (session_id : String) (limit : ℕ) (t : Tables) (p : Event → Bool)
    → (length (select_events session_id limit t) ≤ limit)
      × All (λ e. (e.session_id == session_id) ≡ true) (select_events session_id limit t)
      × IsAscending (select_events session_id limit t)
      × All
          (λ x. All (λ y. x.created_at ≤ y.created_at) (omitted_events session_id limit t))
          (select_events session_id limit t)
      × (count_if p (select_events session_id limit t)
            + count_if p (omitted_events session_id limit t)
          ≡ count_if (λ e. (e.session_id == session_id) && p e) t.events)
unfolding select_events
select_events_lem session_id limit t p =
    let mine = keep_if (λ e. e.session_id == session_id) t.events in
    let rows = sort_by (λ e. e.created_at) mine in
    let order = take-drop-IsAscending limit rows (sort_by-IsAscending mine) in
    (
      length-take-le limit rows,
      All-take _ limit rows (sort_by-All _ mine (All-keep_if _ t.events)),
      order.0,
      order.1,
      count_if-take-drop p limit rows ∙ count_if-sort_by p mine ∙ count_if-keep_if p _ t.events,
    )

length-drop-zero {ℓ} : {A : Type ℓ} (n : ℕ) (xs : List A) → length xs ≤ n → drop n xs ≡ []
length-drop-zero zero [] h = refl
length-drop-zero zero (x ∷ xs) h = absurd (omega (arith, h))
length-drop-zero (suc n) [] h = refl
length-drop-zero (suc n) (x ∷ xs) h = length-drop-zero n xs (omega (arith, h))

length-kept {ℓ} : {A : Type ℓ} (q : A → Bool) (xs : List A) → length (keep_if q xs) ≡ count_if q xs
length-kept q [] = refl
length-kept q (x ∷ xs) = ground (arith, length-kept q xs)

length-sort-keep_if :
    (q : Event → Bool) (xs : List Event)
    → length (sort_by (λ e. e.created_at) (keep_if q xs)) ≡ count_if q xs
length-sort-keep_if q xs =
    sym (count_if-true _)
    ∙ count_if-sort_by (λ e. true) (keep_if q xs)
    ∙ count_if-true _
    ∙ length-kept q xs

abbrev pub stored : Time → Event → Tables → Event
stored now evt t = record (dated evt now) { id = t.next_id }

insert_event-listed :
    (evt : Event) (limit : ℕ) (t : Tables) (p : Event → Bool)
    → is_there (lookup evt.session_id t.sessions) ≡ true
    → count_if (λ e. e.session_id == evt.session_id) t.events < limit
    → (t' : Tables) × (insert_event evt t ≡ some t')
      × (count_if p (select_events evt.session_id limit t')
          ≡ count_if (λ e. (e.session_id == evt.session_id) && p e) t.events
            + (if p (record evt { id = t.next_id }) then 1 else 0))
unfolding insert_event select_events
insert_event-listed evt limit t p own room =
    let e = record evt { id = t.next_id } in
    let mine = λ (x : Event). x.session_id == evt.session_id in
    let t' = record t { events = t.events ++ e ∷ []; next_id = suc t.next_id } in
    let rows = sort_by (λ x. x.created_at) (keep_if mine t'.events) in
    let self : mine e ≡ true = ground (arith, eq_iff evt.session_id evt.session_id) in
    let few : length rows ≤ limit =
      subst (λ n. n ≤ limit) (sym (length-sort-keep_if mine t'.events))
        (rw (count_if-append-one mine t.events e, self) (omega (arith, room))) in
    let listed = (select_events_lem evt.session_id limit t' p).4 in
    let none_left : count_if p (drop limit rows) ≡ 0 = rw (length-drop-zero limit rows few) refl in
    (
      t',
      rw own refl,
      ground (arith, listed, none_left, self, count_if-append-one (λ x. mine x && p x) t.events e),
    )

-- An event that is appended to a store that is not ephemeral, while its database works and to a
-- session that it holds, is stored without an error, and is in the session's next listing, with
-- the id that the table gives next, and at the time of the append where it came without one,
-- beside every event of the session that was there before, so long as the listing's limit is above
-- the number of those: any test counts as many in the listing as it counted in the session, and
-- one more if the new event passes it.
pub append_event-list_session_events :
    (cfg : EventStoreConfig) (t : Tables) (now : Time) (evt : Event) (limit : ℤ) (p : Event → Bool)
    → is_ephemeral cfg ≡ false
    → is_there (lookup evt.session_id t.sessions) ≡ true
    → count_if (λ e. e.session_id == evt.session_id) t.events < effective_limit limit
    → let after = append_event true now evt (record { cfg = cfg; db = some t }) in
      (after.1 ≡ true)
      × ((rows : List Event) × (list_session_events true evt.session_id limit after.0 ≡ some rows)
          × (count_if p rows
              ≡ count_if (λ e. (e.session_id == evt.session_id) && p e) t.events
                + (if p (stored now evt t) then 1 else 0)))
unfolding append_event on_tables list_session_events
append_event-list_session_events cfg t now evt limit p kept own room =
    let done = insert_event-listed (dated evt now) (effective_limit limit) t p own room in
    rw (kept, done.1, kept)
      (refl, (select_events evt.session_id (effective_limit limit) done.0, refl, done.2))
