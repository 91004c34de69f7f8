-- ===== src/EventStore/Ids.antt =====
-- internal/eventstore/store.go: the ids of events over any history of calls.
use mathlib.Core.List.{Memᴰ}
use mathlib.Core.List.Memᴰ
use loqa_core.Base.{
  ℕ, ◌<◌, ◌≤◌, ◌≡◌, ◌⊎◌, sym, ap, ◌∙◌, subst, String, ◌==◌, Bool, Option, none, some, some-eq, List,
  [], ◌∷◌, lookup, keep_if, All, Time, arith, Bool-cases, inl, inr, if_all, ltb, ℤ, int_ltb, pos,
  ◌||◌,
}
use loqa_core.Config.{EventStoreConfig}
use loqa_core.EventStore.{
  Event, SessionRow, Tables, Store, is_there, upsert_session, insert_event, delete_sessions,
  delete_events_before, delete_surplus, expire, prune_old, prune_surplus, pruned, cutoff_at, dated,
  append_session, append_event, prune, step, run, Call, appends_session, appends_event, prunes,
  OnDb, on_tables, on_tables-cases, open_store,
}
use loqa_core.EventStore.Integrity.{IsNumbered, IsSound, run-IsSound, open_store-IsSound}

-- What tables become: the next id never falls, and an event that is new has an id that was not given.
abbrev pub Extends : Tables → Tables → Type 0
Extends t t' =
    (t.next_id ≤ t'.next_id)
    × ((e : Event) → Memᴰ e t'.events → Memᴰ e t.events ⊎ (t.next_id ≤ e.id))

Extends-refl : (t : Tables) → Extends t t
Extends-refl t = (omega arith, λ e there. inl there)

Extends-trans : (t u v : Tables) → Extends t u → Extends u v → Extends t v
Extends-trans t u v h k = (
  omega (arith, h.0, k.0),
  λ e there. elim (k.1 e there) [
    | inl before ↦ h.1 e before
    | inr fresh ↦ inr (omega (arith, fresh, h.0))
  ],
)

keep_if-Memᴰ : (p : Event → Bool) (e : Event) (xs : List Event) → Memᴰ e (keep_if p xs) → Memᴰ e xs
keep_if-Memᴰ p e [] h = h
keep_if-Memᴰ p e (x ∷ xs) h = elim (Bool-cases (p x)) [
  | inl hit ↦ elim (Memᴰ.cases_cons (rw hit at h)) [
    | inl here ↦ Memᴰ.head here
    | inr there ↦ Memᴰ.tail (keep_if-Memᴰ p e xs there)
  ]
  | inr miss ↦ Memᴰ.tail (keep_if-Memᴰ p e xs (rw miss at h))
]

upsert_session-Extends :
    (session_id actor_id privacy : String) (now : Time) (t : Tables)
    → Extends t (upsert_session session_id actor_id privacy now t)
unfolding upsert_session
upsert_session-Extends session_id actor_id privacy now t = (omega arith, λ e there. inl there)

insert_event-Extends : (evt : Event) (t t' : Tables) → insert_event evt t ≡ some t' → Extends t t'
unfolding insert_event
insert_event-Extends evt t t' e = elim (Bool-cases (is_there (lookup evt.session_id t.sessions))) [
  | inl own ↦ subst (Extends t) (some-eq (rw own at e)) (
    omega arith,
    λ x there. elim (Memᴰ.append_cases t.events there) [
      | inl before ↦ inl before
      | inr new ↦
          let is_new = ap (λ (y : Event). y.id) (Memᴰ.eq_of_singleton new) in
          inr (omega (arith, is_new))
    ],
  )
  | inr gone ↦ absurd (ground (arith, gone, e))
]

delete_sessions-Extends :
    (doomed : String → SessionRow → Bool) (t : Tables) → Extends t (delete_sessions doomed t)
unfolding delete_sessions
delete_sessions-Extends doomed t = (omega arith, λ e there. inl (keep_if-Memᴰ _ e t.events there))

delete_events_before-Extends :
    (cutoff : Time) (t : Tables) → Extends t (delete_events_before cutoff t)
unfolding delete_events_before
delete_events_before-Extends cutoff t =
    (omega arith, λ e there. inl (keep_if-Memᴰ _ e t.events there))

expire-Extends : (cutoff : Time) (t : Tables) → Extends t (expire cutoff t)
expire-Extends cutoff t =
    let rest = delete_events_before cutoff t in
    Extends-trans t rest (expire cutoff t) (delete_events_before-Extends cutoff t)
      (delete_sessions-Extends (λ key row. ltb row.created_at cutoff) rest)

prune_old-Extends : (now : Time) (days : ℤ) (t : Tables) → Extends t (prune_old now days t)
prune_old-Extends now days t =
    if_all (Extends t) (int_ltb (pos 0) days) (λ on. expire-Extends (cutoff_at now days) t)
      λ off. Extends-refl t

prune_surplus-Extends : (limit : ℤ) (t : Tables) → Extends t (prune_surplus limit t)
unfolding delete_surplus
prune_surplus-Extends limit t =
    if_all (Extends t) (int_ltb (pos 0) limit) (λ on. delete_sessions-Extends _ t)
      λ off. Extends-refl t

pruned-Extends : (cfg : EventStoreConfig) (now : Time) (t : Tables) → Extends t (pruned cfg now t)
unfolding pruned
pruned-Extends cfg now t =
    let rest = prune_old now cfg.retention_days t in
    if_all (Extends t) (cfg.retention_mode == "persistent" || cfg.retention_mode == "session")
      (λ on.
        Extends-trans t rest (prune_surplus cfg.max_sessions rest)
          (prune_old-Extends now cfg.retention_days t)
          (prune_surplus-Extends cfg.max_sessions rest))
      λ off. Extends-refl t

-- A database stays, and its tables extend what they were.
abbrev Grows : Option Tables → Option Tables → Type 0
Grows none none = Unit
Grows none (some t') = ⊥
Grows (some t) none = ⊥
Grows (some t) (some t') = Extends t t'

Grows-refl : (db : Option Tables) → Grows db db
Grows-refl none = tt
Grows-refl (some t) = Extends-refl t

Grows-trans : (a b c : Option Tables) → Grows a b → Grows b c → Grows a c
Grows-trans none none none h k = tt
Grows-trans none none (some v) h k = k
Grows-trans none (some u) c h k = absurd h
Grows-trans (some t) none c h k = absurd h
Grows-trans (some t) (some u) none h k = k
Grows-trans (some t) (some u) (some v) h k = Extends-trans t u v h k

on_tables-Grows :
    (works : Bool) (statement : Tables → Option Tables) (s : Store)
    → ((t t' : Tables) → statement t ≡ some t' → Extends t t')
    → Grows s.db (on_tables works statement s).0.db
on_tables-Grows works statement s keep =
    on_tables-cases (λ r. Grows s.db r.0.db) works statement s.cfg s.db (Grows-refl s.db)
      (Grows-refl s.db) (λ t t' e does. subst (λ o. Grows o (some t')) (sym e) (keep t t' does))

step-Grows : (c : Call) (s : Store) → Grows s.db (step c s).db
unfolding step append_session append_event prune
step-Grows (appends_session works now session_id actor_id privacy) s =
    on_tables-Grows works _ s (λ t t' e.
      subst (Extends t) (some-eq e) (upsert_session-Extends session_id actor_id privacy now t))
step-Grows (appends_event works now evt) s =
    on_tables-Grows works _ s (λ t t' e. insert_event-Extends (dated evt now) t t' e)
step-Grows (prunes works now) s =
    on_tables-Grows works _ s (λ t t' e. subst (Extends t) (some-eq e) (pruned-Extends s.cfg now t))

run-Grows : (calls : List Call) (s : Store) → Grows s.db (run calls s).db
unfolding run
run-Grows [] s = Grows-refl s.db
run-Grows (c ∷ calls) s =
    Grows-trans s.db (step c s).db (run calls (step c s)).db (step-Grows c s)
      (run-Grows calls (step c s))

-- Two events with one id, of which the first stands in the one tables and the second in the others,
-- are one.
abbrev pub HasOneEventPerId : Tables → Tables → Type 0
HasOneEventPerId t t' = (e e' : Event) → Memᴰ e t.events → Memᴰ e' t'.events → e.id ≡ e'.id → e ≡ e'

-- No id of the one tables, or one given before, is given again on the way to the others.
abbrev pub KeepsIds : Tables → Tables → Type 0
KeepsIds t t' = Extends t t' × HasOneEventPerId t t'

below : (bound : ℕ) (e : Event) {xs : List Event} → IsNumbered bound xs → Memᴰ e xs → e.id < bound
below bound e h (Memᴰ.head {x = x} here) = omega (arith, h.0, ap (λ (y : Event). y.id) here)
below bound e h (Memᴰ.tail there) = below bound e h.2 there

above : (n : ℕ) (e : Event) {xs : List Event} → All (λ y. n < y.id) xs → Memᴰ e xs → n < e.id
above n e h (Memᴰ.head {x = x} here) = omega (arith, h.0, ap (λ (y : Event). y.id) here)
above n e h (Memᴰ.tail there) = above n e h.1 there

numbered-one :
    (bound : ℕ) (e e' : Event) (xs : List Event)
    → IsNumbered bound xs
    → Memᴰ e xs
    → Memᴰ e' xs
    → e.id ≡ e'.id
    → e ≡ e'
numbered-one bound e e' [] h there there' same = elim there [ ]
numbered-one bound e e' (x ∷ xs) h there there' same = elim (Memᴰ.cases_cons there) [
  | inl here ↦ elim (Memᴰ.cases_cons there') [
    | inl here' ↦ here ∙ sym here'
    | inr later' ↦
        absurd (omega (arith, same, above x.id e' h.1 later', ap (λ (y : Event). y.id) here))
  ]
  | inr later ↦ elim (Memᴰ.cases_cons there') [
    | inl here' ↦
        absurd (omega (arith, same, above x.id e h.1 later, ap (λ (y : Event). y.id) here'))
    | inr later' ↦ numbered-one bound e e' xs h.2 later later' same
  ]
]

Extends-KeepsIds : (t t' : Tables) → IsSound t → Extends t t' → KeepsIds t t'
Extends-KeepsIds t t' sound grown = (
  grown,
  λ e e' there there' same. elim (grown.1 e' there') [
    | inl before ↦ numbered-one t.next_id e e' t.events sound.numbered there before same
    | inr fresh ↦ absurd (omega (arith, same, fresh, below t.next_id e sound.numbered there))
  ],
)

Grows-KeepsIds :
    (db db' : Option Tables) → OnDb IsSound db → Grows db db' → OnDb (λ t. OnDb (KeepsIds t) db') db
Grows-KeepsIds none db' sound grown = tt
Grows-KeepsIds (some t) none sound grown = tt
Grows-KeepsIds (some t) (some t') sound grown = Extends-KeepsIds t t' sound grown

-- If the tables on disk are sound, they are sound after the store has been opened and after every
-- history of calls, those that fail and those that prune included: session ids stay unique, event
-- ids stay in the order of the events and below the next one, and no event is without its session. And
-- no id is given twice: after any later calls the next id is not lower than it was, an event that was not
-- there before them has no lower id than that, and an event that was there and one that is there are one
-- if they have one id, whatever was deleted meanwhile.
pub run-open_store-IsSound :
    (cfg : EventStoreConfig) (stored : Tables) (made opened pinged schema cleans : Bool)
    (now : Time) (s : Store) (calls later : List Call)
    → IsSound stored
    → open_store cfg stored made opened pinged schema cleans now ≡ some s
    → OnDb IsSound (run calls s).db
      × OnDb (λ t. OnDb (KeepsIds t) (run later (run calls s)).db) (run calls s).db
run-open_store-IsSound cfg stored made opened pinged schema cleans now s calls later h e =
    let sound =
      run-IsSound calls s
        (open_store-IsSound cfg stored made opened pinged schema cleans now s h e) in
    (sound, Grows-KeepsIds _ _ sound (run-Grows later (run calls s)))
