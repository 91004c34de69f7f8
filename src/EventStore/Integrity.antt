-- ===== src/EventStore/Integrity.antt =====
-- internal/eventstore/store.go: what holds of the tables after any history of calls.
use loqa_core.Base.{
  ℕ, suc, ◌<◌, ◌≡◌, refl, String, ◌==◌, eq_iff, Bool, true, false, not, Option, none, some, List,
  [], ◌∷◌, ◌++◌, Map, lookup, lookup-insert, lookup-keep_if, IsUnique, insert-IsUnique,
  keep_if-IsUnique, spared, keep_if, All, All-map, keep_if-All, Time, arith, if◌then◌else◌,
  Bool-cases, inl, inr, ℤ, int_ltb, pos, subst, ◌||◌, some-eq,
}
use loqa_core.Config.{EventStoreConfig}
use loqa_core.EventStore.{
  Event, SessionRow, Tables, Store, is_there, is_doomed, is_ephemeral, merged, upsert_session,
  insert_event, delete_sessions, delete_events_before, delete_surplus, prune_old, prune_surplus,
  pruned, cutoff_at, dated, append_session, append_event, prune, step, run, Call, appends_session,
  appends_event, prunes, OnDb, on_tables_inv, open_store,
}

-- Ids rise along the events, and stay below the next one.
abbrev pub IsNumbered : ℕ → List Event → Type 0
IsNumbered bound [] = Unit {0}
IsNumbered bound (x ∷ xs) = (x.id < bound) × All (λ y. x.id < y.id) xs × IsNumbered bound xs

abbrev pub IsOwned : Map SessionRow → Event → Type 0
IsOwned sessions e = is_there (lookup e.session_id sessions) ≡ true

-- Session ids are a primary key, event ids are increasing, and every event's session is there.
pub record IsSound (t : Tables) : Type 0 where
  pub unique : IsUnique t.sessions
  pub owned : All (IsOwned t.sessions) t.events
  pub numbered : IsNumbered t.next_id t.events

upsert_session-IsSound :
    (session_id actor_id privacy : String) (now : Time) (t : Tables)
    → IsSound t
    → IsSound (upsert_session session_id actor_id privacy now t)
unfolding upsert_session
upsert_session-IsSound session_id actor_id privacy now t h = record {
  unique = insert-IsUnique session_id _ t.sessions h.unique;
  owned =
      All-map (IsOwned t.sessions) _ t.events
        (λ e own. ground (
          arith,
          own,
          eq_iff session_id e.session_id,
          lookup-insert session_id e.session_id
              (merged (lookup session_id t.sessions) actor_id privacy now) t.sessions,
        ))
        h.owned;
  numbered = h.numbered;
}

append-All :
    (P : Event → Type 0) (xs : List Event) (x : Event) → All P xs → P x → All P (xs ++ x ∷ [])
append-All P [] x h p = (p, tt)
append-All P (y ∷ xs) x h p = (h.0, append-All P xs x h.1 p)

append-IsNumbered :
    (bound : ℕ) (xs : List Event) (x : Event)
    → x.id ≡ bound
    → IsNumbered bound xs
    → IsNumbered (suc bound) (xs ++ x ∷ [])
append-IsNumbered bound [] x e h = (omega arith, tt, tt)
append-IsNumbered bound (y ∷ xs) x e h = (
  omega (arith, h.0),
  append-All _ xs x h.1 (omega (arith, h.0)),
  append-IsNumbered bound xs x e h.2,
)

insert_event-IsSound :
    (evt : Event) (t t' : Tables) → insert_event evt t ≡ some t' → IsSound t → IsSound t'
unfolding insert_event
insert_event-IsSound evt t t' e h =
    elim (Bool-cases (is_there (lookup evt.session_id t.sessions))) [
      | inl own ↦
          let same : record t {
            events = t.events ++ record evt { id = t.next_id } ∷ [];
            next_id = suc t.next_id;
          }
              ≡ t' =
            ground (arith, own, e) in
          subst IsSound same (record {
            unique = h.unique;
            owned = append-All (IsOwned t.sessions) t.events _ h.owned own;
            numbered = append-IsNumbered t.next_id t.events _ refl h.numbered;
          })
      | inr gone ↦ absurd (ground arith)
    ]

keep_if-IsNumbered :
    (p : Event → Bool) (bound : ℕ) (xs : List Event)
    → IsNumbered bound xs
    → IsNumbered bound (keep_if p xs)
keep_if-IsNumbered p bound [] h = tt
keep_if-IsNumbered p bound (x ∷ xs) h = elim (Bool-cases (p x)) [
  | inl hit ↦ rw hit (h.0, keep_if-All _ p xs h.1, keep_if-IsNumbered p bound xs h.2)
  | inr miss ↦ rw miss (keep_if-IsNumbered p bound xs h.2)
]

spared-owned :
    (doomed : String → SessionRow → Bool) (key : String) (o : Option SessionRow)
    → is_there o ≡ true
    → is_doomed doomed key o ≡ false
    → is_there (spared doomed key o) ≡ true
spared-owned doomed key none h k = h
spared-owned doomed key (some row) h k = ground arith

cascade-IsOwned :
    (doomed : String → SessionRow → Bool) (m : Map SessionRow) (events : List Event)
    → IsUnique m
    → All (IsOwned m) events
    → All
        (IsOwned (keep_if (λ e. not (doomed e.0 e.1)) m))
        (keep_if (λ e. not (is_doomed doomed e.session_id (lookup e.session_id m))) events)
cascade-IsOwned doomed m [] u h = tt
cascade-IsOwned doomed m (x ∷ events) u h =
    elim (Bool-cases (is_doomed doomed x.session_id (lookup x.session_id m))) [
      | inl gone ↦ rw gone (cascade-IsOwned doomed m events u h.1)
      | inr left ↦ rw left (
        rw (lookup-keep_if doomed x.session_id m u)
            (spared-owned doomed x.session_id (lookup x.session_id m) h.0 left),
        cascade-IsOwned doomed m events u h.1,
      )
    ]

pub delete_sessions-IsSound :
    (doomed : String → SessionRow → Bool) (t : Tables)
    → IsSound t
    → IsSound (delete_sessions doomed t)
unfolding delete_sessions
delete_sessions-IsSound doomed t h = record {
  unique = keep_if-IsUnique _ t.sessions h.unique;
  owned = cascade-IsOwned doomed t.sessions t.events h.unique h.owned;
  numbered = keep_if-IsNumbered _ t.next_id t.events h.numbered;
}

pub delete_events_before-IsSound :
    (cutoff : Time) (t : Tables) → IsSound t → IsSound (delete_events_before cutoff t)
unfolding delete_events_before
delete_events_before-IsSound cutoff t h = record {
  unique = h.unique;
  owned = keep_if-All (IsOwned t.sessions) _ t.events h.owned;
  numbered = keep_if-IsNumbered _ t.next_id t.events h.numbered;
}

prune_old-IsSound :
    (now : Time) (days : ℤ) (t : Tables) → IsSound t → IsSound (prune_old now days t)
prune_old-IsSound now days t h = elim (Bool-cases (int_ltb (pos 0) days)) [
  | inl e ↦
      rw e (delete_sessions-IsSound _ _ (delete_events_before-IsSound (cutoff_at now days) t h))
  | inr e ↦ rw e h
]

prune_surplus-IsSound : (limit : ℤ) (t : Tables) → IsSound t → IsSound (prune_surplus limit t)
unfolding delete_surplus
prune_surplus-IsSound limit t h = elim (Bool-cases (int_ltb (pos 0) limit)) [
  | inl e ↦ rw e (delete_sessions-IsSound _ t h)
  | inr e ↦ rw e h
]

pub pruned-IsSound :
    (cfg : EventStoreConfig) (now : Time) (t : Tables) → IsSound t → IsSound (pruned cfg now t)
unfolding pruned
pruned-IsSound cfg now t h =
    elim (Bool-cases (cfg.retention_mode == "persistent" || cfg.retention_mode == "session")) [
      | inl e ↦
          rw e (
            prune_surplus-IsSound cfg.max_sessions _ (prune_old-IsSound now cfg.retention_days t h))
      | inr e ↦ rw e h
    ]

pub step-IsSound : (c : Call) (s : Store) → OnDb IsSound s.db → OnDb IsSound (step c s).db
unfolding step append_session append_event prune
step-IsSound (appends_session works now session_id actor_id privacy) s h =
    on_tables_inv IsSound works (λ t. some (upsert_session session_id actor_id privacy now t)) s
      (λ t t' e sound.
        subst IsSound (some-eq e) (upsert_session-IsSound session_id actor_id privacy now t sound))
      h
step-IsSound (appends_event works now evt) s h =
    on_tables_inv IsSound works (insert_event (dated evt now)) s
      (λ t t' e sound. insert_event-IsSound (dated evt now) t t' e sound) h
step-IsSound (prunes works now) s h =
    on_tables_inv IsSound works (λ t. some (pruned s.cfg now t)) s
      (λ t t' e sound. subst IsSound (some-eq e) (pruned-IsSound s.cfg now t sound)) h

pub run-IsSound :
    (calls : List Call) (s : Store) → OnDb IsSound s.db → OnDb IsSound (run calls s).db
unfolding run
run-IsSound [] s h = h
run-IsSound (c ∷ calls) s h = run-IsSound calls (step c s) (step-IsSound c s h)

-- The three ways `open_store` ends.
opened_store {ℓ} :
    (P : Store → Type ℓ) (bare refused : Bool) (x y : Store) {s : Store}
    → (if bare then some x else if refused then none else some y) ≡ some s
    → P x
    → P y
    → P s
opened_store P true refused x y e px py = subst P (some-eq e) px
opened_store P false true x y e px py = absurd (ground (arith, e))
opened_store P false false x y e px py = subst P (some-eq e) py

pub open_store-IsSound :
    (cfg : EventStoreConfig) (stored : Tables) (made opened pinged schema cleans : Bool)
    (now : Time) (s : Store)
    → IsSound stored
    → open_store cfg stored made opened pinged schema cleans now ≡ some s
    → OnDb IsSound s.db
unfolding open_store prune
open_store-IsSound cfg stored made opened pinged schema cleans now s h e =
    opened_store (λ r. OnDb IsSound r.db) (is_ephemeral cfg) _ _ _ e tt
      (on_tables_inv IsSound cleans (λ t. some (pruned cfg now t)) _
        (λ t t' same sound. subst IsSound (some-eq same) (pruned-IsSound cfg now t sound)) h)
