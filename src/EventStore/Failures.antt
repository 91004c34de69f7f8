-- ===== src/EventStore/Failures.antt =====
-- internal/eventstore/store.go: errors, and the store that keeps nothing.
use loqa_core.Base.{
  ◌≡◌, refl, String, Bool, true, false, Option, none, some, List, [], ◌∷◌, Time, ℤ, arith,
}
use loqa_core.Config.{EventStoreConfig}
use loqa_core.EventStore.{
  Event, Tables, Store, is_ephemeral, on_tables, on_tables-cases, append_session, append_event,
  prune, list_session_events, open_store, ensure, step, run, Call, appends_session, appends_event,
  prunes,
}

on_tables-failed :
    (works : Bool) (statement : Tables → Option Tables) (s : Store)
    → (on_tables works statement s).1 ≡ false
    → (on_tables works statement s).0 ≡ s
on_tables-failed works statement s =
    on_tables-cases (λ r. r.1 ≡ false → r.0 ≡ s) works statement s.cfg s.db (λ h. refl) (λ h. refl)
      (λ t t' e does h. absurd (ground (arith, h)))

-- A method that writes and returns an error has left the store as it was, whatever failed.
pub failed_calls :
    (s : Store) (works : Bool) (now : Time) (session_id actor_id privacy : String) (evt : Event)
    → ((append_session works now session_id actor_id privacy s).1 ≡ false
        → (append_session works now session_id actor_id privacy s).0 ≡ s)
      × ((append_event works now evt s).1 ≡ false → (append_event works now evt s).0 ≡ s)
      × ((prune works now s).1 ≡ false → (prune works now s).0 ≡ s)
unfolding append_session append_event prune
failed_calls s works now session_id actor_id privacy evt =
    (on_tables-failed works _ s, on_tables-failed works _ s, on_tables-failed works _ s)

step-ephemeral :
    (cfg : EventStoreConfig) (c : Call)
    → is_ephemeral cfg ≡ true
    → step c (record { cfg = cfg; db = none }) ≡ record { cfg = cfg; db = none }
unfolding step append_session append_event prune on_tables
step-ephemeral cfg (appends_session works now session_id actor_id privacy) h = ground (arith, h)
step-ephemeral cfg (appends_event works now evt) h = ground (arith, h)
step-ephemeral cfg (prunes works now) h = ground (arith, h)

run-ephemeral :
    (cfg : EventStoreConfig) (calls : List Call)
    → is_ephemeral cfg ≡ true
    → run calls (record { cfg = cfg; db = none }) ≡ record { cfg = cfg; db = none }
unfolding run
run-ephemeral cfg [] h = refl
run-ephemeral cfg (c ∷ calls) h = rw (step-ephemeral cfg c h) (run-ephemeral cfg calls h)

-- A store opened in ephemeral mode opens whatever the disk does, is the same after any calls, lists
-- no events and no errors whatever the session and the limit, and passes its own check.
pub ephemeral_store :
    (cfg : EventStoreConfig) (stored : Tables) (made opened pinged schema cleans works : Bool)
    (now : Time) (calls : List Call) (session_id : String) (limit : ℤ)
    → is_ephemeral cfg ≡ true
    → (s : Store) × (open_store cfg stored made opened pinged schema cleans now ≡ some s)
      × (run calls s ≡ s)
      × (list_session_events works session_id limit (run calls s) ≡ some [])
      × (ensure (run calls s) ≡ true)
unfolding open_store prune list_session_events ensure
ephemeral_store cfg stored made opened pinged schema cleans works now calls session_id limit h = (
  record { cfg = cfg; db = none },
  rw h refl,
  run-ephemeral cfg calls h,
  rw (run-ephemeral cfg calls h, h) refl,
  rw (run-ephemeral cfg calls h, h) refl,
)
