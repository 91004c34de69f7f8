-- ===== src/EventStore/Examples.antt =====
-- internal/eventstore/store.go: runs of the store, and its theorems at concrete inputs.
use loqa_core.Base.{
  ℕ, ◌+◌, ◌-◌, ◌*◌, ◌≤◌, ◌≡◌, refl, String, ◌==◌, Bool, true, false, ◌&&◌, none, some, List, [],
  ◌∷◌, lookup, insert, count_if, All, length, Time, arith, if◌then◌else◌, ℤ, pos, wrap64, scale,
}
use loqa_core.Config.{EventStoreConfig}
use loqa_core.EventStore.{
  Event, SessionRow, Tables, Store, Call, appends_event, prunes, insert_by, sort_by, insert_newest,
  newest_first, upsert_session, insert_event, delete_sessions, delete_events_before, delete_surplus,
  expire, cutoff_at, pruned, prune, day, on_tables, OnDb, append_event, select_events,
  list_session_events, open_store, run,
}
use loqa_core.EventStore.Integrity.{IsSound}
use loqa_core.EventStore.Ids.{KeepsIds, run-open_store-IsSound}
use loqa_core.EventStore.Listing.{append_event-list_session_events, stored}
use loqa_core.EventStore.Retention.{IsFresh, IsOldBeside, surplus, pruned-bounds}
use loqa_core.EventStore.Overflow.{pruned-overflow}
use loqa_core.EventStore.Expiry.{expire-upsert_session}

abbrev keeping : String → ℤ → EventStoreConfig
keeping mode days = record {
  path = "events.db";
  retention_mode = mode;
  retention_days = days;
  max_sessions = pos 1;
  vacuum_on_start = false;
}

abbrev kitchen_row : SessionRow
kitchen_row = record { actor_id = "ada"; privacy_scope = "local"; created_at = day }

abbrev hall_row : SessionRow
hall_row = record { actor_id = "bob"; privacy_scope = "local"; created_at = 3 * day }

abbrev event_at : ℕ → String → Time → Event
event_at id session_id created_at = record {
  id = id;
  session_id = session_id;
  trace_id = "t";
  actor_id = "ada";
  type = "speech";
  payload = [];
  privacy = "local";
  created_at = created_at;
}

abbrev two_rooms : Tables
two_rooms = record {
  sessions = ("kitchen", kitchen_row) ∷ ("hall", hall_row) ∷ [];
  events =
      event_at 1 "kitchen" (3 * day) ∷ event_at 2 "kitchen" day ∷ event_at 3 "hall" (3 * day) ∷ [];
  next_id = 4;
}

abbrev noon : Time
noon = 3 * day + 7

two_rooms-IsSound : IsSound two_rooms
unfolding lookup
two_rooms-IsSound = record {
  unique = (refl, (refl, tt));
  owned = (refl, (refl, (refl, tt)));
  numbered = (
    omega arith,
    (omega arith, (omega arith, tt)),
    (omega arith, (omega arith, tt), (omega arith, tt, tt)),
  );
}

abbrev any_event : Event → Bool
any_event e = true

listing_is_in_order :
    select_events "kitchen" 10 two_rooms
    ≡ event_at 2 "kitchen" day ∷ event_at 1 "kitchen" (3 * day) ∷ []
unfolding select_events sort_by insert_by
listing_is_in_order = refl

abbrev some_calls : List Call
some_calls =
    appends_event true noon (event_at 0 "hall" 0) ∷ prunes true noon ∷ prunes false noon ∷ []

-- The store after its first prune: the row of the kitchen was two days old.
abbrev opened : Store
opened = record {
  cfg = keeping "session" (pos 2);
  db = some (record {
    sessions = ("hall", hall_row) ∷ [];
    events = event_at 3 "hall" (3 * day) ∷ [];
    next_id = 4;
  });
}

run-open_store-IsSound_example :
    OnDb IsSound (run some_calls opened).db
    × OnDb
        (λ t. OnDb (KeepsIds t) (run some_calls (run some_calls opened)).db)
        (run some_calls opened).db
unfolding open_store prune on_tables pruned cutoff_at scale wrap64 delete_sessions
    delete_events_before delete_surplus newest_first insert_newest lookup
run-open_store-IsSound_example =
    run-open_store-IsSound (keeping "session" (pos 2)) two_rooms true true true true true noon
      opened some_calls some_calls two_rooms-IsSound refl

append_event-list_session_events_example :
    let after =
      append_event true noon
        (event_at 0 "hall" 0)
        (record { cfg = keeping "session" (pos 2); db = some two_rooms }) in
    (after.1 ≡ true)
    × ((rows : List Event) × (list_session_events true "hall" (pos 2) after.0 ≡ some rows)
        × (count_if any_event rows
            ≡ count_if (λ e. (e.session_id == "hall") && any_event e) two_rooms.events
              + (if any_event (stored noon (event_at 0 "hall" 0) two_rooms) then 1 else 0)))
unfolding lookup
append_event-list_session_events_example =
    append_event-list_session_events (keeping "session" (pos 2)) two_rooms noon
      (event_at 0 "hall" 0) (pos 2) any_event refl refl (omega arith)

pruned-bounds_example :
    let cfg = keeping "session" (pos 2) in
    IsFresh (noon - day * 2) (pruned cfg noon two_rooms)
    × (length (pruned cfg noon two_rooms).sessions ≤ 1)
    × All
        (IsOldBeside (surplus 1 (expire (noon - day * 2) two_rooms)))
        (pruned cfg noon two_rooms).sessions
pruned-bounds_example =
    pruned-bounds (keeping "session" (pos 2)) noon two_rooms 2 1 refl refl (omega arith)
      (omega arith) refl (omega arith)

pruned-overflow_example :
    pruned (keeping "persistent" (pos 110000)) noon two_rooms
    ≡ record two_rooms { sessions = []; events = [] }
pruned-overflow_example =
    pruned-overflow (keeping "persistent" (pos 110000)) noon two_rooms 110000 refl refl
      (omega arith) (omega arith) (omega arith, (omega arith, tt))
      (omega arith, (omega arith, (omega arith, tt)))

abbrev after_touch : Tables
after_touch = record {
  sessions =
      ("kitchen", record kitchen_row { actor_id = "eve"; privacy_scope = "shared" })
      ∷ ("hall", hall_row)
      ∷ [];
  events =
      event_at 1 "kitchen" (3 * day)
      ∷ event_at 2 "kitchen" day
      ∷ event_at 3 "hall" (3 * day)
      ∷ event_at 4 "kitchen" noon
      ∷ [];
  next_id = 5;
}

expire-upsert_session_example :
    (lookup "kitchen" (expire (2 * day) after_touch).sessions ≡ none)
    × (count_if
          (λ e. (e.session_id == "kitchen") && any_event e)
          (expire (2 * day) after_touch).events
        ≡ 0)
unfolding lookup insert upsert_session insert_event
expire-upsert_session_example =
    expire-upsert_session (2 * day) noon "kitchen" "eve" "shared" kitchen_row
      (event_at 0 "kitchen" noon) any_event two_rooms after_touch two_rooms-IsSound.unique refl
      (omega arith) refl

abbrev working : Store
working = record { cfg = keeping "session" (pos 2); db = some two_rooms }
