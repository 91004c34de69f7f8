-- ===== src/EventStore/Sql.antt =====
-- internal/eventstore/store.go: the two tables of initSchema, and the SQL statements of the methods of
-- Store as functions on them. Stored times compare as the times do, and events of one time are listed
-- in the order of their ids.
use loqa_core.Base.{
  ℕ, suc, String, ◌==◌, Bool, true, false, not, ◌||◌, Option, none, some, List, [], ◌∷◌, ◌++◌, Map,
  lookup, insert, Time, ltb, leb, drop, keep_if, if◌then◌else◌,
}

pub record Event : Type 0 where
  pub id : ℕ
  pub session_id : String
  pub trace_id : String
  pub actor_id : String
  pub type : String
  pub payload : List ℕ
  pub privacy : String
  pub created_at : Time

-- A row of `sessions` behind its primary key.
pub record SessionRow : Type 0 where
  pub actor_id : String
  pub privacy_scope : String
  pub created_at : Time

-- The events stand in the order of their ids; AUTOINCREMENT never gives an id twice.
pub record Tables : Type 0 where
  pub sessions : Map SessionRow
  pub events : List Event
  pub next_id : ℕ

abbrev pub no_rows : Tables
no_rows = record { sessions = []; events = []; next_id = 1 }

-- INSERT INTO sessions … ON CONFLICT(session_id) DO UPDATE SET actor_id, privacy_scope
abbrev pub merged : Option SessionRow → String → String → Time → SessionRow
merged none actor_id privacy now = record {
  actor_id = actor_id;
  privacy_scope = privacy;
  created_at = now;
}
merged (some row) actor_id privacy now = record row { actor_id = actor_id; privacy_scope = privacy }

unfoldable pub upsert_session : String → String → String → Time → Tables → Tables
upsert_session session_id actor_id privacy now t = record t {
  sessions =
      insert session_id (merged (lookup session_id t.sessions) actor_id privacy now) t.sessions;
}

abbrev pub is_there {ℓ} : {A : Type ℓ} → Option A → Bool
is_there none = false
is_there (some a) = true

-- INSERT INTO events; the foreign key is enforced, so the session must be there.
unfoldable pub insert_event : Event → Tables → Option Tables
insert_event evt t =
    if is_there (lookup evt.session_id t.sessions)
    then some (record t {
      events = t.events ++ record evt { id = t.next_id } ∷ [];
      next_id = suc t.next_id;
    })
    else none

-- DELETE FROM sessions WHERE …, with ON DELETE CASCADE.
abbrev pub is_doomed : (String → SessionRow → Bool) → String → Option SessionRow → Bool
is_doomed doomed key none = false
is_doomed doomed key (some row) = doomed key row

unfoldable pub delete_sessions : (String → SessionRow → Bool) → Tables → Tables
delete_sessions doomed t = record t {
  sessions = keep_if (λ e. not (doomed e.0 e.1)) t.sessions;
  events =
      keep_if (λ e. not (is_doomed doomed e.session_id (lookup e.session_id t.sessions))) t.events;
}

-- DELETE FROM events WHERE created_at < ?
unfoldable pub delete_events_before : Time → Tables → Tables
delete_events_before cutoff t = record t {
  events = keep_if (λ e. not (ltb e.created_at cutoff)) t.events;
}

-- ORDER BY created_at, over rows whose time `key` tells: ascending and stable.
module _ {ℓ} {A : Type ℓ} (key : A → Time) where
  unfoldable pub insert_by : A → List A → List A
  insert_by x [] = x ∷ []
  insert_by x (y ∷ ys) = if leb (key x) (key y) then x ∷ y ∷ ys else y ∷ insert_by x ys

  unfoldable pub sort_by : List A → List A
  sort_by [] = []
  sort_by (x ∷ xs) = insert_by x (sort_by xs)

-- ORDER BY created_at DESC
unfoldable pub insert_newest : String × SessionRow → Map SessionRow → Map SessionRow
insert_newest x [] = x ∷ []
insert_newest x (y ∷ ys) =
    if leb y.1.created_at x.1.created_at then x ∷ y ∷ ys else y ∷ insert_newest x ys

unfoldable pub newest_first : Map SessionRow → Map SessionRow
newest_first [] = []
newest_first (x ∷ xs) = insert_newest x (newest_first xs)

abbrev pub is_among : String → Map SessionRow → Bool
is_among key [] = false
is_among key (e ∷ rows) = e.0 == key || is_among key rows

-- DELETE FROM sessions WHERE session_id IN (SELECT … DESC LIMIT -1 OFFSET ?)
unfoldable pub delete_surplus : ℕ → Tables → Tables
unfolding delete_sessions
delete_surplus limit t =
    delete_sessions (λ key row. is_among key (drop limit (newest_first t.sessions))) t
