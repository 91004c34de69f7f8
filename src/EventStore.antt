-- ===== src/EventStore.antt =====
-- internal/eventstore/store.go: the methods of Store, on the tables of the child module Sql. Whether
-- the database carries a statement out is an argument.
mod Sql
pub mod Integrity
pub mod Ids
pub mod Sorting
pub mod Listing
pub mod Retention
pub mod Overflow
pub mod Failures
pub mod Expiry
mod Examples
use loqa_core.Base.{
  ℕ, suc, ◌+◌, ◌-◌, ◌*◌, String, ◌==◌, Bool, true, false, not, ◌&&◌, ◌||◌, Option, none, some, List,
  [], ◌∷◌, ◌++◌, Map, lookup, insert, Time, zero_time, scale, pos, negsuc, pos_part, neg_part,
  int_leb, int_ltb, ℤ, eqb, ltb, leb, take, drop, keep_if, if◌then◌else◌, ◌≡◌, Bool-cases,
  Option-cases, inl, inr, subst, refl,
}
use loqa_core.Config.{EventStoreConfig}
pub use Sql.*
unfoldable pub use Sql.{
  upsert_session, insert_event, delete_sessions, delete_events_before, insert_by, sort_by,
  insert_newest, newest_first, delete_surplus,
}

-- `db` is `none` for nil.
pub record Store : Type 0 where
  pub cfg : EventStoreConfig
  pub db : Option Tables

abbrev pub is_ephemeral : EventStoreConfig → Bool
is_ephemeral cfg = cfg.retention_mode == "ephemeral"

-- The result tells whether there was no error. Each method takes whether the database works.
abbrev inserted : Store → Option Tables → Store × Bool
inserted s none = (s, false)
inserted s (some t) = (record s { db = some t }, true)

-- How every method that writes goes about it: not at all in an ephemeral store or one without a
-- database, and with an error and no change where a statement fails.
unfoldable pub on_tables : Bool → (Tables → Option Tables) → Store → Store × Bool
on_tables works statement s = if is_ephemeral s.cfg then (s, true) else elim s.db [
  | none ↦ (s, true)
  | some t ↦ if works then inserted s (statement t) else (s, false)
]

unfoldable pub append_session : Bool → Time → String → String → String → Store → Store × Bool
append_session works now session_id actor_id privacy s =
    on_tables works (λ t. some (upsert_session session_id actor_id privacy now t)) s

abbrev pub dated : Event → Time → Event
dated evt now = record evt {
  created_at = if eqb evt.created_at zero_time then now else evt.created_at;
}

unfoldable pub append_event : Bool → Time → Event → Store → Store × Bool
append_event works now evt s = on_tables works (insert_event (dated evt now)) s

-- A limit that is not positive is 100.
abbrev pub effective_limit : ℤ → ℕ
effective_limit limit = if int_leb limit (pos 0) then 100 else pos_part limit

unfoldable pub select_events : String → ℕ → Tables → List Event
select_events session_id limit t =
    take limit (sort_by (λ e. e.created_at) (keep_if (λ e. e.session_id == session_id) t.events))

-- `none` is an error.
unfoldable pub list_session_events : Bool → String → ℤ → Store → Option (List Event)
list_session_events works session_id limit s = if is_ephemeral s.cfg then some [] else elim s.db [
  | none ↦ some []
  | some t ↦ if works then some (select_events session_id (effective_limit limit) t) else none
]

abbrev pub day : ℕ
day = 86400000000000

-- clock().Add(-time.Duration(days) * 24 * time.Hour). A time before the zero time is kept at it, and
-- no row is older than that.
abbrev pub negated : ℤ → ℤ
negated (pos ℕ.zero) = pos 0
negated (pos (suc n)) = negsuc n
negated (negsuc n) = pos (suc n)

unfoldable pub cutoff_at : Time → ℤ → Time
cutoff_at now days = let age = scale day (negated days) in now + pos_part age - neg_part age

abbrev pub expire : Time → Tables → Tables
expire cutoff t =
    delete_sessions (λ key row. ltb row.created_at cutoff) (delete_events_before cutoff t)

abbrev pub prune_old : Time → ℤ → Tables → Tables
prune_old now days t = if int_ltb (pos 0) days then expire (cutoff_at now days) t else t

abbrev pub prune_surplus : ℤ → Tables → Tables
prune_surplus limit t = if int_ltb (pos 0) limit then delete_surplus (pos_part limit) t else t

-- What the transaction of `Prune` does to the tables when every statement works.
unfoldable pub pruned : EventStoreConfig → Time → Tables → Tables
pruned cfg now t =
    if cfg.retention_mode == "persistent" || cfg.retention_mode == "session"
    then prune_surplus cfg.max_sessions (prune_old now cfg.retention_days t)
    else t

-- A statement that fails rolls the transaction back.
unfoldable pub prune : Bool → Time → Store → Store × Bool
prune works now s = on_tables works (λ t. some (pruned s.cfg now t)) s

-- `Open` on a database file that holds `stored`; the flags say whether the directory can be made,
-- the database opened, pinged and given its schema, and pruned. VACUUM changes no row.
unfoldable pub open_store :
    EventStoreConfig → Tables → Bool → Bool → Bool → Bool → Bool → Time → Option Store
unfolding prune
open_store cfg stored made opened pinged schema prunes now =
    if is_ephemeral cfg
    then some (record { cfg = cfg; db = none })
    else if not (made && opened && pinged && schema)
    then none
    else some (prune prunes now (record { cfg = cfg; db = some stored })).0

unfoldable pub ensure : Store → Bool
ensure s = not (is_ephemeral s.cfg && is_there s.db)

-- What other parts of the program call while the store is open.
pub data Call : Type 0 where
  appends_session : Bool → Time → String → String → String → Call
  appends_event : Bool → Time → Event → Call
  prunes : Bool → Time → Call

unfoldable pub step : Call → Store → Store
step (appends_session works now session_id actor_id privacy) s =
    (append_session works now session_id actor_id privacy s).0
step (appends_event works now evt) s = (append_event works now evt s).0
step (prunes works now) s = (prune works now s).0

unfoldable pub run : List Call → Store → Store
run [] s = s
run (c ∷ calls) s = run calls (step c s)

-- A predicate on the tables, where there are any.
abbrev pub OnDb {ℓ} : (Tables → Type ℓ) → Option Tables → Type ℓ
OnDb P none = Unit
OnDb P (some t) = P t

-- The ways `on_tables` ends: no change, or the tables that the statement makes.
pub on_tables-cases {ℓ} :
    (P : Store × Bool → Type ℓ) (works : Bool) (statement : Tables → Option Tables)
    (cfg : EventStoreConfig) (db : Option Tables)
    → let s : Store = record { cfg = cfg; db = db } in
      P (s, true)
      → P (s, false)
      → ((t t' : Tables)
          → db ≡ some t
          → statement t ≡ some t'
          → P (record s { db = some t' }, true))
      → P (on_tables works statement s)
unfolding on_tables
on_tables-cases P works statement cfg none kept failed made = elim (Bool-cases (is_ephemeral cfg)) [
  | inl e ↦ rw e kept
  | inr e ↦ rw e kept
]
on_tables-cases P false statement cfg (some t) kept failed made =
    elim (Bool-cases (is_ephemeral cfg)) [ inl e ↦ rw e kept | inr e ↦ rw e failed ]
on_tables-cases P true statement cfg (some t) kept failed made =
    elim (Bool-cases (is_ephemeral cfg)) [
      | inl e ↦ rw e kept
      | inr e ↦ rw e (elim (Option-cases (statement t)) [
        | inl fails ↦ rw fails failed
        | inr (t', does) ↦ rw does (made t t' refl does)
      ])
    ]

-- What a statement keeps, a method keeps on every branch.
pub on_tables_inv {ℓ} :
    (P : Tables → Type ℓ) (works : Bool) (statement : Tables → Option Tables) (s : Store)
    → ((t t' : Tables) → statement t ≡ some t' → P t → P t')
    → OnDb P s.db
    → OnDb P (on_tables works statement s).0.db
on_tables_inv P works statement s keep h =
    on_tables-cases (λ r. OnDb P r.0.db) works statement s.cfg s.db h h
      (λ t t' e does. keep t t' does (subst (λ o. OnDb P o) e h))
