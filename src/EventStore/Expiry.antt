-- ===== src/EventStore/Expiry.antt =====
-- internal/eventstore/store.go:203-210: which events go with the sessions that have expired.
use loqa_core.Base.{
  ◌<◌, ◌≡◌, refl, ap, subst, suc, ◌∙◌, String, ◌==◌, eq_iff, Bool, true, not, ◌&&◌, none, some,
  List, [], ◌∷◌, ◌++◌, Map, lookup, insert, lookup-insert, lookup-keep_if, IsUnique,
  insert-IsUnique, count_if, keep_if, Time, ltb, arith, if◌then◌else◌, Bool-cases, inl, inr,
}
use loqa_core.EventStore.{
  Event, SessionRow, Tables, is_there, delete_sessions, delete_events_before, expire, is_doomed,
  upsert_session, insert_event, merged,
}

count_if-cascade :
    (doomed : String → SessionRow → Bool) (m : Map SessionRow) (key : String) (row : SessionRow)
    (p : Event → Bool) (events : List Event)
    → lookup key m ≡ some row
    → count_if
        (λ e. (e.session_id == key) && p e)
        (keep_if (λ e. not (is_doomed doomed e.session_id (lookup e.session_id m))) events)
      ≡ (if doomed key row then 0 else count_if (λ e. (e.session_id == key) && p e) events)
count_if-cascade doomed m key row p [] h = ground arith
count_if-cascade doomed m key row p (x ∷ events) h =
    let rest = count_if-cascade doomed m key row p events h in
    elim (Bool-cases (x.session_id == key)) [
      | inl same ↦
          let named : x.session_id ≡ key = ground (arith, same, eq_iff x.session_id key) in
          let fate : is_doomed doomed x.session_id (lookup x.session_id m) ≡ doomed key row =
            rw (named, h) refl in
          ground (arith, same, fate, rest)
      | inr other ↦ ground (arith, other, rest)
    ]

count_if-recent :
    (cutoff : Time) (key : String) (p : Event → Bool) (events : List Event)
    → count_if
        (λ e. (e.session_id == key) && p e)
        (keep_if (λ e. not (ltb e.created_at cutoff)) events)
      ≡ count_if (λ e. (e.session_id == key) && not (ltb e.created_at cutoff) && p e) events
count_if-recent cutoff key p [] = refl
count_if-recent cutoff key p (x ∷ events) = ground (arith, count_if-recent cutoff key p events)

-- Of a session whose row is older than the cutoff a prune keeps neither the row nor any event, be
-- the event ever so recent; of any other session it keeps the row and, for any test on events,
-- exactly as many as are not older than the cutoff.
pub expire_lem :
    (cutoff : Time) (key : String) (row : SessionRow) (p : Event → Bool) (t : Tables)
    → IsUnique t.sessions
    → lookup key t.sessions ≡ some row
    → let old = ltb row.created_at cutoff in
      (lookup key (expire cutoff t).sessions ≡ (if old then none else some row))
      × (count_if (λ e. (e.session_id == key) && p e) (expire cutoff t).events ≡ (
          if old
          then 0
          else count_if
              (λ e. (e.session_id == key) && not (ltb e.created_at cutoff) && p e)
              t.events))
unfolding delete_sessions delete_events_before
expire_lem cutoff key row p t u h = (
  lookup-keep_if (λ k r. ltb r.created_at cutoff) key t.sessions u ∙ rw h refl,
  count_if-cascade (λ k r. ltb r.created_at cutoff) t.sessions key row p _ h
      ∙ rw (count_if-recent cutoff key p t.events) refl,
)

insert_event-sessions :
    (evt : Event) (t t' : Tables) → insert_event evt t ≡ some t' → t.sessions ≡ t'.sessions
unfolding insert_event
insert_event-sessions evt t t' e = elim (Bool-cases (is_there (lookup evt.session_id t.sessions))) [
  | inl own ↦
      let same : record t {
        events = t.events ++ record evt { id = t.next_id } ∷ [];
        next_id = suc t.next_id;
      }
          ≡ t' =
        ground (arith, own, e) in
      ap (λ r. r.sessions) same
  | inr gone ↦ absurd (ground (arith, gone, e))
]

-- A session that is in use does not stay: when its row is older than the cutoff, AppendSession leaves
-- the row's time as it is, and the next prune deletes the session and every event of it, the ones
-- appended after that included, however recent they are.
pub expire-upsert_session :
    (cutoff now : Time) (key actor_id privacy : String) (row : SessionRow) (evt : Event)
    (p : Event → Bool) (t t' : Tables)
    → IsUnique t.sessions
    → lookup key t.sessions ≡ some row
    → row.created_at < cutoff
    → insert_event evt (upsert_session key actor_id privacy now t) ≡ some t'
    → (lookup key (expire cutoff t').sessions ≡ none)
      × (count_if (λ e. (e.session_id == key) && p e) (expire cutoff t').events ≡ 0)
unfolding upsert_session
expire-upsert_session cutoff now key actor_id privacy row evt p t t' u h old done =
    let kept : SessionRow = merged (some row) actor_id privacy now in
    let rows = insert key (merged (lookup key t.sessions) actor_id privacy now) t.sessions in
    let same : rows ≡ t'.sessions = insert_event-sessions evt _ t' done in
    let unique : IsUnique t'.sessions = subst IsUnique same (insert-IsUnique key _ t.sessions u) in
    let found : lookup key t'.sessions ≡ some kept =
      subst (λ m. lookup key m ≡ some kept) same
        (lookup-insert key key _ t.sessions ∙ ground (arith, h, eq_iff key key)) in
    let gone : ltb kept.created_at cutoff ≡ true = ground (arith, old) in
    let both = expire_lem cutoff key kept p t' unique found in
    (both.0 ∙ rw gone refl, both.1 ∙ rw gone refl)
