-- ===== src/Skills/Audit.antt =====
-- internal/skills/service/service.go, appendAudit, on internal/eventstore/store.go: one
-- event of the trail.
use loqa_core.Base.{
  ℕ, suc, ◌+◌, ◌≡◌, refl, ap, ◌∙◌, String, ◌==◌, eq_iff, Bool, true, false, Option, some, List, [],
  ◌∷◌, ◌++◌, length, count_if, lookup, lookup-insert, Time, arith, if◌then◌else◌,
  count_if-append-one,
}
use loqa_core.Config.{SkillsConfig, EventStoreConfig}
use loqa_core.EventStore.{
  Event, Tables, Store, is_there, is_ephemeral, merged, upsert_session, insert_event, on_tables,
  append_session, append_event, dated,
}
use loqa_core.Skills.Permissions.{published-append_audit}
use loqa_core.Skills.{Binding, Host, Attempt, audit_event, audit_store, append_audit}

-- An attempt at which the database works, and the event's values are encoded.
abbrev pub working : Time → List ℕ → Attempt
working now bytes = record {
  now = now;
  session_works = true;
  event_works = true;
  encoded = some bytes;
}

abbrev pub IsWorking : Attempt → Type 0
IsWorking attempt = (now : Time) × (bytes : List ℕ) × (attempt ≡ working now bytes)

abbrev pub with_tables : EventStoreConfig → Tables → Store
with_tables ecfg t = record { cfg = ecfg; db = some t }

insert_event-there :
    (evt : Event) (t : Tables)
    → is_there (lookup evt.session_id t.sessions) ≡ true
    → (t' : Tables) × (insert_event evt t ≡ some t')
      × (t'.events ≡ t.events ++ record evt { id = t.next_id } ∷ [])
unfolding insert_event
insert_event-there evt t own = (
  record t { events = t.events ++ record evt { id = t.next_id } ∷ []; next_id = suc t.next_id },
  rw own refl,
  refl,
)

on_tables-works :
    (ecfg : EventStoreConfig) (statement : Tables → Option Tables) (t t' : Tables)
    → is_ephemeral ecfg ≡ false
    → statement t ≡ some t'
    → on_tables true statement (with_tables ecfg t) ≡ (with_tables ecfg t', true)
unfolding on_tables
on_tables-works ecfg statement t t' kept does = rw (kept, does) refl

-- While the database of a store that is not ephemeral works, an audit event is never refused, as
-- AppendSession makes the row that the event's foreign key asks for: the event stands at the end
-- of the timeline, with the next id and the time of the clock.
pub audit_store_lem :
    (cfg : SkillsConfig) (binding : Binding) (type : String) (now : Time) (bytes : List ℕ)
    (ecfg : EventStoreConfig) (t : Tables)
    → is_ephemeral ecfg ≡ false
    → (t' : Tables) × (audit_store cfg binding type (working now bytes) (with_tables ecfg t)
        ≡ with_tables ecfg t')
      × (t'.events
          ≡ t.events
            ++ record (audit_event cfg binding type bytes) { id = t.next_id; created_at = now }
              ∷ [])
unfolding audit_store append_session append_event upsert_session
audit_store_lem cfg binding type now bytes ecfg t kept =
    let name = binding.manifest.metadata.name in
    let noted = upsert_session binding.session_id name cfg.audit_privacy now t in
    let evt = dated (audit_event cfg binding type bytes) now in
    let own : is_there (lookup binding.session_id noted.sessions) ≡ true =
      rw
        (lookup-insert binding.session_id binding.session_id
          (merged (lookup binding.session_id t.sessions) name cfg.audit_privacy now) t.sessions)
        (ground (arith, eq_iff binding.session_id binding.session_id)) in
    let (t', does, there) = insert_event-there evt noted own in
    (
      t',
      ap (λ s. (append_event true now (audit_event cfg binding type bytes) s).0)
            (ap (λ r. r.0)
              (on_tables-works ecfg
                (λ r. some (upsert_session binding.session_id name cfg.audit_privacy now r)) t noted
                kept refl))
          ∙ ap (λ r. r.0) (on_tables-works ecfg (insert_event evt) noted t' kept does),
      there,
    )

abbrev pub is_publish_audit : Event → Bool
is_publish_audit e = e.type == "skill.publish"

-- The store keeps events, and there are `n` messages more than audits of them.
abbrev pub IsAudited : EventStoreConfig → ℕ → Host → Type 0
IsAudited ecfg n h =
    (t : Tables) × (h.store ≡ some (with_tables ecfg t))
    × (length h.published ≡ count_if is_publish_audit t.events + n)

-- One audit, where `fresh` messages have been published since the last.
pub append_audit-IsAudited :
    (cfg : SkillsConfig) (binding : Binding) (type : String) (attempt : Attempt)
    (ecfg : EventStoreConfig) (n : ℕ) (h : Host)
    → is_ephemeral ecfg ≡ false
    → IsWorking attempt
    → IsAudited ecfg ((if type == "skill.publish" then 1 else 0) + n) h
    → IsAudited ecfg n (append_audit cfg binding type attempt h)
unfolding append_audit
append_audit-IsAudited cfg binding type attempt ecfg n h kept (now, bytes, same)
      (t, there, balance) =
    let (t', does, events) = audit_store_lem cfg binding type now bytes ecfg t kept in
    let evt : Event = record (audit_event cfg binding type bytes) {
      id = t.next_id;
      created_at = now;
    } in
    (
      t',
      rw (there, same) (ap some does),
      ap length (published-append_audit cfg binding type attempt h)
          ∙ ground (
            arith,
            balance,
            ap (count_if is_publish_audit) events
                ∙ count_if-append-one is_publish_audit t.events evt,
          ),
    )

-- An audit of anything else.
pub other-IsAudited :
    (cfg : SkillsConfig) (binding : Binding) (type : String) (attempt : Attempt)
    (ecfg : EventStoreConfig) (n : ℕ) (h : Host)
    → (type == "skill.publish") ≡ false
    → is_ephemeral ecfg ≡ false
    → IsWorking attempt
    → IsAudited ecfg n h
    → IsAudited ecfg n (append_audit cfg binding type attempt h)
other-IsAudited cfg binding type attempt ecfg n h other kept w (t, there, balance) =
    append_audit-IsAudited cfg binding type attempt ecfg n h kept w
      (t, there, rw other (omega (arith, balance)))
