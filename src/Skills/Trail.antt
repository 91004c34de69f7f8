-- ===== src/Skills/Trail.antt =====
-- internal/skills/service/service.go, invoke: the trail that an invocation leaves in the event store.
use loqa_core.Base.{
  ℕ, ◌≡◌, refl, String, Bool, true, false, none, some, List, [], ◌∷◌, ◌++◌, All, arith, Bool-cases,
  Option-cases, inl, inr, length-append-one,
}
use loqa_core.Config.{SkillsConfig, EventStoreConfig}
use loqa_core.EventStore.{is_ephemeral}
use loqa_core.Skills.{
  Binding, Host, Attempt, append_audit, allow_publish, PublishCall, read_payload, host_publish,
  host_log, HostCall, publishes, logs, host_call, host_calls, invoke,
}
use loqa_core.Skills.Audit.{IsWorking, IsAudited, append_audit-IsAudited, other-IsAudited}

-- Every attempt of a call works.
abbrev pub CallWorks : HostCall → Type 0
CallWorks (publishes call attempt) = IsWorking attempt
CallWorks (logs message attempt) = IsWorking attempt

-- A call of host_publish changes nothing, or publishes one message and audits it.
host_publish-cases {ℓ} :
    (P : Host → Type ℓ) (cfg : SkillsConfig) (binding : Binding) (call : PublishCall)
    (attempt : Attempt) (h : Host)
    → P h
    → ((message : String × List ℕ)
        → P (
            append_audit cfg binding "skill.publish" attempt
              (record h { published = h.published ++ message ∷ [] })))
    → P (host_publish cfg binding call attempt h).0
unfolding host_publish
host_publish-cases P cfg binding call attempt h same sent = elim (Option-cases call.subject) [
  | inl gone ↦ rw gone same
  | inr (subject, there) ↦ rw there (elim (Bool-cases (allow_publish binding subject)) [
    | inr refused ↦ rw refused same
    | inl allowed ↦ rw allowed (elim (Option-cases (read_payload call)) [
      | inl unread ↦ rw unread same
      | inr (payload, read) ↦ rw read (elim (Bool-cases call.accepted) [
        | inl taken ↦ rw taken (sent (subject, payload))
        | inr lost ↦ rw lost same
      ])
    ])
  ])
]

host_publish-IsAudited :
    (cfg : SkillsConfig) (binding : Binding) (call : PublishCall) (attempt : Attempt)
    (ecfg : EventStoreConfig) (n : ℕ) (h : Host)
    → is_ephemeral ecfg ≡ false
    → IsWorking attempt
    → IsAudited ecfg n h
    → IsAudited ecfg n (host_publish cfg binding call attempt h).0
host_publish-IsAudited cfg binding call attempt ecfg n h kept w (t, there, balance) =
    host_publish-cases (IsAudited ecfg n) cfg binding call attempt h (t, there, balance)
      (λ message.
        append_audit-IsAudited cfg binding "skill.publish" attempt ecfg n
          (record h { published = h.published ++ message ∷ [] }) kept w
          (t, there, omega (arith, balance, length-append-one h.published message)))

host_call-IsAudited :
    (cfg : SkillsConfig) (binding : Binding) (c : HostCall) (ecfg : EventStoreConfig) (n : ℕ)
    (h : Host)
    → is_ephemeral ecfg ≡ false
    → CallWorks c
    → IsAudited ecfg n h
    → IsAudited ecfg n (host_call cfg binding c h)
unfolding host_call host_log
host_call-IsAudited cfg binding (publishes call attempt) ecfg n h kept w a =
    host_publish-IsAudited cfg binding call attempt ecfg n h kept w a
host_call-IsAudited cfg binding (logs none attempt) ecfg n h kept w a = a
host_call-IsAudited cfg binding (logs (some message) attempt) ecfg n h kept w a =
    other-IsAudited cfg binding "skill.log" attempt ecfg n h refl kept w a

host_calls-IsAudited :
    (cfg : SkillsConfig) (binding : Binding) (calls : List HostCall) (ecfg : EventStoreConfig)
    (n : ℕ) (h : Host)
    → is_ephemeral ecfg ≡ false
    → All CallWorks calls
    → IsAudited ecfg n h
    → IsAudited ecfg n (host_calls cfg binding calls h)
unfolding host_calls
host_calls-IsAudited cfg binding [] ecfg n h kept w a = a
host_calls-IsAudited cfg binding (c ∷ calls) ecfg n h kept w a =
    host_calls-IsAudited cfg binding calls ecfg n (host_call cfg binding c h) kept w.1
      (host_call-IsAudited cfg binding c ecfg n h kept w.0 a)

-- While the database works and the store keeps events, an invocation adds to the store one event
-- skill.publish for each message that it publishes, whatever the skill does and however the
-- invocation ends: how many messages there are above such events stays as it was.
pub invoke-IsAudited :
    (cfg : SkillsConfig) (binding : Binding) (starts : Bool) (early : List HostCall) (loads : Bool)
    (calls : List HostCall) (completes : Bool) (first last : Attempt) (ecfg : EventStoreConfig)
    (n : ℕ) (h : Host)
    → is_ephemeral ecfg ≡ false
    → All CallWorks early
    → All CallWorks calls
    → IsWorking first
    → IsWorking last
    → IsAudited ecfg n h
    → IsAudited ecfg n (invoke cfg binding starts early loads calls completes first last h).0
unfolding invoke
invoke-IsAudited cfg binding false early loads calls completes first last ecfg n h kept w w' f l a =
    a
invoke-IsAudited cfg binding true early false calls completes first last ecfg n h kept w w' f l a =
    host_calls-IsAudited cfg binding early ecfg n h kept w a
invoke-IsAudited cfg binding true early true calls true first last ecfg n h kept w w' f l a =
    other-IsAudited cfg binding "skill.invoke.complete" last ecfg n _ refl kept l (
      host_calls-IsAudited cfg binding calls ecfg n _ kept w' (
        other-IsAudited cfg binding "skill.invoke.start" first ecfg n _ refl kept f
          (host_calls-IsAudited cfg binding early ecfg n h kept w a)))
invoke-IsAudited cfg binding true early true calls false first last ecfg n h kept w w' f l a =
    other-IsAudited cfg binding "skill.invoke.error" last ecfg n _ refl kept l (
      host_calls-IsAudited cfg binding calls ecfg n _ kept w' (
        other-IsAudited cfg binding "skill.invoke.start" first ecfg n _ refl kept f
          (host_calls-IsAudited cfg binding early ecfg n h kept w a)))
