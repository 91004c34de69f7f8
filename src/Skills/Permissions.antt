-- ===== src/Skills/Permissions.antt =====
-- internal/skills/service/service.go and runtime/runtime.go: what a skill can publish.
use loqa_core.Base.{
  ℕ, ◌≡◌, ◌≢◌, some-eq, refl, sym, ap, ◌∙◌, subst, String, Bool, true, false, none, some, List, [],
  ◌∷◌, ◌++◌, All, arith, eqb, Bool-cases, Option-cases, inl, inr, append_nil, append_assoc,
  All-append,
}
use loqa_core.Config.{SkillsConfig}
use loqa_core.Skills.{
  Binding, has, Host, Attempt, append_audit, allow_publish, PublishCall, read_payload, host_publish,
  host_log, HostCall, publishes, logs, host_call, host_calls, invoke, publish_ok,
  publish_err_not_allowed,
}

-- The manifest declares the subject, and the permission to publish.
abbrev pub IsAllowed : Binding → String × List ℕ → Type 0
IsAllowed binding message =
    (has "bus:publish" binding.permissions ≡ true) × (has message.0 binding.publish_set ≡ true)

-- The host has published more than before, and nothing of it was forbidden.
abbrev pub IsExtension : Binding → List (String × List ℕ) → List (String × List ℕ) → Type 0
IsExtension binding before after =
    (more : List (String × List ℕ)) × (after ≡ before ++ more) × All (IsAllowed binding) more

IsExtension-refl : (binding : Binding) (xs : List (String × List ℕ)) → IsExtension binding xs xs
IsExtension-refl binding xs = ([], sym (append_nil xs), tt)

IsExtension-trans :
    (binding : Binding) (xs ys zs : List (String × List ℕ))
    → IsExtension binding xs ys
    → IsExtension binding ys zs
    → IsExtension binding xs zs
IsExtension-trans binding xs ys zs (more, e, h) (later, f, k) = (
  more ++ later,
  f ∙ ap (λ ms. ms ++ later) e ∙ append_assoc xs more later,
  All-append _ more later h k,
)

pub published-append_audit :
    (cfg : SkillsConfig) (binding : Binding) (type : String) (attempt : Attempt) (h : Host)
    → (append_audit cfg binding type attempt h).published ≡ h.published
unfolding append_audit
published-append_audit cfg binding type attempt h = elim (Option-cases h.store) [
  | inl e ↦ rw e refl
  | inr (s, e) ↦ rw e refl
]

-- A call of host_publish tells the skill what became of it: exactly if it answers 0, one message
-- goes out, and then its subject is one that the manifest allows, and its payload the one in the
-- skill's memory; a subject in the memory that the manifest does not allow gets the answer 1.
pub host_publish_lem :
    (cfg : SkillsConfig) (binding : Binding) (call : PublishCall) (attempt : Attempt) (h : Host)
    → let result = host_publish cfg binding call attempt h in
      (result.1 ≡ publish_ok
        → (subject : String) × (payload : List ℕ) × (call.subject ≡ some subject)
          × (read_payload call ≡ some payload)
          × (allow_publish binding subject ≡ true)
          × (result.0.published ≡ h.published ++ (subject, payload) ∷ []))
      × (result.1 ≢ publish_ok → result.0 ≡ h)
      × ((subject : String)
          → call.subject ≡ some subject
          → allow_publish binding subject ≡ false
          → result.1 ≡ publish_err_not_allowed)
unfolding host_publish
host_publish_lem cfg binding call attempt h = elim (Option-cases call.subject) [
  | inl gone ↦
      rw gone (λ e. absurd (ground (arith, e)), λ n. refl, λ s e. absurd (ground (arith, e)))
  | inr (subject, there) ↦ rw there (elim (Bool-cases (allow_publish binding subject)) [
    | inr refused ↦ rw refused (λ e. absurd (ground (arith, e)), λ n. refl, λ s e f. refl)
    | inl allowed ↦ rw allowed (elim (Option-cases (read_payload call)) [
      | inl unread ↦ rw unread (
        λ e. absurd (ground (arith, e)),
        λ n. refl,
        λ s e f. absurd (ground (arith, clash subject s allowed e f)),
      )
      | inr (payload, read) ↦ rw read (elim (Bool-cases call.accepted) [
        | inl taken ↦ rw taken (
          λ e. (
            subject,
            payload,
            refl,
            refl,
            allowed,
            published-append_audit cfg binding "skill.publish" attempt _,
          ),
          λ n. absurd (n refl),
          λ s e f. absurd (ground (arith, clash subject s allowed e f)),
        )
        | inr lost ↦ rw lost (
          λ e. absurd (ground (arith, e)),
          λ n. refl,
          λ s e f. absurd (ground (arith, clash subject s allowed e f)),
        )
      ])
    ])
  ])
]
  where
    clash :
        (one other : String)
        → allow_publish binding one ≡ true
        → some one ≡ some other
        → allow_publish binding other ≡ false
        → true ≡ false
    clash one other allowed same refused =
        sym allowed ∙ ap (allow_publish binding) (some-eq same) ∙ refused

allow_publish-IsAllowed :
    (binding : Binding) (message : String × List ℕ)
    → allow_publish binding message.0 ≡ true
    → IsAllowed binding message
unfolding allow_publish
allow_publish-IsAllowed binding message h = (ground (arith, h), ground (arith, h))

host_publish-IsExtension :
    (cfg : SkillsConfig) (binding : Binding) (call : PublishCall) (attempt : Attempt) (h : Host)
    → IsExtension binding h.published (host_publish cfg binding call attempt h).0.published
host_publish-IsExtension cfg binding call attempt h =
    let told = host_publish_lem cfg binding call attempt h in
    elim (Bool-cases (eqb (host_publish cfg binding call attempt h).1 publish_ok)) [
      | inl ok ↦
          let (subject, payload, there, read, allowed, sent) = told.0 (ground (arith, ok)) in
          (
            (subject, payload) ∷ [],
            sent,
            (allow_publish-IsAllowed binding (subject, payload) allowed, tt),
          )
      | inr failed ↦
          subst (λ (r : Host). IsExtension binding h.published r.published)
            (sym (told.1 (λ e. ground (arith, e, failed)))) (IsExtension-refl binding h.published)
    ]

pub append_audit-IsExtension :
    (cfg : SkillsConfig) (binding : Binding) (type : String) (attempt : Attempt) (h : Host)
    → IsExtension binding h.published (append_audit cfg binding type attempt h).published
append_audit-IsExtension cfg binding type attempt h =
    subst (IsExtension binding h.published)
      (sym (published-append_audit cfg binding type attempt h))
      (IsExtension-refl binding h.published)

pub host_call-IsExtension :
    (cfg : SkillsConfig) (binding : Binding) (c : HostCall) (h : Host)
    → IsExtension binding h.published (host_call cfg binding c h).published
unfolding host_call host_log
host_call-IsExtension cfg binding (publishes call attempt) h =
    host_publish-IsExtension cfg binding call attempt h
host_call-IsExtension cfg binding (logs none attempt) h = IsExtension-refl binding h.published
host_call-IsExtension cfg binding (logs (some message) attempt) h =
    append_audit-IsExtension cfg binding "skill.log" attempt h

host_calls-IsExtension :
    (cfg : SkillsConfig) (binding : Binding) (calls : List HostCall) (h : Host)
    → IsExtension binding h.published (host_calls cfg binding calls h).published
unfolding host_calls
host_calls-IsExtension cfg binding [] h = IsExtension-refl binding h.published
host_calls-IsExtension cfg binding (c ∷ calls) h =
    IsExtension-trans binding _ _ _ (host_call-IsExtension cfg binding c h)
      (host_calls-IsExtension cfg binding calls (host_call cfg binding c h))

until_end :
    (cfg : SkillsConfig) (binding : Binding) (early calls : List HostCall) (type : String)
    (first last : Attempt) (h : Host)
    → IsExtension binding h.published
        (append_audit cfg binding type last (
          host_calls cfg binding calls (
            append_audit cfg binding "skill.invoke.start" first
              (host_calls cfg binding early h)))).published
until_end cfg binding early calls type first last h =
    let begun = host_calls cfg binding early h in
    let started = append_audit cfg binding "skill.invoke.start" first begun in
    IsExtension-trans binding _ _ _ (host_calls-IsExtension cfg binding early h) (
      IsExtension-trans binding _ _ _
        (append_audit-IsExtension cfg binding "skill.invoke.start" first begun)
        (IsExtension-trans binding _ _ _ (host_calls-IsExtension cfg binding calls started)
          (append_audit-IsExtension cfg binding type last (host_calls cfg binding calls started))))

-- Whatever a skill does in an invocation, while it is loaded and while it runs, and however the
-- invocation ends, the messages that it adds to those published have subjects that its manifest
-- declares, and there are none if the manifest does not ask for the permission to publish.
pub invoke-IsExtension :
    (cfg : SkillsConfig) (binding : Binding) (starts : Bool) (early : List HostCall) (loads : Bool)
    (calls : List HostCall) (completes : Bool) (first last : Attempt) (h : Host)
    → IsExtension binding h.published
        (invoke cfg binding starts early loads calls completes first last h).0.published
unfolding invoke
invoke-IsExtension cfg binding false early loads calls completes first last h =
    IsExtension-refl binding h.published
invoke-IsExtension cfg binding true early false calls completes first last h =
    host_calls-IsExtension cfg binding early h
invoke-IsExtension cfg binding true early true calls true first last h =
    until_end cfg binding early calls "skill.invoke.complete" first last h
invoke-IsExtension cfg binding true early true calls false first last h =
    until_end cfg binding early calls "skill.invoke.error" first last h
