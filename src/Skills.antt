-- ===== src/Skills.antt =====
-- internal/skills: the host of WebAssembly skills. Package is manifest/manifest.go; this file is
-- service/service.go and the host functions of runtime/runtime.go. What wazero and the code that it
-- runs do is an argument: the calls that a skill makes, and whether its run fails.
pub mod Package
pub mod Loading
pub mod Permissions
pub mod Audit
pub mod Trail
pub mod World
pub mod Modules
pub mod Guests
pub mod Allowed
mod Examples
use loqa_core.Base.{
  ℕ, zero, suc, ◌+◌, String, append_text, ◌==◌, Bool, true, false, not, ◌&&◌, ◌||◌, Option, none,
  some, List, [], ◌∷◌, ◌++◌, Map, lookup, insert, Time, zero_time, eqb, if◌then◌else◌,
}
use loqa_core.Config.{SkillsConfig}
use loqa_core.EventStore.{Event, Store, append_session, append_event}
use loqa_core.Skills.Package.{Manifest, validate}

-- The sets of the code are lists here, asked with `has`; the paths are left out.
pub record Binding : Type 0 where
  pub manifest : Manifest
  pub publish_set : List String
  pub subscribe_list : List String
  pub permissions : List String
  pub session_id : String

abbrev pub has : String → List String → Bool
has wanted [] = false
has wanted (name ∷ names) = (name == wanted) || has wanted names

abbrev pub binding_of : Manifest → Binding
binding_of m = record {
  manifest = m;
  publish_set = m.capabilities.bus.publish;
  subscribe_list = m.capabilities.bus.subscribe;
  permissions = m.permissions;
  session_id = append_text "skill:" m.metadata.name;
}

-- A file skill.yaml: what it decodes to, if it does. The flag of the result is whether there was no
-- error.
unfoldable pub add_skill : Option Manifest → Map Binding → Map Binding × Bool
add_skill none skills = (skills, false)
add_skill (some m) skills = elim (validate m) [
  | some message ↦ (skills, false)
  | none ↦ if m.metadata.name == "" then (skills, false) else elim (lookup m.metadata.name skills) [
    | some other ↦ (skills, false)
    | none ↦ (insert m.metadata.name (binding_of m) skills, true)
  ]
]

-- The files in the order of the walk; a skill that fails to load is passed over.
unfoldable pub load_skills : List (Option Manifest) → Map Binding → Map Binding
load_skills [] skills = skills
load_skills (file ∷ files) skills = load_skills files (add_skill file skills).0

-- What an invocation works on: the store, `none` for nil, and what was published, the oldest first.
pub record Host : Type 0 where
  pub store : Option Store
  pub published : List (String × List ℕ)

-- How the attempts of one audit event go: the clock, whether the database works for each statement,
-- and what its values are encoded to, if they are.
pub record Attempt : Type 0 where
  pub now : Time
  pub session_works : Bool
  pub event_works : Bool
  pub encoded : Option (List ℕ)

abbrev pub audit_event : SkillsConfig → Binding → String → List ℕ → Event
audit_event cfg binding type encoded = record {
  id = 0;
  session_id = binding.session_id;
  trace_id = "";
  actor_id = binding.manifest.metadata.name;
  type = type;
  payload = encoded;
  privacy = cfg.audit_privacy;
  created_at = zero_time;
}

-- The audit of a store that is not nil.
unfoldable pub audit_store : SkillsConfig → Binding → String → Attempt → Store → Store
audit_store cfg binding type attempt s =
    let noted =
      (append_session attempt.session_works attempt.now binding.session_id
        binding.manifest.metadata.name cfg.audit_privacy s).0 in
    elim attempt.encoded [
      | none ↦ noted
      | some encoded ↦
          (append_event attempt.event_works attempt.now (audit_event cfg binding type encoded)
            noted).0
    ]

unfoldable pub append_audit : SkillsConfig → Binding → String → Attempt → Host → Host
append_audit cfg binding type attempt h = elim h.store [
  | none ↦ h
  | some s ↦ record h { store = some (audit_store cfg binding type attempt s) }
]

unfoldable pub allow_publish : Binding → String → Bool
allow_publish binding subject =
    has "bus:publish" binding.permissions && has subject binding.publish_set

abbrev pub publish_ok : ℕ
publish_ok = 0

abbrev pub publish_err_not_allowed : ℕ
publish_err_not_allowed = 1

abbrev pub publish_err_runtime : ℕ
publish_err_runtime = 2

-- What a call of host_publish finds: the text at the subject's place and the bytes at the payload's,
-- if these are in the module's memory, and whether the bus takes the message. An empty payload is
-- not read.
pub record PublishCall : Type 0 where
  pub subject : Option String
  pub payload_len : ℕ
  pub payload : Option (List ℕ)
  pub accepted : Bool

abbrev pub read_payload : PublishCall → Option (List ℕ)
read_payload call = if eqb call.payload_len 0 then some [] else call.payload

unfoldable pub host_publish : SkillsConfig → Binding → PublishCall → Attempt → Host → Host × ℕ
host_publish cfg binding call attempt h = elim call.subject [
  | none ↦ (h, publish_err_runtime)
  | some subject ↦
      if not (allow_publish binding subject)
      then (h, publish_err_not_allowed)
      else elim (read_payload call) [
        | none ↦ (h, publish_err_runtime)
        | some payload ↦
            if call.accepted
            then (
              append_audit cfg binding "skill.publish" attempt
                  (record h { published = h.published ++ (subject, payload) ∷ [] }),
              publish_ok,
            )
            else (h, publish_err_runtime)
      ]
]

-- A message of length 0, or one that is not in the memory, is passed over.
unfoldable pub host_log : SkillsConfig → Binding → Option String → Attempt → Host → Host
host_log cfg binding none attempt h = h
host_log cfg binding (some message) attempt h = append_audit cfg binding "skill.log" attempt h

-- What a skill does while it runs.
pub data HostCall : Type 0 where
  publishes : PublishCall → Attempt → HostCall
  logs : Option String → Attempt → HostCall

unfoldable pub host_call : SkillsConfig → Binding → HostCall → Host → Host
host_call cfg binding (publishes call attempt) h = (host_publish cfg binding call attempt h).0
host_call cfg binding (logs message attempt) h = host_log cfg binding message attempt h

unfoldable pub host_calls : SkillsConfig → Binding → List HostCall → Host → Host
host_calls cfg binding [] h = h
host_calls cfg binding (c ∷ calls) h = host_calls cfg binding calls (host_call cfg binding c h)

-- `invoke`: whether the runtime starts, the calls that the module makes while it is instantiated,
-- whether it loads, and the calls of its entrypoint and whether that ends well.
unfoldable pub invoke :
    SkillsConfig
    → Binding
    → Bool
    → List HostCall
    → Bool
    → List HostCall
    → Bool
    → Attempt
    → Attempt
    → Host
    → Host × Bool
invoke cfg binding starts early loads calls completes first last h =
    if not starts
    then (h, false)
    else let begun = host_calls cfg binding early h in
      if not loads
      then (begun, false)
      else let ended =
          host_calls cfg binding calls
            (append_audit cfg binding "skill.invoke.start" first begun) in
        if completes
        then (append_audit cfg binding "skill.invoke.complete" last ended, true)
        else (append_audit cfg binding "skill.invoke.error" last ended, false)
