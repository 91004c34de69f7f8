-- ===== src/Skills/World.antt =====
-- internal/skills/service/service.go: New, registerSubscriptions, makeHandler and Close. A message
-- starts a goroutine, which takes a place of the semaphore, works for its skill, and gives the place
-- back; each step of the machine is one of these, of one goroutine.
pub mod Concurrency
use loqa_core.Base.{
  ℕ, suc, ◌+◌, String, Bool, true, false, not, ◌&&◌, Option, none, some, List, [], ◌∷◌, ◌++◌, Map,
  lookup, ℤ, pos, pos_part, int_leb, length, ltb, take_at, ◌==◌, if◌then◌else◌,
}
use loqa_core.Bus.{Subscription, live, drain}
use loqa_core.Config.{SkillsConfig}
use loqa_core.Skills.Package.{Manifest}
use loqa_core.Skills.{Binding, load_skills, Host, HostCall, host_call, Attempt, append_audit}

-- `waiting` are the goroutines before the semaphore, `running` those that have a place.
pub record Service : Type 0 where
  pub cfg : SkillsConfig
  pub skills : Map Binding
  pub subs : List Subscription
  pub healthy : Bool
  pub is_cancelled : Bool
  pub waiting : List Binding
  pub running : List Binding
  pub host : Host

-- A service, nil without an error, or an error.
pub data Started : Type 0 where
  service : Service → Started
  disabled : Started
  failed : Started

abbrev pub positive_concurrency : SkillsConfig → SkillsConfig
positive_concurrency cfg = record cfg {
  concurrency = if int_leb cfg.concurrency (pos 0) then pos 1 else cfg.concurrency;
}

-- The subjects of all skills, in the order in which the map is walked.
abbrev pub subjects : Map Binding → List String
subjects [] = []
subjects ((name, binding) ∷ skills) = binding.subscribe_list ++ subjects skills

-- One subscription after the other, until the bus refuses one; `none` is an error.
unfoldable pub register_subscriptions : (String → Bool) → List String → Option (List Subscription)
register_subscriptions accepts [] = some []
register_subscriptions accepts (subject ∷ rest) =
    let later = register_subscriptions accepts rest in
    if accepts subject then elim later [ none ↦ none | some subs ↦ some (live ∷ subs) ] else none

-- The service with its skills, if the bus takes every subscription.
unfoldable pub subscribed : SkillsConfig → (String → Bool) → Host → Map Binding → Started
subscribed cfg accepts host skills = elim (register_subscriptions accepts (subjects skills)) [
  | none ↦ failed
  | some subs ↦ service (record {
    cfg = positive_concurrency cfg;
    skills = skills;
    subs = subs;
    healthy = true;
    is_cancelled = false;
    waiting = [];
    running = [];
    host = host;
  })
]

-- The walk of the directory gives the files, or an error.
unfoldable pub new_service :
    SkillsConfig → Bool → Option (List (Option Manifest)) → (String → Bool) → Host → Started
new_service cfg has_bus walk accepts host =
    if not cfg.enabled
    then disabled
    else if not has_bus
    then failed
    else if cfg.directory == ""
    then failed
    else elim walk [
      | none ↦ failed
      | some files ↦ subscribed cfg accepts host (load_skills files [])
    ]

-- `Close` up to its wait for the goroutines. It leaves `healthy` as it is.
unfoldable pub close : Service → Service
close s = record s { is_cancelled = true; subs = [] }

-- What a goroutine that has its place does: a call of its skill, or an audit of the invocation.
pub data Work : Type 0 where
  calls : HostCall → Work
  audits : String → Attempt → Work

unfoldable pub work : SkillsConfig → Binding → Work → Host → Host
work cfg binding (calls c) host = host_call cfg binding c host
work cfg binding (audits type attempt) host = append_audit cfg binding type attempt host

pub data Action : Type 0 where
  message : String → Action
  acquire : ℕ → Action
  works : ℕ → Work → Action
  release : ℕ → Action
  closes : Action

-- The handler of a skill's subscription.
unfoldable pub handle_message : String → Service → Service
handle_message name s = if s.is_cancelled then s else elim (lookup name s.skills) [
  | none ↦ s
  | some binding ↦ record s { waiting = binding ∷ s.waiting }
]

-- The channel holds as many as its capacity.
unfoldable pub take_place : ℕ → Service → Service
take_place n s =
    if ltb (length s.running) (pos_part s.cfg.concurrency)
    then elim (take_at n s.waiting) [
      | none ↦ s
      | some (binding, others) ↦ record s { waiting = others; running = binding ∷ s.running }
    ]
    else s

unfoldable pub do_work : ℕ → Work → Service → Service
do_work n w s = elim (take_at n s.running) [
  | none ↦ s
  | some (binding, others) ↦ record s { host = work s.cfg binding w s.host }
]

unfoldable pub give_place : ℕ → Service → Service
give_place n s = elim (take_at n s.running) [
  | none ↦ s
  | some (binding, others) ↦ record s { running = others }
]

unfoldable pub step : Action → Service → Service
step (message name) s = handle_message name s
step (acquire n) s = take_place n s
step (works n w) s = do_work n w s
step (release n) s = give_place n s
step closes s = close s

unfoldable pub run : List Action → Service → Service
run [] s = s
run (a ∷ actions) s = run actions (step a s)
