-- ===== src/Skills/World/Concurrency.antt =====
-- internal/skills/service/service.go: how many invocations run at once, and for whom they publish.
use loqa_core.Base.{
  ℕ, ◌≤◌, ◌≡◌, refl, sym, subst, Bool, not, Option, none, some, List, [], ◌∷◌, ◌==◌, Map, lookup,
  pos_part, length, ltb, take_at, All, All-map, All-take_at, All-append, arith, Bool-cases,
  Option-cases, inl, inr, String, length-take_at, if-same,
}
use loqa_core.Config.{SkillsConfig}
use Prim.Native.Nat.{max}
use loqa_core.Skills.Package.{Manifest}
use loqa_core.Skills.{Binding, load_skills, Host}
use loqa_core.Skills.Permissions.{
  IsAllowed, IsExtension, host_call-IsExtension, append_audit-IsExtension,
}
use loqa_core.Skills.World.{
  Service, Work, calls, audits, work, Action, message, acquire, works, release, closes,
  handle_message, take_place, do_work, give_place, close, step, run, Started, service, disabled,
  failed, positive_concurrency, register_subscriptions, subjects, subscribed, new_service,
}

-- The skill is one that was loaded.
abbrev pub IsLoaded : Map Binding → Binding → Type 0
IsLoaded skills binding = (name : String) × (lookup name skills ≡ some binding)

-- A loaded skill may publish the message.
abbrev pub IsPermitted : Map Binding → String × List ℕ → Type 0
IsPermitted skills sent = (binding : Binding) × IsLoaded skills binding × IsAllowed binding sent

pub record IsOrderly (skills : Map Binding) (places : ℕ) (s : Service) : Type 0 where
  pub same_skills : s.skills ≡ skills
  pub same_places : pos_part s.cfg.concurrency ≡ places
  pub few : length s.running ≤ places
  pub waiting_loaded : All (IsLoaded skills) s.waiting
  pub running_loaded : All (IsLoaded skills) s.running
  pub permitted : All (IsPermitted skills) s.host.published

handle_message-IsOrderly :
    (skills : Map Binding) (places : ℕ) (name : String) (s : Service)
    → IsOrderly skills places s
    → IsOrderly skills places (handle_message name s)
unfolding handle_message
handle_message-IsOrderly skills places name s h = elim (Bool-cases s.is_cancelled) [
  | inl e ↦ simp e h
  | inr e ↦ rw e (elim (Option-cases (lookup name s.skills)) [
    | inl gone ↦ rw gone h
    | inr (binding, there) ↦ rw there (record {
      same_skills = h.same_skills;
      same_places = h.same_places;
      few = h.few;
      waiting_loaded =
          ((name, subst (λ m. lookup name m ≡ some binding) h.same_skills there), h.waiting_loaded);
      running_loaded = h.running_loaded;
      permitted = h.permitted;
    })
  ])
]

take_place-IsOrderly :
    (skills : Map Binding) (places n : ℕ) (s : Service)
    → IsOrderly skills places s
    → IsOrderly skills places (take_place n s)
unfolding take_place
take_place-IsOrderly skills places n s h =
    elim (Bool-cases (ltb (length s.running) (pos_part s.cfg.concurrency))) [
      | inr full ↦ rw full h
      | inl free ↦ rw free (elim (Option-cases (take_at n s.waiting)) [
        | inl gone ↦ rw gone h
        | inr ((binding, others), there) ↦
            let all =
              All-take_at (IsLoaded skills) n s.waiting {x = binding} {rest = others} there
                h.waiting_loaded in
            rw there (record {
              same_skills = h.same_skills;
              same_places = h.same_places;
              few = ground (arith, free, h.same_places);
              waiting_loaded = all.1;
              running_loaded = (all.0, h.running_loaded);
              permitted = h.permitted;
            })
      ])
    ]

give_place-IsOrderly :
    (skills : Map Binding) (places n : ℕ) (s : Service)
    → IsOrderly skills places s
    → IsOrderly skills places (give_place n s)
unfolding give_place
give_place-IsOrderly skills places n s h = elim (Option-cases (take_at n s.running)) [
  | inl gone ↦ rw (give_place, gone) h
  | inr ((binding, others), there) ↦
      rw (give_place, there)
        (record {
          same_skills = h.same_skills;
          same_places = h.same_places;
          few =
              omega (arith, h.few, length-take_at n s.running {x = binding} {rest = others} there);
          waiting_loaded = h.waiting_loaded;
          running_loaded =
              (All-take_at (IsLoaded skills) n s.running {x = binding} {rest = others} there
                h.running_loaded).1;
          permitted = h.permitted;
        })
]

work-IsExtension :
    (cfg : SkillsConfig) (binding : Binding) (w : Work) (host : Host)
    → IsExtension binding host.published (work cfg binding w host).published
unfolding work
work-IsExtension cfg binding (calls c) host = host_call-IsExtension cfg binding c host
work-IsExtension cfg binding (audits type attempt) host =
    append_audit-IsExtension cfg binding type attempt host

do_work-IsOrderly :
    (skills : Map Binding) (places n : ℕ) (w : Work) (s : Service)
    → IsOrderly skills places s
    → IsOrderly skills places (do_work n w s)
unfolding do_work
do_work-IsOrderly skills places n w s h = elim (Option-cases (take_at n s.running)) [
  | inl gone ↦ rw (do_work, gone) h
  | inr ((binding, others), there) ↦
      let loaded =
        (All-take_at (IsLoaded skills) n s.running {x = binding} {rest = others} there
          h.running_loaded).0 in
      let (more, same, allowed) = work-IsExtension s.cfg binding w s.host in
      rw (do_work, there)
        (record {
          same_skills = h.same_skills;
          same_places = h.same_places;
          few = h.few;
          waiting_loaded = h.waiting_loaded;
          running_loaded = h.running_loaded;
          permitted = subst (All (IsPermitted skills)) (sym same) (
              All-append (IsPermitted skills) s.host.published more h.permitted
                (All-map (IsAllowed binding) _ more (λ sent ok. (binding, loaded, ok)) allowed));
        })
]

step-IsOrderly :
    (skills : Map Binding) (places : ℕ) (a : Action) (s : Service)
    → IsOrderly skills places s
    → IsOrderly skills places (step a s)
unfolding step close
step-IsOrderly skills places (message name) s h = handle_message-IsOrderly skills places name s h
step-IsOrderly skills places (acquire n) s h = take_place-IsOrderly skills places n s h
step-IsOrderly skills places (works n w) s h = do_work-IsOrderly skills places n w s h
step-IsOrderly skills places (release n) s h = give_place-IsOrderly skills places n s h
step-IsOrderly skills places closes s h = record {
  same_skills = h.same_skills;
  same_places = h.same_places;
  few = h.few;
  waiting_loaded = h.waiting_loaded;
  running_loaded = h.running_loaded;
  permitted = h.permitted;
}

run-IsOrderly :
    (skills : Map Binding) (places : ℕ) (actions : List Action) (s : Service)
    → IsOrderly skills places s
    → IsOrderly skills places (run actions s)
unfolding run
run-IsOrderly skills places [] s h = h
run-IsOrderly skills places (a ∷ actions) s h =
    run-IsOrderly skills places actions (step a s) (step-IsOrderly skills places a s h)

abbrev OnStarted : SkillsConfig → Started → Type 0
OnStarted cfg (service s) = IsOrderly s.skills (max 1 (pos_part cfg.concurrency)) s
OnStarted cfg disabled = Unit {0}
OnStarted cfg failed = Unit {0}

positive_concurrency_lem :
    (cfg : SkillsConfig)
    → pos_part (positive_concurrency cfg).concurrency ≡ max 1 (pos_part cfg.concurrency)
positive_concurrency_lem cfg = ground arith

subscribed-OnStarted :
    (cfg : SkillsConfig) (accepts : String → Bool) (host : Host) (skills : Map Binding)
    → host.published ≡ []
    → OnStarted cfg (subscribed cfg accepts host skills)
unfolding subscribed
subscribed-OnStarted cfg accepts host skills none_yet =
    elim (Option-cases (register_subscriptions accepts (subjects skills))) [
      | inl refused ↦ rw (subscribed, refused) tt
      | inr (subs, taken) ↦
          rw (subscribed, taken)
            (record {
              same_skills = refl;
              same_places = positive_concurrency_lem cfg;
              few = omega arith;
              waiting_loaded = tt;
              running_loaded = tt;
              permitted = rw none_yet tt;
            })
    ]

new_service-OnStarted :
    (cfg : SkillsConfig) (has_bus : Bool) (walk : Option (List (Option Manifest)))
    (accepts : String → Bool) (host : Host)
    → host.published ≡ []
    → OnStarted cfg (new_service cfg has_bus walk accepts host)
unfolding new_service
new_service-OnStarted cfg has_bus none accepts host none_yet = elim (Bool-cases (not cfg.enabled)) [
  | inl off ↦ rw off tt
  | inr on ↦ rw (on, if-same (cfg.directory == ""), if-same (not has_bus)) tt
]
new_service-OnStarted cfg has_bus (some files) accepts host none_yet =
    elim (Bool-cases (not cfg.enabled)) [
      | inl off ↦ rw off tt
      | inr on ↦ rw on (elim (Bool-cases (not has_bus)) [
        | inl alone ↦ rw alone tt
        | inr wired ↦ rw wired (elim (Bool-cases (cfg.directory == "")) [
          | inl nowhere ↦ rw nowhere tt
          | inr somewhere ↦
              rw somewhere (subscribed-OnStarted cfg accepts host (load_skills files []) none_yet)
        ])
      ])
    ]

-- In every run of a skills service that has published nothing when it starts, at most as many
-- invocations run at once as the settings say, or one where they say none, and each message that
-- has been published is one that the manifest of some loaded skill allows.
pub reached_orderly :
    (cfg : SkillsConfig) (has_bus : Bool) (walk : Option (List (Option Manifest)))
    (accepts : String → Bool) (host : Host) (s : Service) (actions : List Action)
    → host.published ≡ []
    → new_service cfg has_bus walk accepts host ≡ service s
    → let u = run actions s in
      (length u.running ≤ max 1 (pos_part cfg.concurrency))
      × All (IsPermitted s.skills) u.host.published
reached_orderly cfg has_bus walk accepts host s actions none_yet e =
    let h =
      run-IsOrderly s.skills (max 1 (pos_part cfg.concurrency)) actions s
        (subst (OnStarted cfg) e (new_service-OnStarted cfg has_bus walk accepts host none_yet)) in
    (h.few, h.permitted)
