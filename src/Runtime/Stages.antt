-- ===== src/Runtime/Stages.antt =====
-- internal/runtime/runtime.go, Start: telemetry, bus, registry, store and skills start.
use loqa_core.Base.{
  ◌≡◌, ◌≢◌, refl, sym, subst, Bool, true, not, Bool-cases, inl, inr, none, some, arith, String,
  ◌==◌, List, [], ◌∷◌, Map, Option-cases, if_all, eq_iff,
}
use loqa_core.Config.{Config, NodeConfig, BusConfig, EventStoreConfig, SkillsConfig}
use loqa_core.Config.Values.{trim_space}
use loqa_core.Config.Accepted.{IsSoundSkills, list_iff}
use loqa_core.Bus.Client.{connect}
use loqa_core.Capability.{new_registry, subscribe, is_ticking}
use loqa_core.EventStore.{open_store, Store, is_ephemeral}
use loqa_core.Skills.World.{
  new_service as new_skills, subscribed, subjects, register_subscriptions, Started as SkillsStarted,
  service, disabled, failed,
}
use loqa_core.Skills.{Binding, Host, load_skills}
use loqa_core.Runtime.{
  Library, Outside, init_tracer, init_metrics, setup_telemetry, connect_bus, start_registry,
  start_store, start_skills, skills_result, or_error,
}
use loqa_core.Runtime.Answers.{IsOk, bind-IsOk, IsReachable, IsOpenBus, IsGoodDisk}

tracer-IsOk : (cfg : Config) (o : Outside) → IsReachable o → IsOk (init_tracer cfg o.library)
unfolding init_tracer
tracer-IsOk cfg o h =
    if_all IsOk (trim_space cfg.telemetry.otlp_endpoint == "") (λ blank. rw h.2 (_, refl))
      (λ there. rw h.1 (_, refl))

metrics-IsOk : (library : Library) → IsOk (init_metrics library)
unfolding init_metrics
metrics-IsOk library = elim (Option-cases library.prometheus_error) [
  | inl e ↦ rw e (_, refl)
  | inr (message, e) ↦ rw e (_, refl)
]

pub telemetry-IsOk :
    (cfg : Config) (o : Outside) → IsReachable o → IsOk (setup_telemetry cfg o.library)
unfolding setup_telemetry
telemetry-IsOk cfg o h =
    bind-IsOk (or_error o.library.resource_error cfg.runtime_name) _ (rw h.0 (_, refl)) λ name.
      bind-IsOk (init_tracer cfg o.library) _ (tracer-IsOk cfg o h)
        λ provider. bind-IsOk (init_metrics o.library) _ (metrics-IsOk o.library) λ made. (_, refl)

pub bus-IsOk :
    (cfg : BusConfig) (o : Outside) → IsReachable o → cfg.servers ≢ [] → IsOk (connect_bus cfg o)
unfolding connect_bus connect
bus-IsOk cfg o h some_server =
    rw (connect_bus, connect, (list_iff cfg.servers).1 some_server, h.3, h.4) (_, refl)

pub registry-IsOk :
    (cfg : NodeConfig) (o : Outside)
    → IsOpenBus o
    → is_ticking cfg ≡ true
    → IsOk (start_registry cfg o)
unfolding start_registry new_registry subscribe
registry-IsOk cfg o h ticking = rw (h.0, h.1, ticking) (_, refl)

pub store-IsOk : (cfg : EventStoreConfig) (o : Outside) → IsGoodDisk o → IsOk (start_store cfg o)
unfolding start_store open_store
store-IsOk cfg o h = elim (Bool-cases (is_ephemeral cfg)) [
  | inl e ↦ rw (start_store, open_store, e) (_, refl)
  | inr e ↦ rw (start_store, open_store, e, h.0, h.1, h.2, h.3) (_, refl)
]

-- The bus takes every subject of the skills.
registered :
    (accepts : String → Bool) (names : List String)
    → ((subject : String) → accepts subject ≡ true)
    → register_subscriptions accepts names ≢ none
unfolding register_subscriptions
registered accepts [] h e = cc
registered accepts (name ∷ names) h e = elim (Option-cases (register_subscriptions accepts names)) [
  | inl later ↦ registered accepts names h later
  | inr (subs, later) ↦ absurd (ground (arith, e, later, h name))
]

abbrev IsNotFailed : SkillsStarted → Type 0
IsNotFailed failed = ⊥
IsNotFailed _ = Unit

subscribed-IsNotFailed :
    (cfg : SkillsConfig) (accepts : String → Bool) (host : Host) (skills : Map Binding)
    → ((subject : String) → accepts subject ≡ true)
    → IsNotFailed (subscribed cfg accepts host skills)
unfolding subscribed
subscribed-IsNotFailed cfg accepts host skills h =
    elim (Option-cases (register_subscriptions accepts (subjects skills))) [
      | inl e ↦ absurd (registered accepts (subjects skills) h e)
      | inr (subs, e) ↦ rw (IsNotFailed, e) tt
    ]

new_skills-IsNotFailed :
    (cfg : SkillsConfig) (o : Outside) (host : Host)
    → cfg.directory ≢ ""
    → IsGoodDisk o
    → IsOpenBus o
    → IsNotFailed (new_skills cfg true o.walk o.takes_skill host)
unfolding new_skills
new_skills-IsNotFailed cfg o host named d b =
    if_all IsNotFailed (not cfg.enabled) (λ off. tt)
      λ on.
        if_all IsNotFailed (cfg.directory == "")
          (λ blank. named ((eq_iff cfg.directory "").0 blank))
          λ there. elim (Option-cases o.walk) [
            | inl e ↦ absurd (d.4 e)
            | inr (files, e) ↦
                subst
                  (λ w. IsNotFailed (elim w [
                    | none ↦ failed
                    | some files ↦ subscribed cfg o.takes_skill host (load_skills files [])
                  ]))
                  (sym e) (subscribed-IsNotFailed cfg o.takes_skill host (load_skills files []) b.2)
          ]

skills_result-IsOk : (begun : SkillsStarted) → IsNotFailed begun → IsOk (skills_result begun)
skills_result-IsOk (service s) h = (_, refl)
skills_result-IsOk disabled h = (_, refl)
skills_result-IsOk failed h = absurd h

pub skills-IsOk :
    (cfg : SkillsConfig) (store : Store) (o : Outside)
    → IsSoundSkills cfg
    → IsGoodDisk o
    → IsOpenBus o
    → IsOk (start_skills cfg store o)
unfolding start_skills
skills-IsOk cfg store o sound d b =
    if_all IsOk cfg.enabled
      (λ on. skills_result-IsOk _ (new_skills-IsNotFailed cfg o _ (sound.0 on).0 d b))
      (λ off. (_, refl))
