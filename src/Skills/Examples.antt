-- ===== src/Skills/Examples.antt =====
-- internal/skills: runs of the host, and its theorems at concrete inputs.
use loqa_core.Skills.Allowed.{IsAllowed, guests-IsAllowed, published}
use loqa_core.Skills.Guests.{
  TimerRequest, Intent, timer_status, speech_text, timer_run, handle_start, smart_home_run,
  timer_manifest, smart_home_manifest,
}
use loqa_core.Skills.Modules.{Wazero, load_skill, close_skill, IsBalanced, load_skill-IsBalanced}
use loqa_core.Base.{
  ◌≡◌, refl, String, true, false, Option, none, some, List, [], ◌∷◌, lookup, insert, pos, All,
  length, ◌++◌,
}
use loqa_core.Config.{SkillsConfig, EventStoreConfig}
use loqa_core.EventStore.{no_rows}
use loqa_core.Skills.Package.{Manifest, validate}
use loqa_core.Skills.{
  binding_of, add_skill, load_skills, Host, Attempt, PublishCall, HostCall, publishes, logs, invoke,
}
use Prim.Native.Nat.{max, ◌≤◌}
use loqa_core.Bus.{live}
use loqa_core.Skills.World
use loqa_core.Skills.World.Concurrency.{IsPermitted, reached_orderly}
use loqa_core.Skills.Loading.{first_valid, lookup-load_skills}
use loqa_core.Skills.Permissions.{IsExtension, invoke-IsExtension}
use loqa_core.Skills.Audit.{working, with_tables, IsAudited}
use loqa_core.Skills.Trail.{invoke-IsAudited}

abbrev timer : Manifest
timer = record {
  metadata = record { name = "timer"; version = "0.1.0"; description = ""; author = ""; tags = [] };
  runtime = record {
    mode = "wasm";
    entry_module = "timer.wasm";
    entrypoint = "run";
    host_version = "v1";
  };
  capabilities = record {
    bus = record { publish = "tts.request" ∷ []; subscribe = "skill.timer.start" ∷ [] };
    storage = record { kv = false };
    timers = true;
  };
  permissions = "bus:publish" ∷ [];
  surfaces = record { voice = true; display = false; automations = false };
}

abbrev unnamed : Manifest
unnamed = record timer {
  metadata = record { name = ""; version = "1"; description = ""; author = ""; tags = [] };
}

abbrev files : List (Option Manifest)
files = none ∷ some unnamed ∷ some timer ∷ some (record timer { permissions = "other" ∷ [] }) ∷ []

lookup-load_skills_example : lookup "timer" (load_skills files []) ≡ first_valid "timer" files
lookup-load_skills_example = lookup-load_skills files "timer"

the_first_timer_is_loaded : lookup "timer" (load_skills files []) ≡ some (binding_of timer)
unfolding load_skills add_skill validate lookup insert
the_first_timer_is_loaded = refl

abbrev settings : SkillsConfig
settings = record {
  enabled = true;
  directory = "./skills";
  concurrency = pos 4;
  audit_privacy = "internal";
}

abbrev storing : EventStoreConfig
storing = record {
  path = "events.db";
  retention_mode = "session";
  retention_days = pos 30;
  max_sessions = pos 10;
  vacuum_on_start = false;
}

abbrev fresh : Host
fresh = record { store = some (with_tables storing no_rows); published = [] }

abbrev speak : String → PublishCall
speak subject = record {
  subject = some subject;
  payload_len = 2;
  payload = some (1 ∷ 2 ∷ []);
  accepted = true;
}

abbrev attempt : Attempt
attempt = working 5 (7 ∷ [])

abbrev guest : List HostCall
guest =
    publishes (speak "tts.request") attempt
    ∷ publishes (speak "tts.done") attempt
    ∷ logs (some "hi") attempt
    ∷ []

invoke-IsExtension_example :
    IsExtension
      (binding_of timer)
      fresh.published
      (invoke settings (binding_of timer) true [] true guest true attempt attempt fresh).0.published
invoke-IsExtension_example =
    invoke-IsExtension settings (binding_of timer) true [] true guest true attempt attempt fresh

invoke-IsAudited_example :
    IsAudited storing 0
      (invoke settings (binding_of timer) true [] true guest true attempt attempt fresh).0
invoke-IsAudited_example =
    invoke-IsAudited settings (binding_of timer) true [] true guest true attempt attempt storing 0
      fresh refl tt ((5, 7 ∷ [], refl), ((5, 7 ∷ [], refl), ((5, 7 ∷ [], refl), tt)))
      (5, 7 ∷ [], refl) (5, 7 ∷ [], refl) (no_rows, refl, refl)

abbrev hosting : World.Service
hosting = record {
  cfg = settings;
  skills = ("timer", binding_of timer) ∷ [];
  subs = live ∷ [];
  healthy = true;
  is_cancelled = false;
  waiting = [];
  running = [];
  host = fresh;
}

abbrev morning : List World.Action
morning =
    World.message "timer"
    ∷ World.message "lamp"
    ∷ World.acquire 0
    ∷ World.works 0 (World.calls (publishes (speak "tts.request") attempt))
    ∷ World.release 0
    ∷ World.closes
    ∷ World.message "timer"
    ∷ []

reached_orderly_example :
    (length (World.run morning hosting).running ≤ max 1 4)
    × All (IsPermitted hosting.skills) (World.run morning hosting).host.published
unfolding World.new_service World.subscribed World.register_subscriptions load_skills add_skill
    validate lookup insert
reached_orderly_example =
    reached_orderly settings true (some files) (λ subject. true) fresh hosting morning refl refl

-- A module whose entrypoint is missing.
abbrev no_entry : Wazero
no_entry = record {
  takes_host = true;
  takes_wasi = true;
  reads = true;
  compiles = true;
  instantiates = true;
  has_entry = false;
  closes_module = true;
  closes_compiled = true;
  completes = true;
}

load_skill-IsBalanced_example :
    let (events, loaded) = load_skill no_entry timer_manifest in
    (loaded ≡ false → IsBalanced events)
    × (loaded ≡ true
        → (timer_manifest.runtime.mode ≡ "wasm")
          × (no_entry.closes_module ≡ true → IsBalanced (events ++ (close_skill no_entry).0)))
load_skill-IsBalanced_example = load_skill-IsBalanced no_entry timer_manifest

abbrev tea : String → Option TimerRequest
tea payload = some (record { duration_ms = pos 180000; label = "tea" })

abbrev no_intent : String → Option Intent
no_intent payload = none

guests-IsAllowed_example :
    (validate timer_manifest ≡ none)
    × (validate smart_home_manifest ≡ none)
    × All (IsAllowed timer_manifest) (timer_run tea "skill.timer.start" "{}")
    × All (IsAllowed smart_home_manifest) (smart_home_run no_intent "" "" "{}")
guests-IsAllowed_example = guests-IsAllowed tea no_intent "skill.timer.start" "" "" "{}"

tea_is_announced :
    published (timer_run tea "skill.timer.start" "{}")
    ≡ ("skill.timer.status", timer_status "tea" "started" (pos 180))
      ∷ ("skill.timer.status", timer_status "tea" "completed" (pos 0))
      ∷ ("tts.request", speech_text "tea timer complete")
      ∷ []
unfolding timer_run handle_start
tea_is_announced = refl
