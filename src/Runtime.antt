-- ===== src/Runtime.antt =====
-- internal/runtime/runtime.go: the start of the parts in their order, readiness, and the shutdown. A
-- part is the state of its own module. What the libraries, the bus, the disk and the skills' directory
-- answer is a record that Start is given. An error is its text, up to the inner error of a service.
mod Telemetry
mod Examples
pub mod Started
pub mod Healthy
pub mod Ready
pub mod Answers
pub mod Stages
pub mod Services
pub mod Starting
pub mod Shutdown
pub mod Order
pub use Telemetry.*
unfoldable pub use Telemetry.{init_tracer, init_metrics, setup_telemetry, shutdown}
use loqa_core.Base.{
  ℕ, String, append_text, ◌==◌, Bool, true, false, not, ◌&&◌, ◌||◌, Option, none, some, List, [],
  ◌∷◌, ◌++◌, keep_if, Time, ℤ, if◌then◌else◌,
}
use loqa_core.Config.{
  Config, NodeConfig, BusConfig, EventStoreConfig, SkillsConfig, SttConfig, LlmConfig, TtsConfig,
  RouterConfig,
}
use loqa_core.Bus.Client.{
  Client, Nats, client, refused, connect, close as close_client, healthy as client_healthy,
}
use loqa_core.Capability.{
  Registry, Construction, created, not_subscribed, panicked, new_registry, close as close_registry,
  healthy as registry_healthy,
}
use loqa_core.EventStore.{Tables, Store, open_store}
use loqa_core.Skills.Package.{Manifest}
use loqa_core.Skills.World.{
  Service as SkillService, Started as SkillsStarted, service, disabled, failed,
  new_service as new_skills, close as close_skills,
}
use loqa_core.Stt.World.{
  Service as SttService, new_service as new_stt, start as start_stt, close as close_stt,
  healthy as stt_healthy,
}
use loqa_core.Llm.{
  Service as LlmService, new_service as new_llm, start as start_llm, close as close_llm,
  healthy as llm_healthy,
}
use loqa_core.Tts.{
  Service as TtsService, new_service as new_tts, start as start_tts, close as close_tts,
  healthy as tts_healthy,
}
use loqa_core.Router.{
  Service as RouterService, new_service as new_router, start as start_router, close as close_router,
  healthy as router_healthy,
}

-- How the database opens: the tables in its file, and whether each step works.
pub record Disk : Type 0 where
  pub stored : Tables
  pub made : Bool
  pub opened : Bool
  pub pinged : Bool
  pub schema : Bool
  pub prunes : Bool

-- What lies outside. `words` is the parser of go-shellwords.
pub record Outside : Type 0 where
  pub now : Time
  pub library : Library
  pub nats : Nats
  pub takes_announces : Bool
  pub takes_heartbeats : Bool
  pub takes_announcement : Bool
  pub disk : Disk
  pub walk : Option (List (Option Manifest))
  pub takes_skill : String → Bool
  pub words : String → Outcome (List String)
  pub takes_frames : Bool
  pub takes_requests : Bool
  pub takes_speech : Bool
  pub has_histogram : Bool
  pub takes_transcripts : Bool
  pub takes_responses : Bool
  pub takes_status : Bool

-- What a service runs on: a command with its arguments, an Ollama server with its two models, or the
-- mock.
pub data Backend : Type 0 where
  command : List String → Backend
  ollama : String → String → String → Backend
  mock : Backend

abbrev pub some_words : String → List String → Outcome Backend
some_words empty [] = fails empty
some_words empty (word ∷ words) = gives (command (word ∷ words))

-- What the three constructors share.
abbrev pub new_exec : (String → Outcome (List String)) → String → String → Outcome Backend
new_exec words text empty = words text >>= some_words empty

abbrev pub new_exec_recognizer : (String → Outcome (List String)) → SttConfig → Outcome Backend
new_exec_recognizer words cfg = new_exec words cfg.command "stt command is empty"

abbrev pub new_exec_generator : (String → Outcome (List String)) → String → Outcome Backend
new_exec_generator words text = new_exec words text "llm command empty"

-- The sample rate and the channels that the source stores with the command stay in the settings.
abbrev pub new_exec_synth : (String → Outcome (List String)) → String → Outcome Backend
new_exec_synth words text = new_exec words text "tts command empty"

unfoldable pub make_recognizer : SttConfig → Outside → Outcome Backend
make_recognizer cfg o =
    if cfg.mode == "exec"
    then new_exec_recognizer o.words cfg
    else if (cfg.mode == "mock") || (cfg.mode == "")
    then gives mock
    else fails (append_text "unsupported STT mode " cfg.mode)

unfoldable pub make_generator : LlmConfig → Outside → Outcome Backend
make_generator cfg o =
    if cfg.mode == "ollama"
    then gives (ollama cfg.endpoint cfg.model_fast cfg.model_balanced)
    else if cfg.mode == "exec"
    then new_exec_generator o.words cfg.command
    else if (cfg.mode == "mock") || (cfg.mode == "")
    then gives mock
    else fails (append_text "unsupported LLM mode " cfg.mode)

unfoldable pub make_synth : TtsConfig → Outside → Outcome Backend
make_synth cfg o =
    if cfg.mode == "exec"
    then new_exec_synth o.words cfg.command
    else if (cfg.mode == "mock") || (cfg.mode == "")
    then gives mock
    else fails (append_text "unsupported TTS mode " cfg.mode)

-- What a service's Start gives.
abbrev pub if_started {ℓ} : {A : Type ℓ} → String → A × Bool → Outcome A
if_started message (value, true) = gives value
if_started message (value, false) = fails message

abbrev pub or_fail {ℓ} : {A : Type ℓ} → String → Option A → Outcome A
or_fail message none = fails message
or_fail message (some value) = gives value

-- A part that is started where it is enabled.
abbrev pub where_enabled {ℓ} : {A : Type ℓ} → Bool → Outcome A → Outcome (Option A)
where_enabled true made = made >>= λ value. gives (some value)
where_enabled false made = gives none

unfoldable pub connect_bus : BusConfig → Outside → Outcome Client
connect_bus cfg o = elim (connect cfg o.nats) [
  | client c ↦ gives c
  | refused events message ↦ fails (append_text "failed to connect to message bus: " message)
]

abbrev pub registry_result : Construction Registry → Outcome Registry
registry_result (created registry) = gives registry
registry_result not_subscribed = fails "failed to start capability registry"
registry_result panicked = panics

unfoldable pub start_registry : NodeConfig → Outside → Outcome Registry
start_registry cfg o =
    registry_result
      (new_registry cfg o.takes_announces o.takes_heartbeats o.takes_announcement o.now).0

unfoldable pub start_store : EventStoreConfig → Outside → Outcome Store
start_store cfg o = or_fail "failed to initialize event store" (
    open_store cfg o.disk.stored o.disk.made o.disk.opened o.disk.pinged o.disk.schema o.disk.prunes
      o.now)

-- Without an error and without a service the pointer is nil.
abbrev pub skills_result : SkillsStarted → Outcome (Option SkillService)
skills_result (service s) = gives (some s)
skills_result disabled = gives none
skills_result failed = fails "start skills service"

-- The skills write to the runtime's store.
unfoldable pub start_skills : SkillsConfig → Store → Outside → Outcome (Option SkillService)
start_skills cfg store o =
    if cfg.enabled
    then skills_result
        (new_skills cfg true o.walk o.takes_skill (record { store = some store; published = [] }))
    else gives none

unfoldable pub start_speech_to_text : SttConfig → Outside → Outcome (Option (Backend × SttService))
start_speech_to_text cfg o = where_enabled cfg.enabled do
  recognizer ← make_recognizer cfg o
  s ← if_started "start STT service" (start_stt o.takes_frames (new_stt cfg))
  gives (recognizer, s)

unfoldable pub start_language_model : LlmConfig → Outside → Outcome (Option (Backend × LlmService))
start_language_model cfg o = where_enabled cfg.enabled do
  generator ← make_generator cfg o
  s ← if_started "start LLM service" (start_llm o.takes_requests (new_llm cfg))
  gives (generator, s)

unfoldable pub start_text_to_speech : TtsConfig → Outside → Outcome (Option (Backend × TtsService))
start_text_to_speech cfg o = where_enabled cfg.enabled do
  synth ← make_synth cfg o
  s ← if_started "start TTS service" (start_tts o.takes_speech (new_tts cfg))
  gives (synth, s)

unfoldable pub start_voice_router : RouterConfig → Outside → Outcome (Option RouterService)
start_voice_router cfg o = where_enabled cfg.enabled (
    if_started "start router service" (
      start_router o.takes_transcripts o.takes_responses o.takes_status
        (new_router cfg o.has_histogram)))

-- The runtime's fields. Those of the parts that always are there when it serves are no options.
pub record Runtime : Type 0 where
  pub cfg : Config
  pub telemetry : Providers
  pub bus_client : Client
  pub registry : Registry
  pub event_store : Store
  pub skills_service : Option SkillService
  pub stt_service : Option (Backend × SttService)
  pub llm_service : Option (Backend × LlmService)
  pub tts_service : Option (Backend × TtsService)
  pub router_service : Option RouterService
  pub has_metrics_server : Bool
  pub ready : Bool

-- Start up to its wait for the context: the runtime that serves, or the error.
unfoldable pub start : Config → Outside → Outcome Runtime
start cfg o = do
  telemetry ← setup_telemetry cfg o.library
  bus_client ← connect_bus cfg.bus o
  registry ← start_registry cfg.node o
  event_store ← start_store cfg.event_store o
  skills_service ← start_skills cfg.skills event_store o
  stt_service ← start_speech_to_text cfg.stt o
  llm_service ← start_language_model cfg.llm o
  tts_service ← start_text_to_speech cfg.tts o
  router_service ← start_voice_router cfg.router o
  gives (record {
    cfg = cfg;
    telemetry = telemetry;
    bus_client = bus_client;
    registry = registry;
    event_store = event_store;
    skills_service = skills_service;
    stt_service = stt_service;
    llm_service = llm_service;
    tts_service = tts_service;
    router_service = router_service;
    has_metrics_server = telemetry.has_handler && not (cfg.telemetry.prometheus_bind == "");
    ready = true;
  })

abbrev pub nil_or {ℓ} : {A : Type ℓ} → (A → Bool) → Option A → Bool
nil_or test none = true
nil_or test (some value) = test value

-- The status code and the body.
abbrev pub Response : Type 0
Response = ℕ × String

abbrev pub handle_health : Response
handle_health = (200, "ok")

unfoldable pub handle_ready : Runtime → Response
handle_ready r =
    let stt_ok = nil_or (λ s. stt_healthy s.1) r.stt_service in
    let llm_ok = nil_or (λ s. llm_healthy s.1) r.llm_service in
    let tts_ok = nil_or (λ s. tts_healthy s.1) r.tts_service in
    let router_ok = nil_or router_healthy r.router_service in
    let skills_ok = nil_or (λ s. s.healthy) r.skills_service in
    if r.ready
      && (client_healthy r.bus_client
          && (registry_healthy r.registry
              && (stt_ok && (llm_ok && (tts_ok && (router_ok && skills_ok))))))
    then (200, "ready")
    else (503, "not ready")
