-- ===== src/Runtime/Shutdown.antt =====
-- internal/runtime/runtime.go, Start from the end of its context: what is closed, in its order. An error
-- of a close is logged, and the next one follows. The store's handle is left out of the state.
use loqa_core.Base.{Bool, true, false, Option, none, some, List, [], ◌∷◌, keep_if}
use mathlib.Core.Option
use loqa_core.Bus.Client.{close as close_client}
use loqa_core.Capability.{close as close_registry}
use loqa_core.Skills.World.{close as close_skills}
use loqa_core.Stt.World.{close as close_stt}
use loqa_core.Llm.{close as close_llm}
use loqa_core.Tts.{close as close_tts}
use loqa_core.Router.{close as close_router}
use loqa_core.Runtime.{Runtime, Backend}

pub data Part : Type 0 where
  http_api metrics_api node_registry speech_input language_model speech_output voice_router : Part
  skill_host event_database bus_connection exporters : Part

-- A close, or the wait for the goroutines of the two servers.
pub data Action : Type 0 where
  closes : Part → Action
  waits : Action

abbrev pub shutdown_order : List Action
shutdown_order =
    closes http_api
    ∷ closes node_registry
    ∷ closes speech_input
    ∷ closes language_model
    ∷ closes speech_output
    ∷ closes voice_router
    ∷ closes skill_host
    ∷ closes metrics_api
    ∷ closes event_database
    ∷ closes bus_connection
    ∷ waits
    ∷ closes exporters
    ∷ []

abbrev pub is_started {ℓ} : {A : Type ℓ} → Option A → Bool
is_started none = false
is_started (some value) = true

-- Whether the runtime's field is not nil.
abbrev pub has_part : Runtime → Part → Bool
has_part r speech_input = is_started r.stt_service
has_part r language_model = is_started r.llm_service
has_part r speech_output = is_started r.tts_service
has_part r voice_router = is_started r.router_service
has_part r skill_host = is_started r.skills_service
has_part r metrics_api = r.has_metrics_server
has_part r part = true

abbrev pub is_due : Runtime → Action → Bool
is_due r (closes part) = has_part r part
is_due r waits = true

unfoldable pub stop_actions : Runtime → List Action
stop_actions r = keep_if (is_due r) shutdown_order

abbrev pub closed_backed {ℓ} : {A : Type ℓ} → (A → A) → Option (Backend × A) → Option (Backend × A)
closed_backed close_service none = none
closed_backed close_service (some (backend, s)) = some (backend, close_service s)

unfoldable pub stop : Runtime → Runtime
stop r = record r {
  bus_client = close_client r.bus_client;
  registry = close_registry r.registry;
  stt_service = closed_backed close_stt r.stt_service;
  llm_service = closed_backed close_llm r.llm_service;
  tts_service = closed_backed close_tts r.tts_service;
  router_service = Option.map close_router r.router_service;
  skills_service = Option.map close_skills r.skills_service;
}
