-- ===== src/Runtime/Examples.antt =====
-- internal/runtime/runtime.go: the theorems at concrete inputs.
use loqa_core.Base.{
  ◌≡◌, ◌≢◌, refl, arith, String, true, none, some, [], ◌∷◌, if◌then◌else◌, count_if,
}
use loqa_core.Config.Defaults.{default_config}
use loqa_core.Config.Accepted.{IsAccepted, validate_iff}
use loqa_core.Config.Validate.{
  validate, check_bus, check_node, check_event_store, check_skills, check_stt, check_llm, check_tts,
}
use loqa_core.Runtime.{
  Outside, Library, Runtime, gives, fails, start, handle_ready, setup_telemetry, init_tracer,
  init_metrics, connect_bus, start_registry, start_store, start_skills, start_speech_to_text,
  start_language_model, start_text_to_speech, start_voice_router, make_recognizer,
}
use loqa_core.Config.Values.{trim_left, trim_right}
use loqa_core.Base.{scale, wrap64, update_all}
use loqa_core.Bus.Client.{connect, connect_options}
use loqa_core.Capability.{is_ticking, new_registry, subscribe, announce}
use loqa_core.EventStore.{open_store, prune}
use loqa_core.Skills.{load_skills}
use loqa_core.Skills.World.{new_service as new_skills, subscribed, register_subscriptions}
use loqa_core.Router.{start as start_router, new_service as new_router}
use loqa_core.Runtime.Answers.{IsOk, HasWords, IsReachable, IsOpenBus, IsGoodDisk}
use loqa_core.Runtime.Starting.{start-IsOk, without_servers, without_servers-IsAccepted}
use loqa_core.Runtime.Ready.{HasParts, start-handle_ready}
use loqa_core.Runtime.Shutdown.{skill_host, bus_connection, stop_actions, has_part}
use loqa_core.Runtime.Order.{uses, is_closing, after_close, stop_actions-order}

abbrev good_library : Library
good_library = record {
  resource_error = none;
  otlp_error = none;
  stdout_error = none;
  prometheus_error = none;
  meter_shutdown_error = none;
  trace_shutdown_error = none;
}

-- Everything works, and there is no skill.
abbrev all_good : Outside
all_good = record {
  now = 5;
  library = good_library;
  nats = record { connect_error = none; jetstream_error = none };
  takes_announces = true;
  takes_heartbeats = true;
  takes_announcement = true;
  disk = record {
    stored = record { sessions = []; events = []; next_id = 1 };
    made = true;
    opened = true;
    pinged = true;
    schema = true;
    prunes = true;
  };
  walk = some [];
  takes_skill = λ subject. true;
  words = λ text. gives (text ∷ []);
  takes_frames = true;
  takes_requests = true;
  takes_speech = true;
  has_histogram = true;
  takes_transcripts = true;
  takes_responses = true;
  takes_status = true;
}

default_config-IsAccepted : IsAccepted default_config
unfolding validate check_bus check_node check_event_store check_skills check_stt check_llm check_tts
default_config-IsAccepted = (validate_iff default_config).0 refl

reachable : IsReachable all_good
reachable = (refl, refl, refl, refl, refl)

open_bus : IsOpenBus all_good
open_bus = (refl, refl, λ subject. refl, refl, refl, refl, refl, refl, refl)

ticking : is_ticking default_config.node ≡ true
unfolding scale wrap64
ticking = refl

good_disk : IsGoodDisk all_good
good_disk = (refl, refl, refl, refl, λ e. cc)

words_known : (mode text : String) → HasWords all_good mode text
words_known mode text is = (text, [], refl)

start-IsOk_example : IsOk (start default_config all_good)
start-IsOk_example =
    start-IsOk default_config all_good default_config-IsAccepted (λ e. cc)
      (λ on. absurd (ground (arith, on))) (words_known _ _) (words_known _ _) (words_known _ _)
      reachable open_bus ticking good_disk

-- The default configuration: a registry, a store, skills and a router.
starts : IsOk (start default_config all_good)
unfolding start setup_telemetry init_tracer init_metrics trim_left trim_right connect_bus connect
    connect_options scale wrap64 start_registry new_registry subscribe announce update_all
    start_store open_store prune start_skills new_skills load_skills subscribed
    register_subscriptions start_speech_to_text start_language_model start_text_to_speech
    start_voice_router start_router new_router
starts = (_, refl)

abbrev served : Runtime
served = starts.0

start-handle_ready_example : HasParts default_config served × (handle_ready served ≡ (200, "ready"))
start-handle_ready_example = start-handle_ready default_config all_good served starts.1

without_servers-IsAccepted_example :
    IsAccepted (without_servers default_config)
    × (start (without_servers default_config) all_good ≢ gives served)
without_servers-IsAccepted_example =
    without_servers-IsAccepted default_config all_good served default_config-IsAccepted refl

stop_actions-order_example :
    (count_if (is_closing skill_host) (stop_actions served)
      ≡ (if has_part served skill_host then 1 else 0))
    × (uses skill_host bus_connection ≡ true
        → count_if (is_closing skill_host) (after_close bus_connection (stop_actions served)) ≡ 0)
stop_actions-order_example = stop_actions-order served skill_host bus_connection

-- A mode that only the checks know.
unknown_mode :
    start
      (record default_config { stt = record default_config.stt { enabled = true; mode = "vosk" } })
      all_good
    ≡ fails "unsupported STT mode vosk"
unfolding start setup_telemetry init_tracer init_metrics trim_left trim_right connect_bus connect
    scale wrap64 start_registry new_registry subscribe announce update_all start_store open_store
    prune start_skills new_skills load_skills subscribed register_subscriptions start_speech_to_text
    make_recognizer
unknown_mode = refl
