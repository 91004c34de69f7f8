-- ===== src/Command/Examples.antt =====
-- cmd/loqad/main.go and cmd/loqa-skill/main.go: the theorems at concrete inputs.
use loqa_core.Base.{
  ◌≡◌, refl, String, ◌==◌, true, false, ◌&&◌, Option, none, some, List, [], ◌∷◌, ◌⊎◌, inl, inr,
  if◌then◌else◌,
}
use loqa_core.Config.Defaults.{default_config}
use loqa_core.Bus.Server.{Launch, started, start as start_server}
use loqa_core.Skills.Package.{Manifest, validate}
use loqa_core.Runtime.{Outside, fails, start, setup_telemetry}
use loqa_core.Command.{loqad, loqa_skill, run_validate}
use loqa_core.Command.Ending.{Ends, is_failed, is_err, code_of, has_server, loqad_lem}

-- The default configuration, where nothing outside works.
abbrev unreachable : Outside
unreachable = record {
  now = 0;
  library = record {
    resource_error = some "no resource";
    otlp_error = none;
    stdout_error = none;
    prometheus_error = none;
    meter_shutdown_error = none;
    trace_shutdown_error = none;
  };
  nats = record { connect_error = none; jetstream_error = none };
  takes_announces = false;
  takes_heartbeats = false;
  takes_announcement = false;
  disk = record {
    stored = record { sessions = []; events = []; next_id = 1 };
    made = false;
    opened = false;
    pinged = false;
    schema = false;
    prunes = false;
  };
  walk = none;
  takes_skill = λ subject. false;
  words = λ text. fails "no words";
  takes_frames = false;
  takes_requests = false;
  takes_speech = false;
  has_histogram = false;
  takes_transcripts = false;
  takes_responses = false;
  takes_status = false;
}

abbrev launched : Launch
launched = record { create_error = none; ready = true }

-- The embedded server is left as it is when the runtime does not start.
left_running :
    loqad false (default_config, none) launched unreachable
    ≡ record { code = 1; server = started default_config.bus.port ∷ [] }
unfolding loqad start_server start setup_telemetry
left_running = refl

loqad_lem_example :
    Ends
      (loqad false (default_config, none) launched unreachable)
      (if is_failed (start_server default_config.bus launched)
        then 1
        else code_of (start default_config unreachable))
      (has_server (start_server default_config.bus launched)
        && is_err (start default_config unreachable))
loqad_lem_example = loqad_lem default_config launched unreachable

abbrev example_manifest : Manifest
example_manifest = record {
  metadata = record { name = "timer"; version = "0.1.0"; description = ""; author = ""; tags = [] };
  runtime = record {
    mode = "wasm";
    entry_module = "timer.wasm";
    entrypoint = "run";
    host_version = "v1";
  };
  capabilities = record {
    bus = record { publish = "tts.request" ∷ []; subscribe = "skill.timer.start" ∷ [] };
    storage = record { kv = false };
    timers = true;
  };
  permissions = "bus:publish" ∷ [];
  surfaces = record { voice = true; display = false; automations = false };
}

abbrev manifests : String → String ⊎ Manifest
manifests path = if path == "skill.yaml" then inr example_manifest else inl "open: no such file"

abbrev default_path : List String → Option String
default_path rest = some "skill.yaml"

valid_manifest : loqa_skill manifests default_path ("validate" ∷ []) ≡ 0
unfolding loqa_skill run_validate validate
valid_manifest = refl
