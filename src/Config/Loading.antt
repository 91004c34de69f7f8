-- ===== src/Config/Loading.antt =====
-- internal/config/config.go, Load and applyEnvOverrides. An override gives the target's new value. The
-- variables are os.LookupEnv's, and strconv.ParseFloat is a parameter.
use loqa_core.Base.{
  String, ◌==◌, Bool, Option, none, some, List, [], ◌∷◌, ℤ, Float64, if◌then◌else◌,
}
use loqa_core.Config.Types.{Config}
use loqa_core.Config.Defaults.{default_config}
use loqa_core.Config.Validate.{validate}
use loqa_core.Config.Values.{trim_space, split_commas, atoi, parse_bool}

abbrev pub Env : Type 0
Env = String → Option String

-- The new value, where the variable is set and is read.
abbrev pub replace {ℓ} : {A : Type ℓ} → Option A → A → A
replace none target = target
replace (some value) target = value

abbrev pub read {ℓ} : {A : Type ℓ} → (String → Option A) → Option String → Option A
read parse none = none
read parse (some value) = parse value

abbrev pub unless_blank : String → Option String
unless_blank value = if trim_space value == "" then none else some value

unfoldable pub override_string : Env → String → String → String
override_string env key target = replace (read unless_blank (env key)) target

unfoldable pub override_int : Env → String → ℤ → ℤ
override_int env key target = replace (read atoi (env key)) target

unfoldable pub override_bool : Env → String → Bool → Bool
override_bool env key target = replace (read parse_bool (env key)) target

abbrev pub trimmed : List String → List String
trimmed [] = []
trimmed (part ∷ parts) =
    if trim_space part == "" then trimmed parts else trim_space part ∷ trimmed parts

abbrev pub unless_empty : List String → Option (List String)
unless_empty [] = none
unless_empty (part ∷ parts) = some (part ∷ parts)

unfoldable pub override_string_slice : Env → String → List String → List String
override_string_slice env key target =
    replace (read (λ value. unless_empty (trimmed (split_commas value))) (env key)) target

unfoldable pub override_float : (String → Option Float64) → Env → String → Float64 → Float64
override_float parse_float env key target = replace (read parse_float (env key)) target

unfoldable pub apply_env_overrides : (String → Option Float64) → Env → Config → Config
apply_env_overrides parse_float env cfg = record cfg {
  runtime_name = override_string env "LOQA_RUNTIME_NAME" cfg.runtime_name;
  environment = override_string env "LOQA_RUNTIME_ENVIRONMENT" cfg.environment;
  http = record cfg.http {
    bind = override_string env "LOQA_HTTP_BIND" cfg.http.bind;
    port = override_int env "LOQA_HTTP_PORT" cfg.http.port;
  };
  telemetry = record cfg.telemetry {
    log_level = override_string env "LOQA_TELEMETRY_LOG_LEVEL" cfg.telemetry.log_level;
    otlp_endpoint = override_string env "LOQA_TELEMETRY_OTLP_ENDPOINT" cfg.telemetry.otlp_endpoint;
    otlp_insecure = override_bool env "LOQA_TELEMETRY_OTLP_INSECURE" cfg.telemetry.otlp_insecure;
    prometheus_bind =
        override_string env "LOQA_TELEMETRY_PROMETHEUS_BIND" cfg.telemetry.prometheus_bind;
  };
  bus = record cfg.bus {
    embedded = override_bool env "LOQA_BUS_EMBEDDED" cfg.bus.embedded;
    port = override_int env "LOQA_BUS_PORT" cfg.bus.port;
    servers = override_string_slice env "LOQA_BUS_SERVERS" cfg.bus.servers;
    username = override_string env "LOQA_BUS_USERNAME" cfg.bus.username;
    password = override_string env "LOQA_BUS_PASSWORD" cfg.bus.password;
    token = override_string env "LOQA_BUS_TOKEN" cfg.bus.token;
    tls_insecure = override_bool env "LOQA_BUS_TLS_INSECURE" cfg.bus.tls_insecure;
    connect_timeout = override_int env "LOQA_BUS_CONNECT_TIMEOUT_MS" cfg.bus.connect_timeout;
  };
  node = record cfg.node {
    id = override_string env "LOQA_NODE_ID" cfg.node.id;
    role = override_string env "LOQA_NODE_ROLE" cfg.node.role;
    heartbeat_interval =
        override_int env "LOQA_NODE_HEARTBEAT_INTERVAL_MS" cfg.node.heartbeat_interval;
    heartbeat_timeout =
        override_int env "LOQA_NODE_HEARTBEAT_TIMEOUT_MS" cfg.node.heartbeat_timeout;
  };
  event_store = record cfg.event_store {
    path = override_string env "LOQA_EVENT_STORE_PATH" cfg.event_store.path;
    retention_mode =
        override_string env "LOQA_EVENT_STORE_RETENTION_MODE" cfg.event_store.retention_mode;
    retention_days =
        override_int env "LOQA_EVENT_STORE_RETENTION_DAYS" cfg.event_store.retention_days;
    max_sessions = override_int env "LOQA_EVENT_STORE_MAX_SESSIONS" cfg.event_store.max_sessions;
    vacuum_on_start =
        override_bool env "LOQA_EVENT_STORE_VACUUM_ON_START" cfg.event_store.vacuum_on_start;
  };
  stt = record cfg.stt {
    enabled = override_bool env "LOQA_STT_ENABLED" cfg.stt.enabled;
    mode = override_string env "LOQA_STT_MODE" cfg.stt.mode;
    command = override_string env "LOQA_STT_COMMAND" cfg.stt.command;
    model_path = override_string env "LOQA_STT_MODEL_PATH" cfg.stt.model_path;
    language = override_string env "LOQA_STT_LANGUAGE" cfg.stt.language;
    sample_rate = override_int env "LOQA_STT_SAMPLE_RATE" cfg.stt.sample_rate;
    channels = override_int env "LOQA_STT_CHANNELS" cfg.stt.channels;
    frame_duration_ms = override_int env "LOQA_STT_FRAME_DURATION_MS" cfg.stt.frame_duration_ms;
    partial_every_ms = override_int env "LOQA_STT_PARTIAL_EVERY_MS" cfg.stt.partial_every_ms;
    publish_interim = override_bool env "LOQA_STT_PUBLISH_INTERIM" cfg.stt.publish_interim;
  };
  llm = record cfg.llm {
    enabled = override_bool env "LOQA_LLM_ENABLED" cfg.llm.enabled;
    mode = override_string env "LOQA_LLM_MODE" cfg.llm.mode;
    endpoint = override_string env "LOQA_LLM_ENDPOINT" cfg.llm.endpoint;
    command = override_string env "LOQA_LLM_COMMAND" cfg.llm.command;
    model_fast = override_string env "LOQA_LLM_MODEL_FAST" cfg.llm.model_fast;
    model_balanced = override_string env "LOQA_LLM_MODEL_BALANCED" cfg.llm.model_balanced;
    default_tier = override_string env "LOQA_LLM_DEFAULT_TIER" cfg.llm.default_tier;
    max_tokens = override_int env "LOQA_LLM_MAX_TOKENS" cfg.llm.max_tokens;
    temperature = override_float parse_float env "LOQA_LLM_TEMPERATURE" cfg.llm.temperature;
  };
  tts = record cfg.tts {
    enabled = override_bool env "LOQA_TTS_ENABLED" cfg.tts.enabled;
    mode = override_string env "LOQA_TTS_MODE" cfg.tts.mode;
    command = override_string env "LOQA_TTS_COMMAND" cfg.tts.command;
    voice = override_string env "LOQA_TTS_VOICE" cfg.tts.voice;
    sample_rate = override_int env "LOQA_TTS_SAMPLE_RATE" cfg.tts.sample_rate;
    channels = override_int env "LOQA_TTS_CHANNELS" cfg.tts.channels;
    chunk_duration_ms = override_int env "LOQA_TTS_CHUNK_DURATION_MS" cfg.tts.chunk_duration_ms;
  };
  router = record cfg.router {
    enabled = override_bool env "LOQA_ROUTER_ENABLED" cfg.router.enabled;
    default_tier = override_string env "LOQA_ROUTER_DEFAULT_TIER" cfg.router.default_tier;
    default_voice = override_string env "LOQA_ROUTER_DEFAULT_VOICE" cfg.router.default_voice;
    target = override_string env "LOQA_ROUTER_TARGET" cfg.router.target;
  };
}

-- What ioutil.ReadFile finds at a path.
pub data File : Type 0 where
  content : String → File
  not_found : File
  unreadable : File

-- The configuration that is returned, and the error if there is one. The YAML decoder writes to the
-- configuration that it is given, and may say that it failed.
abbrev pub Loaded : Type 0
Loaded = Config × Option String

abbrev pub Decoder : Type 0
Decoder = String → Config → Loaded

-- The configuration before the environment.
abbrev pub from_file : Decoder → File → Loaded
from_file unmarshal (content text) = unmarshal text default_config
from_file unmarshal not_found = (default_config, some "config file not found")
from_file unmarshal unreadable = (default_config, some "failed to read config file")

abbrev pub base_config : (String → File) → Decoder → String → Loaded
base_config disk unmarshal path =
    if path == "" then (default_config, none) else from_file unmarshal (disk path)

abbrev pub finish : (Config → Config) → Loaded → Loaded
finish overrides (cfg, some message) = (cfg, some message)
finish overrides (cfg, none) = (overrides cfg, validate (overrides cfg))

unfoldable pub load : (String → File) → Decoder → (String → Option Float64) → Env → String → Loaded
load disk unmarshal parse_float env path =
    finish (apply_env_overrides parse_float env) (base_config disk unmarshal path)
