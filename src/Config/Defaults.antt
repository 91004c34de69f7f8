-- ===== src/Config/Defaults.antt =====
-- internal/config/config.go, Default.
use loqa_core.Base.{true, false, [], ◌∷◌, pos}
use loqa_core.Config.Types.{Config}

abbrev pub default_config : Config
default_config = record {
  runtime_name = "loqa-runtime";
  environment = "development";
  http = record { bind = "0.0.0.0"; port = pos 8080 };
  telemetry = record {
    log_level = "info";
    otlp_endpoint = "";
    otlp_insecure = true;
    prometheus_bind = ":9091";
  };
  bus = record {
    embedded = true;
    port = pos 4222;
    servers = "nats://localhost:4222" ∷ [];
    username = "";
    password = "";
    token = "";
    tls_insecure = false;
    connect_timeout = pos 2000;
  };
  node = record {
    id = "loqa-node-1";
    role = "runtime";
    heartbeat_interval = pos 2000;
    heartbeat_timeout = pos 6000;
    capabilities = record { name = "runtime.core"; tier = "balanced"; attributes = [] } ∷ [];
  };
  event_store = record {
    path = "./data/loqa-events.db";
    retention_mode = "session";
    retention_days = pos 30;
    max_sessions = pos 10000;
    vacuum_on_start = false;
  };
  skills = record {
    enabled = true;
    directory = "./skills";
    concurrency = pos 4;
    audit_privacy = "internal";
  };
  stt = record {
    enabled = false;
    mode = "mock";
    command = "";
    model_path = "";
    language = "";
    sample_rate = pos 16000;
    channels = pos 1;
    frame_duration_ms = pos 20;
    partial_every_ms = pos 800;
    publish_interim = false;
  };
  llm = record {
    enabled = false;
    mode = "mock";
    endpoint = "http://localhost:11434";
    command = "";
    model_fast = "llama3.2:latest";
    model_balanced = "llama3.2:latest";
    default_tier = "balanced";
    max_tokens = pos 256;
    temperature = 4604480259023595110;
  };
  tts = record {
    enabled = false;
    mode = "mock";
    command = "";
    voice = "";
    sample_rate = pos 22050;
    channels = pos 1;
    chunk_duration_ms = pos 400;
  };
  router = record {
    enabled = true;
    default_tier = "balanced";
    default_voice = "en-US";
    target = "default";
  };
}
