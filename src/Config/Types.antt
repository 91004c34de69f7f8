-- ===== src/Config/Types.antt =====
-- internal/config/config.go: the configuration's structs. An int is a 64-bit integer, a float64 its
-- bit pattern, and a nil slice or map the empty one.
use loqa_core.Base.{String, Bool, List, Map, ℤ, Float64}

pub record TelemetryConfig : Type 0 where
  pub log_level : String
  pub otlp_endpoint : String
  pub otlp_insecure : Bool
  pub prometheus_bind : String

pub record HttpConfig : Type 0 where
  pub bind : String
  pub port : ℤ

pub record BusConfig : Type 0 where
  pub embedded : Bool
  pub port : ℤ
  pub servers : List String
  pub username : String
  pub password : String
  pub token : String
  pub tls_insecure : Bool
  pub connect_timeout : ℤ

pub record NodeCapability : Type 0 where
  pub name : String
  pub tier : String
  pub attributes : Map String

pub record NodeConfig : Type 0 where
  pub id : String
  pub role : String
  pub heartbeat_interval : ℤ
  pub heartbeat_timeout : ℤ
  pub capabilities : List NodeCapability

pub record EventStoreConfig : Type 0 where
  pub path : String
  pub retention_mode : String
  pub retention_days : ℤ
  pub max_sessions : ℤ
  pub vacuum_on_start : Bool

pub record SttConfig : Type 0 where
  pub enabled : Bool
  pub mode : String
  pub command : String
  pub model_path : String
  pub language : String
  pub sample_rate : ℤ
  pub channels : ℤ
  pub frame_duration_ms : ℤ
  pub partial_every_ms : ℤ
  pub publish_interim : Bool

pub record LlmConfig : Type 0 where
  pub enabled : Bool
  pub mode : String
  pub endpoint : String
  pub command : String
  pub model_fast : String
  pub model_balanced : String
  pub default_tier : String
  pub max_tokens : ℤ
  pub temperature : Float64

pub record TtsConfig : Type 0 where
  pub enabled : Bool
  pub mode : String
  pub command : String
  pub voice : String
  pub sample_rate : ℤ
  pub channels : ℤ
  pub chunk_duration_ms : ℤ

pub record RouterConfig : Type 0 where
  pub enabled : Bool
  pub default_tier : String
  pub default_voice : String
  pub target : String

pub record SkillsConfig : Type 0 where
  pub enabled : Bool
  pub directory : String
  pub concurrency : ℤ
  pub audit_privacy : String

pub record Config : Type 0 where
  pub runtime_name : String
  pub environment : String
  pub http : HttpConfig
  pub telemetry : TelemetryConfig
  pub bus : BusConfig
  pub node : NodeConfig
  pub event_store : EventStoreConfig
  pub skills : SkillsConfig
  pub stt : SttConfig
  pub llm : LlmConfig
  pub tts : TtsConfig
  pub router : RouterConfig
