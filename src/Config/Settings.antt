-- ===== src/Config/Settings.antt =====
-- internal/config/config.go: the settings that have a variable, and its name.
use Prim.Native.Char.{code}
use Prim.Native.Nat.{◌+◌}
use loqa_core.Base.{
  ℕ, ◌≡◌, refl, String, append_text, Bool, ◌&&◌, List, [], ◌∷◌, All, leb, eqb, ℤ, Float64,
  if◌then◌else◌,
}
use loqa_core.Config.Types.{Config}

-- A setting by its path in the file, its variable, and where it stands in the configuration.
pub data Setting : Type 0 where
  text : String → String → (Config → String) → Setting
  number : String → String → (Config → ℤ) → Setting
  flag : String → String → (Config → Bool) → Setting
  texts : String → String → (Config → List String) → Setting
  decimal : String → String → (Config → Float64) → Setting

abbrev pub general_settings : List Setting
general_settings =
    text "runtime_name" "LOQA_RUNTIME_NAME" (λ cfg. cfg.runtime_name)
    ∷ text "runtime.environment" "LOQA_RUNTIME_ENVIRONMENT" (λ cfg. cfg.environment)
    ∷ []

abbrev pub http_settings : List Setting
http_settings =
    text "http.bind" "LOQA_HTTP_BIND" (λ cfg. cfg.http.bind)
    ∷ number "http.port" "LOQA_HTTP_PORT" (λ cfg. cfg.http.port)
    ∷ []

abbrev pub telemetry_settings : List Setting
telemetry_settings =
    text "telemetry.log_level" "LOQA_TELEMETRY_LOG_LEVEL" (λ cfg. cfg.telemetry.log_level)
    ∷ text "telemetry.otlp_endpoint" "LOQA_TELEMETRY_OTLP_ENDPOINT"
        (λ cfg. cfg.telemetry.otlp_endpoint)
    ∷ flag "telemetry.otlp_insecure" "LOQA_TELEMETRY_OTLP_INSECURE"
        (λ cfg. cfg.telemetry.otlp_insecure)
    ∷ text "telemetry.prometheus_bind" "LOQA_TELEMETRY_PROMETHEUS_BIND"
        (λ cfg. cfg.telemetry.prometheus_bind)
    ∷ []

abbrev pub bus_settings : List Setting
bus_settings =
    flag "bus.embedded" "LOQA_BUS_EMBEDDED" (λ cfg. cfg.bus.embedded)
    ∷ number "bus.port" "LOQA_BUS_PORT" (λ cfg. cfg.bus.port)
    ∷ texts "bus.servers" "LOQA_BUS_SERVERS" (λ cfg. cfg.bus.servers)
    ∷ text "bus.username" "LOQA_BUS_USERNAME" (λ cfg. cfg.bus.username)
    ∷ text "bus.password" "LOQA_BUS_PASSWORD" (λ cfg. cfg.bus.password)
    ∷ text "bus.token" "LOQA_BUS_TOKEN" (λ cfg. cfg.bus.token)
    ∷ flag "bus.tls_insecure" "LOQA_BUS_TLS_INSECURE" (λ cfg. cfg.bus.tls_insecure)
    ∷ number "bus.connect_timeout_ms" "LOQA_BUS_CONNECT_TIMEOUT_MS" (λ cfg. cfg.bus.connect_timeout)
    ∷ []

abbrev pub node_settings : List Setting
node_settings =
    text "node.id" "LOQA_NODE_ID" (λ cfg. cfg.node.id)
    ∷ text "node.role" "LOQA_NODE_ROLE" (λ cfg. cfg.node.role)
    ∷ number "node.heartbeat_interval_ms" "LOQA_NODE_HEARTBEAT_INTERVAL_MS"
        (λ cfg. cfg.node.heartbeat_interval)
    ∷ number "node.heartbeat_timeout_ms" "LOQA_NODE_HEARTBEAT_TIMEOUT_MS"
        (λ cfg. cfg.node.heartbeat_timeout)
    ∷ []

abbrev pub event_store_settings : List Setting
event_store_settings =
    text "event_store.path" "LOQA_EVENT_STORE_PATH" (λ cfg. cfg.event_store.path)
    ∷ text "event_store.retention_mode" "LOQA_EVENT_STORE_RETENTION_MODE"
        (λ cfg. cfg.event_store.retention_mode)
    ∷ number "event_store.retention_days" "LOQA_EVENT_STORE_RETENTION_DAYS"
        (λ cfg. cfg.event_store.retention_days)
    ∷ number "event_store.max_sessions" "LOQA_EVENT_STORE_MAX_SESSIONS"
        (λ cfg. cfg.event_store.max_sessions)
    ∷ flag "event_store.vacuum_on_start" "LOQA_EVENT_STORE_VACUUM_ON_START"
        (λ cfg. cfg.event_store.vacuum_on_start)
    ∷ []

abbrev pub stt_settings : List Setting
stt_settings =
    flag "stt.enabled" "LOQA_STT_ENABLED" (λ cfg. cfg.stt.enabled)
    ∷ text "stt.mode" "LOQA_STT_MODE" (λ cfg. cfg.stt.mode)
    ∷ text "stt.command" "LOQA_STT_COMMAND" (λ cfg. cfg.stt.command)
    ∷ text "stt.model_path" "LOQA_STT_MODEL_PATH" (λ cfg. cfg.stt.model_path)
    ∷ text "stt.language" "LOQA_STT_LANGUAGE" (λ cfg. cfg.stt.language)
    ∷ number "stt.sample_rate" "LOQA_STT_SAMPLE_RATE" (λ cfg. cfg.stt.sample_rate)
    ∷ number "stt.channels" "LOQA_STT_CHANNELS" (λ cfg. cfg.stt.channels)
    ∷ number "stt.frame_duration_ms" "LOQA_STT_FRAME_DURATION_MS" (λ cfg. cfg.stt.frame_duration_ms)
    ∷ number "stt.partial_every_ms" "LOQA_STT_PARTIAL_EVERY_MS" (λ cfg. cfg.stt.partial_every_ms)
    ∷ flag "stt.publish_interim" "LOQA_STT_PUBLISH_INTERIM" (λ cfg. cfg.stt.publish_interim)
    ∷ []

abbrev pub llm_settings : List Setting
llm_settings =
    flag "llm.enabled" "LOQA_LLM_ENABLED" (λ cfg. cfg.llm.enabled)
    ∷ text "llm.mode" "LOQA_LLM_MODE" (λ cfg. cfg.llm.mode)
    ∷ text "llm.endpoint" "LOQA_LLM_ENDPOINT" (λ cfg. cfg.llm.endpoint)
    ∷ text "llm.command" "LOQA_LLM_COMMAND" (λ cfg. cfg.llm.command)
    ∷ text "llm.model_fast" "LOQA_LLM_MODEL_FAST" (λ cfg. cfg.llm.model_fast)
    ∷ text "llm.model_balanced" "LOQA_LLM_MODEL_BALANCED" (λ cfg. cfg.llm.model_balanced)
    ∷ text "llm.default_tier" "LOQA_LLM_DEFAULT_TIER" (λ cfg. cfg.llm.default_tier)
    ∷ number "llm.max_tokens" "LOQA_LLM_MAX_TOKENS" (λ cfg. cfg.llm.max_tokens)
    ∷ decimal "llm.temperature" "LOQA_LLM_TEMPERATURE" (λ cfg. cfg.llm.temperature)
    ∷ []

abbrev pub tts_settings : List Setting
tts_settings =
    flag "tts.enabled" "LOQA_TTS_ENABLED" (λ cfg. cfg.tts.enabled)
    ∷ text "tts.mode" "LOQA_TTS_MODE" (λ cfg. cfg.tts.mode)
    ∷ text "tts.command" "LOQA_TTS_COMMAND" (λ cfg. cfg.tts.command)
    ∷ text "tts.voice" "LOQA_TTS_VOICE" (λ cfg. cfg.tts.voice)
    ∷ number "tts.sample_rate" "LOQA_TTS_SAMPLE_RATE" (λ cfg. cfg.tts.sample_rate)
    ∷ number "tts.channels" "LOQA_TTS_CHANNELS" (λ cfg. cfg.tts.channels)
    ∷ number "tts.chunk_duration_ms" "LOQA_TTS_CHUNK_DURATION_MS" (λ cfg. cfg.tts.chunk_duration_ms)
    ∷ []

abbrev pub router_settings : List Setting
router_settings =
    flag "router.enabled" "LOQA_ROUTER_ENABLED" (λ cfg. cfg.router.enabled)
    ∷ text "router.default_tier" "LOQA_ROUTER_DEFAULT_TIER" (λ cfg. cfg.router.default_tier)
    ∷ text "router.default_voice" "LOQA_ROUTER_DEFAULT_VOICE" (λ cfg. cfg.router.default_voice)
    ∷ text "router.target" "LOQA_ROUTER_TARGET" (λ cfg. cfg.router.target)
    ∷ []

-- The sections of the file that have variables; those of node leave its capabilities out.
abbrev pub settings : List (List Setting)
settings =
    general_settings ∷ http_settings ∷ telemetry_settings ∷ bus_settings ∷ node_settings
    ∷ event_store_settings ∷ stt_settings ∷ llm_settings ∷ tts_settings ∷ router_settings ∷ []

-- A letter in lower case, and a dot as an underscore.
abbrev pub lowered : ℕ → ℕ
lowered c = if leb b'A' c && leb c b'Z' then c + 32 else if eqb c b'.' then b'_' else c

pub spelled : String → List ℕ
spelled String.[] = []
spelled (String.◌∷◌ c s) = lowered (code c) ∷ spelled s

-- A variable is called LOQA_ and the path, with underscores for dots. For the environment, which the
-- file has at its top, the variable says runtime.environment.
abbrev pub HasName : Setting → Type 0
HasName (text path key get) = spelled key ≡ spelled (append_text "loqa." path)
HasName (number path key get) = spelled key ≡ spelled (append_text "loqa." path)
HasName (flag path key get) = spelled key ≡ spelled (append_text "loqa." path)
HasName (texts path key get) = spelled key ≡ spelled (append_text "loqa." path)
HasName (decimal path key get) = spelled key ≡ spelled (append_text "loqa." path)

-- Every variable has the name of its setting.
pub settings-HasName : All (All HasName) settings
unfolding spelled
settings-HasName = (
  (refl, (refl, tt)),
  (
    (refl, (refl, tt)),
    (
      (refl, (refl, (refl, (refl, tt)))),
      (
        (refl, (refl, (refl, (refl, (refl, (refl, (refl, (refl, tt)))))))),
        (
          (refl, (refl, (refl, (refl, tt)))),
          (
            (refl, (refl, (refl, (refl, (refl, tt))))),
            (
              (refl, (refl, (refl, (refl, (refl, (refl, (refl, (refl, (refl, (refl, tt)))))))))),
              (
                (refl, (refl, (refl, (refl, (refl, (refl, (refl, (refl, (refl, tt))))))))),
                (
                  (refl, (refl, (refl, (refl, (refl, (refl, (refl, tt))))))),
                  ((refl, (refl, (refl, (refl, tt)))), tt),
                ),
              ),
            ),
          ),
        ),
      ),
    ),
  ),
)
