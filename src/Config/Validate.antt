-- ===== src/Config/Validate.antt =====
-- internal/config/config.go, validate: the checks in their order. The result is the error, if there
-- is one. The function takes the configuration by value, so that the defaults which it writes to the
-- router's settings at its end reach nobody, and are left out.
use loqa_core.Base.{
  String, ◌==◌, Bool, not, ◌&&◌, ◌||◌, Option, none, some, is_empty, ℤ, pos, int_leb, int_ltb,
  if◌then◌else◌,
}
use loqa_core.Config.Types.{
  BusConfig, NodeConfig, EventStoreConfig, SttConfig, LlmConfig, TtsConfig, SkillsConfig, Config,
}

-- A check, and the checks after it.
abbrev pub refuse : Bool → String → Option String → Option String
refuse bad message rest = if bad then some message else rest

abbrev pub or_else : Option String → Option String → Option String
or_else none rest = rest
or_else (some message) rest = some message

abbrev pub is_no_port : ℤ → Bool
is_no_port port = int_leb port (pos 0) || int_ltb (pos 65535) port

unfoldable pub check_bus : BusConfig → Option String
check_bus cfg =
    if cfg.embedded
    then refuse (is_no_port cfg.port)
        "bus.port must be between 1 and 65535 when embedded mode is enabled" none
    else refuse (is_empty cfg.servers)
        "bus.servers must not be empty when embedded mode is disabled" none

unfoldable pub check_node : NodeConfig → Option String
check_node cfg = refuse (cfg.id == "") "node.id must not be empty" (
    refuse (int_leb cfg.heartbeat_interval (pos 0)) "node.heartbeat_interval_ms must be positive" (
      refuse (int_leb cfg.heartbeat_timeout cfg.heartbeat_interval)
        "node.heartbeat_timeout_ms must be greater than heartbeat interval"
        (refuse (is_empty cfg.capabilities) "node.capabilities must not be empty" none)))

abbrev pub is_retention_mode : String → Bool
is_retention_mode mode = (mode == "ephemeral") || (mode == "session") || (mode == "persistent")

unfoldable pub check_event_store : EventStoreConfig → Option String
check_event_store cfg = refuse (cfg.path == "") "event_store.path must not be empty" (
    refuse (not (is_retention_mode cfg.retention_mode))
      "event_store.retention_mode must be one of ephemeral|session|persistent"
      (refuse (int_ltb cfg.retention_days (pos 0)) "event_store.retention_days must be >= 0" none))

unfoldable pub check_skills : SkillsConfig → Option String
check_skills cfg =
    or_else
      (if cfg.enabled
        then refuse (cfg.directory == "")
            "skills.directory must not be empty when skills are enabled"
            (refuse (int_leb cfg.concurrency (pos 0)) "skills.max_concurrency must be >= 1" none)
        else none)
      (refuse (cfg.audit_privacy == "") "skills.audit_privacy_scope must not be empty" none)

unfoldable pub check_stt : SttConfig → Option String
check_stt cfg =
    if cfg.enabled
    then refuse (int_leb cfg.sample_rate (pos 0)) "stt.sample_rate must be positive" (
        refuse (int_leb cfg.channels (pos 0)) "stt.channels must be positive" (
          refuse ((cfg.mode == "exec") && (cfg.command == ""))
            "stt.command must be set when mode=exec" none))
    else none

unfoldable pub check_llm : LlmConfig → Option String
check_llm cfg =
    if cfg.enabled
    then refuse (not ((cfg.mode == "mock") || (cfg.mode == "ollama") || (cfg.mode == "exec")))
        "llm.mode must be one of mock|ollama|exec"
        (refuse ((cfg.mode == "ollama") && (cfg.endpoint == ""))
          "llm.endpoint must be set when mode=ollama"
          (refuse ((cfg.mode == "exec") && (cfg.command == ""))
            "llm.command must be set when mode=exec"
            (refuse (int_ltb cfg.max_tokens (pos 0)) "llm.max_tokens must be >= 0" none)))
    else none

unfoldable pub check_tts : TtsConfig → Option String
check_tts cfg =
    if cfg.enabled
    then refuse (not ((cfg.mode == "mock") || (cfg.mode == "exec")))
        "tts.mode must be one of mock|exec"
        (refuse ((cfg.mode == "exec") && (cfg.command == ""))
          "tts.command must be set when mode=exec"
          (refuse (int_leb cfg.sample_rate (pos 0)) "tts.sample_rate must be positive"
            (refuse (int_leb cfg.channels (pos 0)) "tts.channels must be positive" none)))
    else none

unfoldable pub validate : Config → Option String
validate cfg = refuse (cfg.runtime_name == "") "runtime_name must not be empty" (
    refuse (is_no_port cfg.http.port) "http.port must be between 1 and 65535" (
      or_else (check_bus cfg.bus) (
        or_else (check_node cfg.node) (
          or_else (check_event_store cfg.event_store) (
            refuse (cfg.telemetry.prometheus_bind == "")
              "telemetry.prometheus_bind must not be empty"
              (or_else (check_skills cfg.skills) (
                or_else (check_stt cfg.stt) (or_else (check_llm cfg.llm) (check_tts cfg.tts)))))))))
