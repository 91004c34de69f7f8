-- ===== src/Config/Examples.antt =====
-- internal/config/config.go: the defaults pass the checks, and the theorems at concrete inputs.
use loqa_core.Base.{
  ◌≡◌, ◌↔◌, refl, String, ◌==◌, Option, none, some, [], ◌∷◌, All, pos, negsuc, false, Float64,
  arith, if◌then◌else◌,
}
use loqa_core.Config.Types.{Config}
use loqa_core.Config.Values.{trim_left, trim_right, split_commas, scan, atoi, parse_bool}
use loqa_core.Config.Loading.{
  Env, File, content, not_found, Decoder, override_string, override_int, override_bool,
  override_string_slice, override_float, apply_env_overrides, load,
}
use loqa_core.Config.Precedence.{IsRead, load_lem}
use loqa_core.Config.Settings.{settings, HasName}
use loqa_core.Config.Overrides.{IsOverridden}
use loqa_core.Config.Decimal.{format_int, override_int-format_int}
use loqa_core.Config.Servers.{IsPart, override_string_slice-join_commas}
use loqa_core.Config.Defaults.{default_config}
use loqa_core.Config.Validate.{
  validate, check_bus, check_node, check_event_store, check_skills, check_stt, check_llm, check_tts,
}
use loqa_core.Config.Accepted.{IsAccepted, validate_iff}

defaults_pass : validate default_config ≡ none
unfolding validate check_bus check_node check_event_store check_skills check_stt check_llm check_tts
defaults_pass = refl

validate_iff_example : (validate default_config ≡ none) ↔ IsAccepted default_config
validate_iff_example = validate_iff default_config

-- A file that is decoded to the defaults, a port and servers from the environment, and no floats.
abbrev disk : String → File
disk path = if path == "loqa.yaml" then content "" else not_found

abbrev unmarshal : Decoder
unmarshal text cfg = (cfg, none)

abbrev no_float : String → Option Float64
no_float value = none

abbrev variables : Env
variables key =
    if key == "LOQA_HTTP_PORT"
    then some "9000"
    else if key == "LOQA_BUS_SERVERS"
    then some " nats://a:1 , ,nats://b:2"
    else if key == "LOQA_BUS_EMBEDDED"
    then some "False"
    else if key == "LOQA_LLM_MAX_TOKENS"
    then some "12x"
    else if key == "LOQA_NODE_ID"
    then some "  "
    else none

abbrev overridden : Config
overridden = record default_config {
  http = record default_config.http { port = pos 9000 };
  bus = record default_config.bus { embedded = false; servers = "nats://a:1" ∷ "nats://b:2" ∷ [] };
}

overridden_loads : load disk unmarshal no_float variables "loqa.yaml" ≡ (overridden, none)
unfolding load apply_env_overrides override_string override_int override_bool override_string_slice
    override_float trim_left trim_right split_commas scan atoi parse_bool validate check_bus
    check_node check_event_store check_skills check_stt check_llm check_tts
overridden_loads = refl

ranges :
    (atoi "-9223372036854775808" ≡ some (negsuc 9223372036854775807))
    × (atoi "9223372036854775808" ≡ none)
    × (atoi "+007" ≡ some (pos 7))
    × (atoi "" ≡ none)
    × (atoi "1_000" ≡ none)
unfolding atoi scan
ranges = (refl, refl, refl, refl, refl)

missing_file :
    load disk unmarshal no_float variables "other.yaml"
    ≡ (default_config, some "config file not found")
unfolding load
missing_file = refl

load_lem_example :
    let (cfg, error) = load disk unmarshal no_float variables "loqa.yaml" in
    ((error ≡ none) ↔ ((base : Config) × IsRead disk unmarshal "loqa.yaml" base × IsAccepted cfg))
    × ((base : Config)
        → IsRead disk unmarshal "loqa.yaml" base
        → All (All (IsOverridden no_float variables base cfg)) settings
          × (cfg.node.capabilities ≡ base.node.capabilities)
          × (cfg.skills ≡ base.skills))
    × All (All HasName) settings
load_lem_example = load_lem disk unmarshal no_float variables "loqa.yaml"

override_int-format_int_example :
    override_int (λ key. some (format_int (negsuc 41))) "LOQA_LLM_MAX_TOKENS" (pos 256) ≡ negsuc 41
override_int-format_int_example =
    override_int-format_int (λ key. some (format_int (negsuc 41))) "LOQA_LLM_MAX_TOKENS" (negsuc 41)
      (pos 256) (omega arith) refl

two_parts : All IsPart ("nats://a:1" ∷ "nats://b:2" ∷ [])
unfolding trim_left trim_right
two_parts = ((omega arith, cc, refl), ((omega arith, cc, refl), tt))

override_string_slice-join_commas_example :
    override_string_slice (λ key. some "nats://a:1,nats://b:2") "LOQA_BUS_SERVERS" []
    ≡ "nats://a:1" ∷ "nats://b:2" ∷ []
override_string_slice-join_commas_example =
    override_string_slice-join_commas (λ key. some "nats://a:1,nats://b:2") "LOQA_BUS_SERVERS"
      "nats://a:1" ("nats://b:2" ∷ []) [] two_parts refl
