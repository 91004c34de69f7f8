-- ===== src/Config/Overrides.antt =====
-- internal/config/config.go, applyEnvOverrides: what each variable makes of its setting.
use loqa_core.Base.{◌≡◌, refl, ap, String, Option, none, some, List, All, Float64}
use loqa_core.Config.Types.{Config}
use loqa_core.Config.Values.{split_commas, atoi, parse_bool}
use loqa_core.Config.Loading.{
  Env, replace, read, unless_blank, unless_empty, trimmed, override_string, override_int,
  override_bool, override_string_slice, override_float, apply_env_overrides,
}
use loqa_core.Config.Settings.{
  Setting, text, number, flag, texts, decimal, settings, general_settings, http_settings,
  telemetry_settings, bus_settings, node_settings, event_store_settings, stt_settings, llm_settings,
  tts_settings, router_settings,
}

-- What becomes of a setting: it stays where the variable is not set or is not read, and else is what the
-- variable is read as.
abbrev pub Takes {ℓ} : {A : Type ℓ} → (String → Option A) → Option String → A → A → Type ℓ
Takes parse none before after = after ≡ before
Takes {A = A} parse (some value) before after =
    (parse value ≡ none → after ≡ before) × ((a : A) → parse value ≡ some a → after ≡ a)

takes {ℓ} :
    {A : Type ℓ} (parse : String → Option A) (value : Option String) (before : A)
    → Takes parse value before (replace (read parse value) before)
takes parse none before = refl
takes parse (some value) before =
    (λ e. ap (λ o. replace o before) e, λ a e. ap (λ o. replace o before) e)

abbrev pub IsOverridden : (String → Option Float64) → Env → Config → Config → Setting → Type 0
IsOverridden parse_float env before after (text path key get) =
    Takes unless_blank (env key) (get before) (get after)
IsOverridden parse_float env before after (number path key get) =
    Takes atoi (env key) (get before) (get after)
IsOverridden parse_float env before after (flag path key get) =
    Takes parse_bool (env key) (get before) (get after)
IsOverridden parse_float env before after (texts path key get) =
    Takes (λ value. unless_empty (trimmed (split_commas value))) (env key) (get before) (get after)
IsOverridden parse_float env before after (decimal path key get) =
    Takes parse_float (env key) (get before) (get after)

module _ (parse_float : String → Option Float64) (env : Env) (cfg : Config) where
  abbrev pub AllOverridden : List Setting → Type 0
  AllOverridden = All (IsOverridden parse_float env cfg (apply_env_overrides parse_float env cfg))

  general-IsOverridden : AllOverridden general_settings
  unfolding apply_env_overrides override_string override_int override_bool override_string_slice
      override_float
  general-IsOverridden =
      (takes _ (env "LOQA_RUNTIME_NAME") _, (takes _ (env "LOQA_RUNTIME_ENVIRONMENT") _, tt))

  http-IsOverridden : AllOverridden http_settings
  unfolding apply_env_overrides override_string override_int override_bool override_string_slice
      override_float
  http-IsOverridden = (takes _ (env "LOQA_HTTP_BIND") _, (takes _ (env "LOQA_HTTP_PORT") _, tt))

  telemetry-IsOverridden : AllOverridden telemetry_settings
  unfolding apply_env_overrides override_string override_int override_bool override_string_slice
      override_float
  telemetry-IsOverridden = (
    takes _ (env "LOQA_TELEMETRY_LOG_LEVEL") _,
    (
      takes _ (env "LOQA_TELEMETRY_OTLP_ENDPOINT") _,
      (
        takes _ (env "LOQA_TELEMETRY_OTLP_INSECURE") _,
        (takes _ (env "LOQA_TELEMETRY_PROMETHEUS_BIND") _, tt),
      ),
    ),
  )

  bus-IsOverridden : AllOverridden bus_settings
  unfolding apply_env_overrides override_string override_int override_bool override_string_slice
      override_float
  bus-IsOverridden = (
    takes _ (env "LOQA_BUS_EMBEDDED") _,
    (
      takes _ (env "LOQA_BUS_PORT") _,
      (
        takes _ (env "LOQA_BUS_SERVERS") _,
        (
          takes _ (env "LOQA_BUS_USERNAME") _,
          (
            takes _ (env "LOQA_BUS_PASSWORD") _,
            (
              takes _ (env "LOQA_BUS_TOKEN") _,
              (
                takes _ (env "LOQA_BUS_TLS_INSECURE") _,
                (takes _ (env "LOQA_BUS_CONNECT_TIMEOUT_MS") _, tt),
              ),
            ),
          ),
        ),
      ),
    ),
  )

  node-IsOverridden : AllOverridden node_settings
  unfolding apply_env_overrides override_string override_int override_bool override_string_slice
      override_float
  node-IsOverridden = (
    takes _ (env "LOQA_NODE_ID") _,
    (
      takes _ (env "LOQA_NODE_ROLE") _,
      (
        takes _ (env "LOQA_NODE_HEARTBEAT_INTERVAL_MS") _,
        (takes _ (env "LOQA_NODE_HEARTBEAT_TIMEOUT_MS") _, tt),
      ),
    ),
  )

  event_store-IsOverridden : AllOverridden event_store_settings
  unfolding apply_env_overrides override_string override_int override_bool override_string_slice
      override_float
  event_store-IsOverridden = (
    takes _ (env "LOQA_EVENT_STORE_PATH") _,
    (
      takes _ (env "LOQA_EVENT_STORE_RETENTION_MODE") _,
      (
        takes _ (env "LOQA_EVENT_STORE_RETENTION_DAYS") _,
        (
          takes _ (env "LOQA_EVENT_STORE_MAX_SESSIONS") _,
          (takes _ (env "LOQA_EVENT_STORE_VACUUM_ON_START") _, tt),
        ),
      ),
    ),
  )

  stt-IsOverridden : AllOverridden stt_settings
  unfolding apply_env_overrides override_string override_int override_bool override_string_slice
      override_float
  stt-IsOverridden = (
    takes _ (env "LOQA_STT_ENABLED") _,
    (
      takes _ (env "LOQA_STT_MODE") _,
      (
        takes _ (env "LOQA_STT_COMMAND") _,
        (
          takes _ (env "LOQA_STT_MODEL_PATH") _,
          (
            takes _ (env "LOQA_STT_LANGUAGE") _,
            (
              takes _ (env "LOQA_STT_SAMPLE_RATE") _,
              (
                takes _ (env "LOQA_STT_CHANNELS") _,
                (
                  takes _ (env "LOQA_STT_FRAME_DURATION_MS") _,
                  (
                    takes _ (env "LOQA_STT_PARTIAL_EVERY_MS") _,
                    (takes _ (env "LOQA_STT_PUBLISH_INTERIM") _, tt),
                  ),
                ),
              ),
            ),
          ),
        ),
      ),
    ),
  )

  llm-IsOverridden : AllOverridden llm_settings
  unfolding apply_env_overrides override_string override_int override_bool override_string_slice
      override_float
  llm-IsOverridden = (
    takes _ (env "LOQA_LLM_ENABLED") _,
    (
      takes _ (env "LOQA_LLM_MODE") _,
      (
        takes _ (env "LOQA_LLM_ENDPOINT") _,
        (
          takes _ (env "LOQA_LLM_COMMAND") _,
          (
            takes _ (env "LOQA_LLM_MODEL_FAST") _,
            (
              takes _ (env "LOQA_LLM_MODEL_BALANCED") _,
              (
                takes _ (env "LOQA_LLM_DEFAULT_TIER") _,
                (
                  takes _ (env "LOQA_LLM_MAX_TOKENS") _,
                  (takes _ (env "LOQA_LLM_TEMPERATURE") _, tt),
                ),
              ),
            ),
          ),
        ),
      ),
    ),
  )

  tts-IsOverridden : AllOverridden tts_settings
  unfolding apply_env_overrides override_string override_int override_bool override_string_slice
      override_float
  tts-IsOverridden = (
    takes _ (env "LOQA_TTS_ENABLED") _,
    (
      takes _ (env "LOQA_TTS_MODE") _,
      (
        takes _ (env "LOQA_TTS_COMMAND") _,
        (
          takes _ (env "LOQA_TTS_VOICE") _,
          (
            takes _ (env "LOQA_TTS_SAMPLE_RATE") _,
            (
              takes _ (env "LOQA_TTS_CHANNELS") _,
              (takes _ (env "LOQA_TTS_CHUNK_DURATION_MS") _, tt),
            ),
          ),
        ),
      ),
    ),
  )

  router-IsOverridden : AllOverridden router_settings
  unfolding apply_env_overrides override_string override_int override_bool override_string_slice
      override_float
  router-IsOverridden = (
    takes _ (env "LOQA_ROUTER_ENABLED") _,
    (
      takes _ (env "LOQA_ROUTER_DEFAULT_TIER") _,
      (takes _ (env "LOQA_ROUTER_DEFAULT_VOICE") _, (takes _ (env "LOQA_ROUTER_TARGET") _, tt)),
    ),
  )

  -- The overrides give each setting its variable's value, and leave the others as they are.
  pub settings-IsOverridden :
      All
        (All (IsOverridden parse_float env cfg (apply_env_overrides parse_float env cfg)))
        settings
  settings-IsOverridden = (
    general-IsOverridden,
    (
      http-IsOverridden,
      (
        telemetry-IsOverridden,
        (
          bus-IsOverridden,
          (
            node-IsOverridden,
            (
              event_store-IsOverridden,
              (stt-IsOverridden, (llm-IsOverridden, (tts-IsOverridden, (router-IsOverridden, tt)))),
            ),
          ),
        ),
      ),
    ),
  )

  pub overrides_keep :
      ((apply_env_overrides parse_float env cfg).node.capabilities ≡ cfg.node.capabilities)
      × ((apply_env_overrides parse_float env cfg).skills ≡ cfg.skills)
  unfolding apply_env_overrides
  overrides_keep = (refl, refl)
