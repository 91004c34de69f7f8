-- ===== src/Config/Accepted.antt =====
-- internal/config/config.go, validate: which configurations pass.
use loqa_core.Base.{
  ◌≡◌, ◌≢◌, ◌↔◌, refl, String, ◌==◌, eq_iff, Bool, true, false, not, ◌&&◌, ◌||◌, Option, none, some,
  List, [], ◌∷◌, is_empty, ℤ, pos, ◌<ℤ◌, ◌≤ℤ◌, int_leb, int_ltb, if◌then◌else◌, Bool-cases, inl,
  inr, arith,
}
use loqa_core.Config.Types.{
  BusConfig, NodeConfig, EventStoreConfig, SttConfig, LlmConfig, TtsConfig, SkillsConfig, Config,
}
use loqa_core.Config.Validate.{
  refuse, or_else, is_no_port, check_bus, check_node, is_retention_mode, check_event_store,
  check_skills, check_stt, check_llm, check_tts, validate,
}

abbrev pub IsPort : ℤ → Type 0
IsPort port = (pos 0 <ℤ port) × (port ≤ℤ pos 65535)

abbrev pub IsSoundBus : BusConfig → Type 0
IsSoundBus cfg = (cfg.embedded ≡ true → IsPort cfg.port) × (cfg.embedded ≡ false → cfg.servers ≢ [])

-- The heartbeats come faster than a node is given up.
abbrev pub IsSoundNode : NodeConfig → Type 0
IsSoundNode cfg =
    (cfg.id ≢ "")
    × ((pos 0 <ℤ cfg.heartbeat_interval)
        × ((cfg.heartbeat_interval <ℤ cfg.heartbeat_timeout) × (cfg.capabilities ≢ [])))

abbrev pub IsSoundStore : EventStoreConfig → Type 0
IsSoundStore cfg =
    (cfg.path ≢ "")
    × ((is_retention_mode cfg.retention_mode ≡ true) × (pos 0 ≤ℤ cfg.retention_days))

abbrev pub IsSoundSkills : SkillsConfig → Type 0
IsSoundSkills cfg =
    (cfg.enabled ≡ true → (cfg.directory ≢ "") × (pos 0 <ℤ cfg.concurrency))
    × (cfg.audit_privacy ≢ "")

-- A command is there where a mode runs one.
abbrev pub HasCommand : String → String → Type 0
HasCommand mode command = mode ≡ "exec" → command ≢ ""

abbrev pub IsSoundStt : SttConfig → Type 0
IsSoundStt cfg =
    cfg.enabled ≡ true
    → (pos 0 <ℤ cfg.sample_rate) × ((pos 0 <ℤ cfg.channels) × HasCommand cfg.mode cfg.command)

abbrev pub IsSoundLlm : LlmConfig → Type 0
IsSoundLlm cfg =
    cfg.enabled ≡ true
    → (((cfg.mode == "mock") || (cfg.mode == "ollama") || (cfg.mode == "exec")) ≡ true)
      × ((cfg.mode ≡ "ollama" → cfg.endpoint ≢ "")
          × (HasCommand cfg.mode cfg.command × (pos 0 ≤ℤ cfg.max_tokens)))

abbrev pub IsSoundTts : TtsConfig → Type 0
IsSoundTts cfg =
    cfg.enabled ≡ true
    → (((cfg.mode == "mock") || (cfg.mode == "exec")) ≡ true)
      × (HasCommand cfg.mode cfg.command × ((pos 0 <ℤ cfg.sample_rate) × (pos 0 <ℤ cfg.channels)))

refuse_iff :
    {P Q : Type 0} (bad : Bool) (message : String) (rest : Option String)
    → ((bad ≡ false) ↔ P)
    → ((rest ≡ none) ↔ Q)
    → (refuse bad message rest ≡ none) ↔ (P × Q)
refuse_iff true message rest h k =
    (λ e. absurd (ground (arith, e)), λ e. absurd (ground (arith, h.1 e.0)))
refuse_iff false message rest h k = (λ e. (h.0 refl, k.0 e), λ e. k.1 e.1)

last_iff :
    {P : Type 0} (bad : Bool) (message : String)
    → ((bad ≡ false) ↔ P)
    → (refuse bad message none ≡ none) ↔ P
last_iff true message h = (λ e. absurd (ground (arith, e)), λ p. absurd (ground (arith, h.1 p)))
last_iff false message h = (λ e. h.0 refl, λ e. refl)

or_else_iff :
    {P Q : Type 0} (a b : Option String)
    → ((a ≡ none) ↔ P)
    → ((b ≡ none) ↔ Q)
    → (or_else a b ≡ none) ↔ (P × Q)
or_else_iff none b h k = (λ e. (h.0 refl, k.0 e), λ e. k.1 e.1)
or_else_iff (some m) b h k =
    (λ e. absurd (ground (arith, e)), λ e. absurd (ground (arith, h.1 e.0)))

when_iff :
    {P : Type 0} (enabled : Bool) (o : Option String)
    → ((o ≡ none) ↔ P)
    → ((if enabled then o else none) ≡ none) ↔ (enabled ≡ true → P)
when_iff true o h = (λ e on. h.0 e, λ f. h.1 (f refl))
when_iff false o h = (λ e on. absurd (ground (arith, on)), λ f. refl)

text_iff : (text other : String) → ((text == other) ≡ false) ↔ (text ≢ other)
text_iff text other = (
  λ e same. ground (arith, e, same, eq_iff text other),
  λ differ. ground (arith, differ, eq_iff text other),
)

pub list_iff {ℓ} : {A : Type ℓ} (xs : List A) → (is_empty xs ≡ false) ↔ (xs ≢ [])
list_iff [] = (λ e same. ground (arith, e), λ differ. absurd (differ refl))
list_iff (x ∷ xs) = (λ e same. ground (arith, same), λ differ. refl)

not_iff : (b : Bool) → (not b ≡ false) ↔ (b ≡ true)
not_iff true = (λ e. refl, λ e. refl)
not_iff false = (λ e. absurd (ground (arith, e)), λ e. absurd (ground (arith, e)))

leb_iff : (a b : ℤ) → (int_leb a b ≡ false) ↔ (b <ℤ a)
leb_iff a b = (λ e. ground (arith, e), λ h. ground (arith, h))

ltb_iff : (a b : ℤ) → (int_ltb a b ≡ false) ↔ (b ≤ℤ a)
ltb_iff a b = (λ e. ground (arith, e), λ h. ground (arith, h))

is_no_port_lem : (port : ℤ) → (is_no_port port ≡ false) ↔ IsPort port
is_no_port_lem port = (λ e. (ground (arith, e), ground (arith, e)), λ h. ground (arith, h.0, h.1))

command_iff :
    (mode kind command : String)
    → (((mode == kind) && (command == "")) ≡ false) ↔ (mode ≡ kind → command ≢ "")
command_iff mode kind command = (
  λ e is empty. ground (arith, e, is, empty, eq_iff mode kind, eq_iff command ""),
  λ h. elim (Bool-cases (mode == kind)) [
    | inl is ↦
        ground (arith, is, (text_iff command "").1 (h (ground (arith, is, eq_iff mode kind))))
    | inr differs ↦ rw differs refl
  ],
)

check_bus_iff : (cfg : BusConfig) → (check_bus cfg ≡ none) ↔ IsSoundBus cfg
unfolding check_bus
check_bus_iff cfg = elim (Bool-cases cfg.embedded) [
  | inl e ↦
      let ports =
        last_iff _ "bus.port must be between 1 and 65535 when embedded mode is enabled"
          (is_no_port_lem cfg.port) in
      rw e (λ ok. (λ on. ports.0 ok, λ off. absurd (ground (arith, off))), λ h. ports.1 (h.0 refl))
  | inr e ↦
      let servers =
        last_iff _ "bus.servers must not be empty when embedded mode is disabled"
          (list_iff cfg.servers) in
      rw e
        (λ ok. (λ on. absurd (ground (arith, on)), λ off. servers.0 ok), λ h. servers.1 (h.1 refl))
]

check_node_iff : (cfg : NodeConfig) → (check_node cfg ≡ none) ↔ IsSoundNode cfg
unfolding check_node
check_node_iff cfg = refuse_iff _ _ _ (text_iff cfg.id "") (
    refuse_iff _ _ _ (leb_iff cfg.heartbeat_interval (pos 0)) (
      refuse_iff _ _ _ (leb_iff cfg.heartbeat_timeout cfg.heartbeat_interval)
        (last_iff _ _ (list_iff cfg.capabilities))))

check_event_store_iff : (cfg : EventStoreConfig) → (check_event_store cfg ≡ none) ↔ IsSoundStore cfg
unfolding check_event_store
check_event_store_iff cfg = refuse_iff _ _ _ (text_iff cfg.path "") (
    refuse_iff _ _ _ (not_iff (is_retention_mode cfg.retention_mode))
      (last_iff _ _ (ltb_iff cfg.retention_days (pos 0))))

check_skills_iff : (cfg : SkillsConfig) → (check_skills cfg ≡ none) ↔ IsSoundSkills cfg
unfolding check_skills
check_skills_iff cfg =
    or_else_iff _ _
      (when_iff cfg.enabled _ (
        refuse_iff _ _ _ (text_iff cfg.directory "")
          (last_iff _ _ (leb_iff cfg.concurrency (pos 0)))))
      (last_iff _ _ (text_iff cfg.audit_privacy ""))

check_stt_iff : (cfg : SttConfig) → (check_stt cfg ≡ none) ↔ IsSoundStt cfg
unfolding check_stt
check_stt_iff cfg = when_iff cfg.enabled _ (
    refuse_iff _ _ _ (leb_iff cfg.sample_rate (pos 0)) (
      refuse_iff _ _ _ (leb_iff cfg.channels (pos 0))
        (last_iff _ _ (command_iff cfg.mode "exec" cfg.command))))

check_llm_iff : (cfg : LlmConfig) → (check_llm cfg ≡ none) ↔ IsSoundLlm cfg
unfolding check_llm
check_llm_iff cfg = when_iff cfg.enabled _ (
    refuse_iff _ _ _ (not_iff _) (
      refuse_iff _ _ _ (command_iff cfg.mode "ollama" cfg.endpoint) (
        refuse_iff _ _ _ (command_iff cfg.mode "exec" cfg.command)
          (last_iff _ _ (ltb_iff cfg.max_tokens (pos 0))))))

check_tts_iff : (cfg : TtsConfig) → (check_tts cfg ≡ none) ↔ IsSoundTts cfg
unfolding check_tts
check_tts_iff cfg = when_iff cfg.enabled _ (
    refuse_iff _ _ _ (not_iff _) (
      refuse_iff _ _ _ (command_iff cfg.mode "exec" cfg.command) (
        refuse_iff _ _ _ (leb_iff cfg.sample_rate (pos 0))
          (last_iff _ _ (leb_iff cfg.channels (pos 0))))))

-- The whole configuration.
abbrev pub IsAccepted : Config → Type 0
IsAccepted cfg =
    (cfg.runtime_name ≢ "")
    × (IsPort cfg.http.port
        × (IsSoundBus cfg.bus
            × (IsSoundNode cfg.node
                × (IsSoundStore cfg.event_store
                    × ((cfg.telemetry.prometheus_bind ≢ "")
                        × (IsSoundSkills cfg.skills
                            × (IsSoundStt cfg.stt × (IsSoundLlm cfg.llm × IsSoundTts cfg.tts))))))))

-- A configuration passes the checks if and only if each of its parts is sound: it has a name; its
-- HTTP port is from 1 to 65535, and so is the bus's if that is embedded, which else has servers;
-- heartbeats are positive and come faster than the timeout, and the node has an id and a
-- capability; the store has a path, one of three modes and days that are not negative; there are
-- an address for the metrics and a scope for audits; and the services and the skills, where they
-- are enabled, have the rates, modes, commands, limits and directory that they need.
pub validate_iff : (cfg : Config) → (validate cfg ≡ none) ↔ IsAccepted cfg
unfolding validate
validate_iff cfg = refuse_iff _ _ _ (text_iff cfg.runtime_name "") (
    refuse_iff _ _ _ (is_no_port_lem cfg.http.port) (
      or_else_iff _ _ (check_bus_iff cfg.bus) (
        or_else_iff _ _ (check_node_iff cfg.node) (
          or_else_iff _ _ (check_event_store_iff cfg.event_store) (
            refuse_iff _ _ _ (text_iff cfg.telemetry.prometheus_bind "") (
              or_else_iff _ _ (check_skills_iff cfg.skills) (
                or_else_iff _ _ (check_stt_iff cfg.stt)
                  (or_else_iff _ _ (check_llm_iff cfg.llm) (check_tts_iff cfg.tts)))))))))
