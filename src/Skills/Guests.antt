-- ===== src/Skills/Guests.antt =====
-- skills/examples: the timer and the smart home bridge as what they ask of their host, with
-- skills/examples/internal/host/host.go. JSON is left out: a payload is what it decodes to, or the message
-- that is encoded. The texts of the log are left out too, except whether there is one.
use loqa_core.Base.{
  ℕ, String, append_text, ◌==◌, true, false, ◌||◌, Option, none, some, List, [], ◌∷◌, ◌++◌, ℤ, pos,
  negsuc, int_leb, if◌then◌else◌, ◌/◌, suc,
}
use loqa_core.Skills.Package.{Manifest}

-- Go's division of an int by 1000, towards zero.
abbrev pub seconds_of : ℤ → ℤ
seconds_of (pos n) = pos (n / 1000)
seconds_of (negsuc n) = negated (suc n / 1000)
  where
    negated : ℕ → ℤ
    negated ℕ.zero = pos 0
    negated (suc k) = negsuc k

pub record TimerRequest : Type 0 where
  pub duration_ms : ℤ
  pub label : String

pub record Intent : Type 0 where
  pub room : String
  pub device : String
  pub action : String
  pub payload : String

-- What a skill publishes.
pub data GuestMessage : Type 0 where
  timer_status : String → String → ℤ → GuestMessage
  speech_text : String → GuestMessage
  home_status : Intent → GuestMessage

-- host.Log and host.Publish on the host's functions.
pub data GuestCall : Type 0 where
  logs : GuestCall
  publishes : String → GuestMessage → GuestCall

abbrev pub report_status : String → String → ℤ → GuestCall
report_status label state seconds =
    publishes "skill.timer.status" (timer_status label state seconds)

abbrev pub announce_completion : String → GuestCall
announce_completion label =
    publishes "tts.request" (speech_text (append_text label " timer complete"))

abbrev pub label_or_timer : String → String
label_or_timer label = if label == "" then "timer" else label

abbrev pub run_timer : String → ℤ → List GuestCall
run_timer label duration =
    report_status label "started" (seconds_of duration)
    ∷ logs
    ∷ report_status label "completed" (pos 0)
    ∷ logs
    ∷ announce_completion label
    ∷ []

unfoldable pub handle_start : (String → Option TimerRequest) → String → List GuestCall
handle_start decode payload = if payload == "" then logs ∷ [] else elim (decode payload) [
  | none ↦ logs ∷ []
  | some req ↦
      if int_leb req.duration_ms (pos 0)
      then logs ∷ []
      else run_timer (label_or_timer req.label) req.duration_ms
]

-- The subject and the payload are variables of the module's environment, empty where they are not set.
unfoldable pub timer_run : (String → Option TimerRequest) → String → String → List GuestCall
timer_run decode subject payload =
    logs ∷ (if subject == "skill.timer.start" then handle_start decode payload else logs ∷ [])

abbrev pub when_blank : String → List GuestCall
when_blank value = if value == "" then logs ∷ [] else []

abbrev pub send_status : Intent → GuestCall
send_status st = publishes "skill.home.status" (home_status st)

unfoldable pub forward : Option Intent → List GuestCall
forward none = logs ∷ []
forward (some cmd) =
    if (cmd.action == "") || (cmd.device == "")
    then logs ∷ []
    else logs ∷ logs ∷ logs ∷ send_status cmd ∷ []

-- The endpoint and the token are variables of the environment.
unfoldable pub smart_home_run : (String → Option Intent) → String → String → String → List GuestCall
smart_home_run decode endpoint token payload =
    logs
    ∷ (when_blank endpoint
        ++ when_blank token
        ++ (if payload == "" then logs ∷ [] else forward (decode payload)))

-- skills/examples/timer/skill.yaml and skills/examples/smart-home/skill.yaml.
abbrev pub timer_manifest : Manifest
timer_manifest = record {
  metadata = record {
    name = "timer";
    version = "0.1.0";
    description = "Simple countdown timer skill that announces when time elapses.";
    author = "Loqa Labs";
    tags = [];
  };
  runtime = record {
    mode = "wasm";
    entry_module = "build/timer.wasm";
    entrypoint = "run";
    host_version = "v1";
  };
  capabilities = record {
    bus = record {
      publish = "tts.request" ∷ "skill.timer.status" ∷ [];
      subscribe = "skill.timer.start" ∷ "skill.timer.cancel" ∷ [];
    };
    storage = record { kv = false };
    timers = true;
  };
  permissions = "event_store:read" ∷ "bus:publish" ∷ [];
  surfaces = record { voice = true; display = false; automations = true };
}

abbrev pub smart_home_manifest : Manifest
smart_home_manifest = record {
  metadata = record {
    name = "smart-home-bridge";
    version = "0.1.0";
    description = "Bridges Loqa intents to a local Home Assistant instance.";
    author = "Loqa Labs";
    tags = [];
  };
  runtime = record {
    mode = "wasm";
    entry_module = "build/smart-home.wasm";
    entrypoint = "run";
    host_version = "v1";
  };
  capabilities = record {
    bus = record { publish = "skill.home.status" ∷ []; subscribe = "skill.home.command" ∷ [] };
    storage = record { kv = true };
    timers = false;
  };
  permissions = "http:call" ∷ "bus:publish" ∷ "bus:subscribe" ∷ [];
  surfaces = record { voice = true; display = false; automations = true };
}
