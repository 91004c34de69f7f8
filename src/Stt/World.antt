-- ===== src/Stt/World.antt =====
-- internal/stt/service.go: the subscription's callback and the goroutines of `scheduleTranscription`,
-- interleaved. NATS runs the callback of one subscription for one message at a time, so there is one
-- handler; an action lets it, or one goroutine, run up to the end of its next critical section.
use loqa_core.Base.{
  ℕ, String, ◌==◌, Bool, true, false, not, ◌&&◌, ◌||◌, Option, none, some, List, [], ◌∷◌, Time,
  take_at, if◌then◌else◌, ◌≡◌, inl, inr, Bool-cases, Option-cases, arith,
}
use loqa_core.Config.{SttConfig}
use loqa_core.Protocol.{AudioFrame}
use loqa_core.Stt.{
  Sessions, TranscriptResult, Task, Message, append_frame, should_schedule_partial,
  schedule_transcription, finish_transcription, publish_transcript,
}

-- Where `handleFrame` stands.
pub data Handler : Type 0 where
  idle : Handler
  checking : String → Handler
  scheduling : String → Bool → Handler

-- Where a goroutine stands: at the recognizer, before its last section, or before its call of
-- `scheduleTranscription` for the final transcript that was asked for meanwhile.
pub data Goroutine : Type 0 where
  transcribing : Task → Goroutine
  finishing : Task → Goroutine
  rescheduling : String → Goroutine

pub record Service : Type 0 where
  pub cfg : SttConfig
  pub sessions : Sessions
  pub subscribed : Bool
  pub ready : Bool
  pub cancelled : Bool
  pub draining : Bool
  pub handler : Handler
  pub running : List Goroutine
  pub sent : List Message

unfoldable pub new_service : SttConfig → Service
new_service cfg = record {
  cfg = cfg;
  sessions = [];
  subscribed = false;
  ready = false;
  cancelled = false;
  draining = false;
  handler = idle;
  running = [];
  sent = [];
}

-- `Start`; the first argument says whether the bus accepts the subscription, the result whether
-- there was no error.
unfoldable pub start : Bool → Service → Service × Bool
start accepted s =
    if not s.cfg.enabled
    then (s, true)
    else if accepted
    then (record s { subscribed = true; ready = true }, true)
    else (s, false)

-- `Close` up to its wait for the goroutines. A subscription that drains still hands over the
-- messages that it has received, so frames may follow.
unfoldable pub close : Service → Service
close s = record s { cancelled = true; draining = s.subscribed }

unfoldable pub healthy : Service → Bool
healthy s = not s.cfg.enabled || s.ready

-- What `handleFrame` does after the first section.
abbrev pub after_append : SttConfig → AudioFrame → Handler
after_append cfg frame =
    if cfg.publish_interim && not frame.final
    then checking frame.session_id
    else if frame.final
    then scheduling frame.session_id true
    else idle

-- A frame, or `none` for a payload that does not decode.
unfoldable pub receive : Option AudioFrame → Service → Service
receive none s = s
receive (some frame) s = record s {
  sessions = append_frame frame s.sessions;
  handler = after_append s.cfg frame;
}

abbrev pub spawn : Option Task → List Goroutine → List Goroutine
spawn none running = running
spawn (some task) running = transcribing task ∷ running

unfoldable pub run_schedule : String → Bool → Service → Service
run_schedule session_id final s =
    let (sessions, task) = schedule_transcription session_id final s.sessions in
    record s { sessions = sessions; running = spawn task s.running }

-- The handler's next section.
unfoldable pub advance : Handler → Time → Time → Service → Service
unfolding run_schedule
advance idle now stamp s = s
advance (checking session_id) now stamp s =
    let (sessions, due) = should_schedule_partial s.cfg now stamp session_id s.sessions in
    record s { sessions = sessions; handler = if due then scheduling session_id false else idle }
advance (scheduling session_id final) now stamp s =
    run_schedule session_id final (record s { handler = idle })

abbrev pub emit : Option Message → List Message → List Message
emit none sent = sent
emit (some message) sent = message ∷ sent

abbrev pub transcript_of : Task → Option TranscriptResult → Time → Option Message
transcript_of task none now = none
transcript_of task (some result) now = publish_transcript task.session_id result task.final now

-- A goroutine's next section, where `s.running` holds the others. The outcome is the recognizer's,
-- `none` for an error.
unfoldable pub resume : Goroutine → Option TranscriptResult → Time → Service → Service
unfolding run_schedule
resume (transcribing task) outcome now s = record s {
  running = finishing task ∷ s.running;
  sent = emit (transcript_of task outcome now) s.sent;
}
resume (finishing task) outcome now s =
    let (sessions, pending_final) = finish_transcription task now s.sessions in
    record s {
      sessions = sessions;
      running =
          if pending_final && not task.final
          then rescheduling task.session_id ∷ s.running
          else s.running;
    }
resume (rescheduling session_id) outcome now s = run_schedule session_id true s

pub data Action : Type 0 where
  deliver : Option AudioFrame → Action
  handle : Time → Time → Action
  proceed : ℕ → Option TranscriptResult → Time → Action

abbrev pub is_idle : Handler → Bool
is_idle idle = true
is_idle _ = false

-- An action that does not apply, a frame while the handler is busy or the choice of a goroutine
-- that is not there, changes nothing.
unfoldable pub step : Action → Service → Service
step (deliver payload) s = if s.subscribed && is_idle s.handler then receive payload s else s
step (handle now stamp) s = advance s.handler now stamp s
step (proceed n outcome now) s = elim (take_at n s.running) [
  | none ↦ s
  | some (g, others) ↦ resume g outcome now (record s { running = others })
]

unfoldable pub run : List Action → Service → Service
run [] s = s
run (a ∷ actions) s = run actions (step a s)

-- Whether a goroutine is between the two sections that own the session's `Inflight` flag.
abbrev pub is_active : String → Goroutine → Bool
is_active session_id (transcribing task) = task.session_id == session_id
is_active session_id (finishing task) = task.session_id == session_id
is_active session_id (rescheduling other) = false

abbrev pub is_rescheduling : String → Goroutine → Bool
is_rescheduling session_id (rescheduling other) = other == session_id
is_rescheduling session_id _ = false

-- What holds in every state that an action can lead to.
pub step_cases {ℓ} :
    (P : Service → Type ℓ) (a : Action) (s : Service)
    → P s
    → ((payload : Option AudioFrame) → is_idle s.handler ≡ true → P (receive payload s))
    → ((now stamp : Time) → P (advance s.handler now stamp s))
    → ((g : Goroutine) (others : List Goroutine) (n : ℕ) (outcome : Option TranscriptResult)
          (now : Time)
        → take_at n s.running ≡ some (g, others)
        → P (resume g outcome now (record s { running = others })))
    → P (step a s)
unfolding step
step_cases P (deliver payload) s stay received advanced resumed =
    elim (Bool-cases (s.subscribed && is_idle s.handler)) [
      | inl e ↦ rw e (received payload (ground arith))
      | inr e ↦ rw e stay
    ]
step_cases P (handle now stamp) s stay received advanced resumed = advanced now stamp
step_cases P (proceed n outcome now) s stay received advanced resumed =
    elim (Option-cases (take_at n s.running)) [
      | inl e ↦ rw (e, step) stay
      | inr ((g, others), e) ↦ rw (e, step) (resumed g others n outcome now e)
    ]

-- A chosen goroutine runs.
pub step-proceed :
    (s : Service) (n : ℕ) (outcome : Option TranscriptResult) (now : Time) (g : Goroutine)
    (others : List Goroutine)
    → take_at n s.running ≡ some (g, others)
    → step (proceed n outcome now) s ≡ resume g outcome now (record s { running = others })
unfolding step
step-proceed s n outcome now g others e = rw (e, step)

pub run_inv {ℓ} :
    (P : Service → Type ℓ)
    → ((a : Action) (s : Service) → P s → P (step a s))
    → (actions : List Action) (s : Service) → P s
    → P (run actions s)
unfolding run
run_inv P keep [] s h = h
run_inv P keep (a ∷ actions) s h = run_inv P keep actions (step a s) (keep a s h)

-- The service as `actions` leave it after it has started.
abbrev pub reached : SttConfig → Bool → List Action → Service
reached cfg accepted actions = run actions (start accepted (new_service cfg)).0

pub record IsInitial (s : Service) : Type 0 where
  pub no_sessions : s.sessions ≡ []
  pub no_goroutines : s.running ≡ []
  pub none_sent : s.sent ≡ []
  pub handler_idle : s.handler ≡ idle

start-IsInitial :
    (cfg : SttConfig) (accepted : Bool) → IsInitial (start accepted (new_service cfg)).0
unfolding start new_service
start-IsInitial cfg accepted = ground arith

pub reached_inv {ℓ} :
    (P : Service → Type ℓ)
    → ((s : Service) → IsInitial s → P s)
    → ((a : Action) (s : Service) → P s → P (step a s))
    → (cfg : SttConfig) (accepted : Bool) (actions : List Action) → P (reached cfg accepted actions)
reached_inv P initial keep cfg accepted actions =
    run_inv P keep actions _ (initial _ (start-IsInitial cfg accepted))
