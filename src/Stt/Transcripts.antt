-- ===== src/Stt/Transcripts.antt =====
-- internal/stt/service.go: the messages that the service sends.
use loqa_core.Base.{
  ◌≡◌, String, ◌==◌, Bool, true, false, Option, none, some, List, Time, is_finite, All, arith,
  if◌then◌else◌, subst, sym,
}
use loqa_core.Config.{SttConfig}
use loqa_core.Protocol.{AudioFrame, subject_transcript_partial, subject_transcript_final}
use loqa_core.Stt.{Task, Message, TranscriptResult, publish_transcript}
use loqa_core.Stt.World.{
  Service, Handler, Goroutine, idle, checking, scheduling, transcribing, finishing, rescheduling,
  Action, emit, transcript_of, receive, advance, resume, step, step_cases, reached, reached_inv,
}

-- A message that another service may rely on.
pub record IsTranscript (message : Message) : Type 0 where
  pub has_text : message.transcript.text == "" ≡ false
  pub has_number : is_finite message.transcript.confidence ≡ true
  pub on_subject : message.subject ≡ (
      if message.transcript.partial then subject_transcript_partial else subject_transcript_final)

abbrev AllTranscripts : Service → Type 0
AllTranscripts s = All IsTranscript s.sent

abbrev IsTranscriptIf : Option Message → Type 0
IsTranscriptIf none = Unit {0}
IsTranscriptIf (some message) = IsTranscript message

publish_transcript-IsTranscript :
    (session_id : String) (result : TranscriptResult) (final : Bool) (now : Time)
    → IsTranscriptIf (publish_transcript session_id result final now)
unfolding publish_transcript
publish_transcript-IsTranscript session_id result final now = ground arith

transcript_of-IsTranscript :
    (task : Task) (outcome : Option TranscriptResult) (now : Time)
    → IsTranscriptIf (transcript_of task outcome now)
transcript_of-IsTranscript task none now = tt
transcript_of-IsTranscript task (some result) now =
    publish_transcript-IsTranscript task.session_id result task.final now

emit-IsTranscript :
    (message : Option Message) (sent : List Message)
    → IsTranscriptIf message
    → All IsTranscript sent
    → All IsTranscript (emit message sent)
emit-IsTranscript none sent m h = h
emit-IsTranscript (some message) sent m h = (m, h)

receive-AllTranscripts :
    (payload : Option AudioFrame) (s : Service)
    → AllTranscripts s
    → AllTranscripts (receive payload s)
unfolding receive
receive-AllTranscripts none s h = h
receive-AllTranscripts (some frame) s h = h

advance-AllTranscripts :
    (handler : Handler) (now stamp : Time) (s : Service)
    → AllTranscripts s
    → AllTranscripts (advance handler now stamp s)
unfolding advance
advance-AllTranscripts idle now stamp s h = h
advance-AllTranscripts (checking session_id) now stamp s h = h
advance-AllTranscripts (scheduling session_id final) now stamp s h = h

resume-AllTranscripts :
    (g : Goroutine) (outcome : Option TranscriptResult) (now : Time) (s : Service)
    → AllTranscripts s
    → AllTranscripts (resume g outcome now s)
unfolding resume
resume-AllTranscripts (transcribing task) outcome now s h =
    emit-IsTranscript _ s.sent (transcript_of-IsTranscript task outcome now) h
resume-AllTranscripts (finishing task) outcome now s h = h
resume-AllTranscripts (rescheduling session_id) outcome now s h = h

step-AllTranscripts : (a : Action) (s : Service) → AllTranscripts s → AllTranscripts (step a s)
step-AllTranscripts a s h =
    step_cases AllTranscripts a s h (λ payload _. receive-AllTranscripts payload s h)
      (λ now stamp. advance-AllTranscripts s.handler now stamp s h)
      (λ g others n outcome now e.
        resume-AllTranscripts g outcome now (record s { running = others }) h)

-- Whatever happens, every message that the service sends has a text and a confidence that JSON can
-- carry, and stands on the subject for partial transcripts exactly if it is marked partial.
pub reached_messages :
    (cfg : SttConfig) (accepted : Bool) (actions : List Action)
    → All IsTranscript (reached cfg accepted actions).sent
reached_messages =
    reached_inv AllTranscripts (λ s h. subst (All IsTranscript) (sym h.none_sent) tt)
      step-AllTranscripts
