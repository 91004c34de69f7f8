-- ===== src/Stt/Lifecycle.antt =====
-- internal/stt/service.go: the life of a session, from its final frame to its removal.
use loqa_core.Config.{SttConfig}
use loqa_core.Base.{
  ◌≡◌, String, ◌==◌, eq_refl, Bool, true, false, Option, none, some, List, [], ◌∷◌, ◌++◌, lookup,
  insert, lookup-insert_self, Time, is_finite, take_at, arith, refl, ap, ◌∙◌, if◌then◌else◌, inl,
  inr, Option-cases, ◌&&◌, eq_iff, lookup-delete,
}
use loqa_core.Protocol.{AudioFrame, subject_transcript_final}
use loqa_core.Stt.{
  SessionState, Sessions, Task, Message, TranscriptResult, or_fresh, append_frame,
  schedule_transcription, finish_transcription, publish_transcript,
}
use loqa_core.Stt.World.{
  Service, Goroutine, idle, scheduling, transcribing, finishing, deliver, handle, proceed, receive,
  advance, resume, step, run, is_idle, run_schedule, after_append, step-proceed,
}
use loqa_core.Stt.Exclusion.{inflight_of, inflight_in}

-- What the recognizer is given for a final frame: all audio of the session, this frame's included.
abbrev pub final_task : AudioFrame → Sessions → Task
final_task frame sessions = record {
  session_id = frame.session_id;
  pcm = (or_fresh (lookup frame.session_id sessions)).buffer ++ frame.pcm;
  final = true;
}

schedule_free :
    (k : String) (final : Bool) (m : Sessions) (state : SessionState)
    → lookup k m ≡ some state
    → state.inflight ≡ false
    → schedule_transcription k final m ≡ (
      insert k (record state { inflight = true }) m,
      some (record { session_id = k; pcm = state.buffer; final = final }),
    )
unfolding schedule_transcription
schedule_free k final m state e free = rw (e, schedule_transcription) (rw free)

pub schedule_busy :
    (k : String) (m : Sessions) (state : SessionState)
    → lookup k m ≡ some state
    → state.inflight ≡ true
    → schedule_transcription k true m ≡ (insert k (record state { pending_final = true }) m, none)
unfolding schedule_transcription
schedule_busy k m state e busy = rw (e, schedule_transcription) (rw busy)

-- The session's state once the frame's audio is kept.
abbrev pub received_state : AudioFrame → Sessions → SessionState
received_state frame sessions = record state { buffer = state.buffer ++ frame.pcm }
  where
    state : SessionState
    state = or_fresh (lookup frame.session_id sessions)

pub lookup-append_frame :
    (frame : AudioFrame) (m : Sessions)
    → lookup frame.session_id (append_frame frame m) ≡ some (received_state frame m)
unfolding append_frame
lookup-append_frame frame m = lookup-insert_self frame.session_id (received_state frame m) m

idle-inflight : (o : Option SessionState) → inflight_in o ≡ 0 → (or_fresh o).inflight ≡ false
idle-inflight none h = refl
idle-inflight (some state) h = ground arith

pub busy-inflight : (o : Option SessionState) → inflight_in o ≡ 1 → (or_fresh o).inflight ≡ true
busy-inflight none h = absurd (omega (arith, h))
busy-inflight (some state) h = ground arith

after_append_final :
    (cfg : SttConfig) (frame : AudioFrame)
    → frame.final ≡ true
    → after_append cfg frame ≡ scheduling frame.session_id true
after_append_final cfg frame final = ground arith

pub deliver_final :
    (s : Service) (frame : AudioFrame) (now stamp : Time)
    → s.subscribed ≡ true
    → is_idle s.handler ≡ true
    → frame.final ≡ true
    → run (deliver (some frame) ∷ handle now stamp ∷ []) s
      ≡ run_schedule frame.session_id true
          (record s { sessions = append_frame frame s.sessions; handler = idle })
unfolding run step receive advance
deliver_final s frame now stamp subscribed free final =
    let both : (s.subscribed && is_idle s.handler) ≡ true = ground arith in
    simp (both, after_append_final s.cfg frame final)

started_final :
    (s : Service) (frame : AudioFrame)
    → inflight_of frame.session_id s.sessions ≡ 0
    → run_schedule frame.session_id true
        (record s { sessions = append_frame frame s.sessions; handler = idle })
      ≡ record s {
        sessions =
            insert frame.session_id
              (record (received_state frame s.sessions) { inflight = true })
              (append_frame frame s.sessions);
        handler = idle;
        running = transcribing (final_task frame s.sessions) ∷ s.running;
      }
unfolding run_schedule
started_final s frame none_inflight = rw (
    schedule_free frame.session_id true (append_frame frame s.sessions)
      (received_state frame s.sessions) (lookup-append_frame frame s.sessions)
      (idle-inflight (lookup frame.session_id s.sessions) none_inflight))

-- A final frame of a session with nothing in flight starts one goroutine, on all of the session's
-- audio, and only that.
pub final_frame_starts :
    (s : Service) (frame : AudioFrame) (now stamp : Time)
    → s.subscribed ≡ true
    → is_idle s.handler ≡ true
    → frame.final ≡ true
    → inflight_of frame.session_id s.sessions ≡ 0
    → let t = run (deliver (some frame) ∷ handle now stamp ∷ []) s in
      (t.running ≡ transcribing (final_task frame s.sessions) ∷ s.running)
      × (t.handler ≡ idle)
      × (inflight_of frame.session_id t.sessions ≡ 1)
      × (t.sent ≡ s.sent)
final_frame_starts s frame now stamp subscribed free final none_inflight =
    rw (deliver_final s frame now stamp subscribed free final, started_final s frame none_inflight)
      (refl, refl, ap inflight_in (lookup-insert_self frame.session_id _ _), refl)

finish_final :
    (task : Task) (stamp : Time) (m : Sessions) (k : String)
    → task.final ≡ true
    → lookup k (finish_transcription task stamp m).0
      ≡ (if task.session_id == k then none else lookup k m)
unfolding finish_transcription
finish_final task stamp m k final = elim (Option-cases (lookup task.session_id m)) [
  | inl e ↦ ground (arith, e, eq_iff task.session_id k)
  | inr (state, e) ↦ ground (arith, e, final, lookup-delete task.session_id k m)
]

first_chosen :
    (s : Service) (outcome : Option TranscriptResult) (now : Time) (g : Goroutine)
    (others : List Goroutine)
    → s.running ≡ g ∷ others
    → step (proceed 0 outcome now) s ≡ resume g outcome now (record s { running = others })
unfolding take_at
first_chosen s outcome now g others r = step-proceed s 0 outcome now g others (rw r)

pub resumed_last :
    (s : Service) (task : Task) (outcome : Option TranscriptResult) (now : Time)
    → task.final ≡ true
    → let t = resume (finishing task) outcome now s in
      (t.running ≡ s.running)
      × (t.sent ≡ s.sent)
      × ((k : String)
          → lookup k t.sessions ≡ (if task.session_id == k then none else lookup k s.sessions))
unfolding resume
resumed_last s task outcome now final =
    (ground arith, refl, λ k. finish_final task now s.sessions k final)

-- The message for a recognizer's result.
abbrev pub message_of : Task → TranscriptResult → Time → Message
message_of task result now = record {
  subject = subject_transcript_final;
  transcript = record {
    session_id = task.session_id;
    text = result.text;
    partial = false;
    timestamp = now;
    confidence = result.confidence;
  };
}

answered :
    (s : Service) (task : Task) (others : List Goroutine) (result : TranscriptResult) (now : Time)
    → task.final ≡ true
    → result.text == "" ≡ false
    → is_finite result.confidence ≡ true
    → resume (transcribing task) (some result) now (record s { running = others })
      ≡ record s { running = finishing task ∷ others; sent = message_of task result now ∷ s.sent }
unfolding resume publish_transcript
answered s task others result now final text number = simp (text, number, final)

-- When the recognizer answers the goroutine of a final frame, one message with its text goes out
-- on the subject for final transcripts, and the session is removed with the goroutine.
pub final_task_completes :
    (s : Service) (task : Task) (others : List Goroutine) (result : TranscriptResult)
    (now later : Time) (ignored : Option TranscriptResult)
    → s.running ≡ transcribing task ∷ others
    → task.final ≡ true
    → result.text == "" ≡ false
    → is_finite result.confidence ≡ true
    → let t = run (proceed 0 (some result) now ∷ proceed 0 ignored later ∷ []) s in
      (t.sent ≡ message_of task result now ∷ s.sent)
      × (t.running ≡ others)
      × (lookup task.session_id t.sessions ≡ none)
      × ((k : String) → task.session_id == k ≡ false → lookup k t.sessions ≡ lookup k s.sessions)
unfolding run
final_task_completes s task others result now later ignored r final text number =
    let s' : Service = record s {
      running = finishing task ∷ others;
      sent = message_of task result now ∷ s.sent;
    } in
    let first : step (proceed 0 (some result) now) s ≡ s' =
      first_chosen s (some result) now (transcribing task) others r
      ∙ answered s task others result now final text number in
    let last = resumed_last (record s' { running = others }) task ignored later final in
    rw (first, first_chosen s' ignored later (finishing task) others refl)
      (last.1, last.0, last.2 task.session_id ∙ simp eq_refl, λ k apart. last.2 k ∙ rw apart)
