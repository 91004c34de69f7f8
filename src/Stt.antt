-- ===== src/Stt.antt =====
-- internal/stt/service.go: speech to text. Each function here is one critical section of the service
-- or one stretch of code between two of them; Stt/World.antt interleaves them.
pub mod World
pub mod Exclusion
pub mod Finals
pub mod Buffers
pub mod Snapshot
pub mod Transcripts
pub mod Lifecycle
pub mod LateFrame
pub mod Throttle
pub mod Recognizers
pub mod Samples
mod Examples
use loqa_core.Base.{
  ℕ, ◌≡◌, String, ◌==◌, Bool, true, false, not, Option, none, some, List, [], ◌++◌, Map, lookup,
  insert, delete, Time, zero_time, time_sub, scale, millisecond, pos, int_leb, Float64, is_finite,
  eqb, if◌then◌else◌,
}
use loqa_core.Config.{SttConfig}
use loqa_core.Protocol.{
  AudioFrame, Transcript, subject_transcript_partial, subject_transcript_final,
}

-- internal/stt/recognizer.go
pub record TranscriptResult : Type 0 where
  pub text : String
  pub confidence : Float64

pub record SessionState : Type 0 where
  pub buffer : List ℕ
  pub last_partial : Time
  pub inflight : Bool
  pub pending_final : Bool

abbrev pub Sessions : Type 0
Sessions = Map SessionState

-- &sessionState{}
abbrev pub fresh_session : SessionState
fresh_session = record {
  buffer = [];
  last_partial = zero_time;
  inflight = false;
  pending_final = false;
}

abbrev or_fresh : Option SessionState → SessionState
or_fresh none = fresh_session
or_fresh (some state) = state

-- The first section of `handleFrame`: the session is made if it is new, and the audio is kept.
pub append_frame : AudioFrame → Sessions → Sessions
append_frame frame sessions =
    insert frame.session_id (record state { buffer = state.buffer ++ frame.pcm }) sessions
  where
    state : SessionState
    state = or_fresh (lookup frame.session_id sessions)

-- The decision for a session that exists. The clock is read twice: for the time since the last
-- partial transcript, and for the time to note.
abbrev pub is_partial_due : SttConfig → Time → SessionState → Bool
is_partial_due cfg now state =
    if state.inflight
    then false
    else if eqb state.last_partial zero_time
    then true
    else if int_leb interval (pos 0)
    then false
    else int_leb interval (time_sub now state.last_partial)
  where
    interval : loqa_core.Base.ℤ
    interval = scale millisecond cfg.partial_every_ms

pub should_schedule_partial : SttConfig → Time → Time → String → Sessions → Sessions × Bool
should_schedule_partial cfg now stamp session_id sessions = elim (lookup session_id sessions) [
  | none ↦ (sessions, false)
  | some state ↦
      if is_partial_due cfg now state
      then (insert session_id (record state { last_partial = stamp }) sessions, true)
      else (sessions, false)
]

-- What the goroutine of `scheduleTranscription` closes over.
pub record Task : Type 0 where
  pub session_id : String
  pub pcm : List ℕ
  pub final : Bool

-- The section of `scheduleTranscription`: at most one goroutine is started.
pub schedule_transcription : String → Bool → Sessions → Sessions × Option Task
schedule_transcription session_id final sessions = elim (lookup session_id sessions) [
  | none ↦ (sessions, none)
  | some state ↦
      if state.inflight
      then (
        if final
            then insert session_id (record state { pending_final = true }) sessions
            else sessions,
        none,
      )
      else (
        insert session_id (record state { inflight = true }) sessions,
        some (record { session_id = session_id; pcm = state.buffer; final = final }),
      )
]

-- The section at the end of the goroutine; the flag is its `pendingFinal`.
pub finish_transcription : Task → Time → Sessions → Sessions × Bool
finish_transcription task stamp sessions = elim (lookup task.session_id sessions) [
  | none ↦ (sessions, false)
  | some state ↦ (
    if task.final
        then delete task.session_id sessions
        else insert task.session_id (record state { inflight = false; last_partial = stamp })
            sessions,
    state.pending_final,
  )
]

-- A message handed to the bus.
pub record Message : Type 0 where
  pub subject : String
  pub transcript : Transcript

-- What `publishTranscript` hands to the bus. encoding/json refuses a confidence that is no number.
unfoldable pub publish_transcript : String → TranscriptResult → Bool → Time → Option Message
publish_transcript session_id result final now =
    if result.text == ""
    then none
    else if is_finite result.confidence
    then some (record {
      subject = if final then subject_transcript_final else subject_transcript_partial;
      transcript = record {
        session_id = session_id;
        text = result.text;
        partial = not final;
        timestamp = now;
        confidence = result.confidence;
      };
    })
    else none
