-- ===== src/Stt/Buffers.antt =====
-- internal/stt/service.go: what each operation does to the audio of a session.
use loqa_core.Base.{
  ℕ, ◌≡◌, String, ◌==◌, eq_iff, Bool, true, false, Option, none, some, List, ◌++◌, lookup,
  lookup-insert, lookup-delete, Time, arith, inl, inr, Option-cases, if◌then◌else◌,
}
use loqa_core.Config.{SttConfig}
use loqa_core.Protocol.{AudioFrame}
use loqa_core.Stt.{
  SessionState, Sessions, Task, append_frame, should_schedule_partial, schedule_transcription,
  finish_transcription,
}

abbrev buffer_in : Option SessionState → Option (List ℕ)
buffer_in none = none
buffer_in (some state) = some state.buffer

-- The audio that a session has received, if it is there.
abbrev pub buffer_of : String → Sessions → Option (List ℕ)
buffer_of session_id sessions = buffer_in (lookup session_id sessions)

abbrev extended : Option (List ℕ) → List ℕ → List ℕ
extended none pcm = pcm
extended (some buffer) pcm = buffer ++ pcm

pub append_frame-buffer :
    (k : String) (frame : AudioFrame) (m : Sessions)
    → buffer_of k (append_frame frame m)
      ≡ (if frame.session_id == k then some (extended (buffer_of k m) frame.pcm) else buffer_of k m)
unfolding append_frame
append_frame-buffer k frame m = rw lookup-insert (ground (arith, eq_iff frame.session_id k))

pub should_schedule_partial-buffer :
    (k : String) (cfg : SttConfig) (now stamp : Time) (session_id : String) (m : Sessions)
    → buffer_of k (should_schedule_partial cfg now stamp session_id m).0 ≡ buffer_of k m
unfolding should_schedule_partial
should_schedule_partial-buffer k cfg now stamp session_id m =
    elim (Option-cases (lookup session_id m)) [
      | inl e ↦ ground (arith, e)
      | inr (state, e) ↦ ground (
        arith,
        e,
        eq_iff session_id k,
        lookup-insert session_id k (record state { last_partial = stamp }) m,
      )
    ]

pub schedule_transcription-buffer :
    (k session_id : String) (final : Bool) (m : Sessions)
    → buffer_of k (schedule_transcription session_id final m).0 ≡ buffer_of k m
unfolding schedule_transcription
schedule_transcription-buffer k session_id final m = elim (Option-cases (lookup session_id m)) [
  | inl e ↦ ground (arith, e)
  | inr (state, e) ↦ ground (
    arith,
    e,
    eq_iff session_id k,
    lookup-insert session_id k (record state { inflight = true }) m,
    lookup-insert session_id k (record state { pending_final = true }) m,
  )
]

pub finish_transcription-buffer :
    (k : String) (task : Task) (stamp : Time) (m : Sessions)
    → task.session_id == k ≡ false
    → buffer_of k (finish_transcription task stamp m).0 ≡ buffer_of k m
unfolding finish_transcription
finish_transcription-buffer k task stamp m h = elim (Option-cases (lookup task.session_id m)) [
  | inl e ↦ ground (arith, e)
  | inr (state, e) ↦ ground (
    arith,
    e,
    lookup-insert task.session_id k (record state { inflight = false; last_partial = stamp }) m,
    lookup-delete task.session_id k m,
  )
]
