-- ===== src/Stt/Exclusion.antt =====
-- At most one transcription of a session runs at a time, whatever the interleaving.
use loqa_core.Base.{
  ℕ, ◌+◌, ◌≤◌, ◌≡◌, String, ◌==◌, eq_iff, eq_refl, Bool, true, false, Option, none, some, List, ◌∷◌,
  lookup, lookup-insert, lookup-delete, Time, count_if, count_if-take_at, arith, sym, ◌∙◌, inl, inr,
  Option-cases, if◌then◌else◌,
}
use loqa_core.Config.{SttConfig}
use loqa_core.Protocol.{AudioFrame}
use loqa_core.Stt.{
  SessionState, Sessions, Task, TranscriptResult, append_frame, should_schedule_partial,
  schedule_transcription, finish_transcription,
}
use loqa_core.Stt.World.{
  Service, Handler, Goroutine, idle, checking, scheduling, transcribing, finishing, rescheduling,
  Action, receive, run_schedule, advance, resume, step, step_cases, is_active, reached, reached_inv,
  IsInitial,
}

abbrev pub inflight_in : Option SessionState → ℕ
inflight_in none = 0
inflight_in (some state) = if state.inflight then 1 else 0

-- 1 if the session is there and its `Inflight` is set.
abbrev pub inflight_of : String → Sessions → ℕ
inflight_of session_id sessions = inflight_in (lookup session_id sessions)

-- The goroutines that transcribe for a session.
abbrev pub active : String → List Goroutine → ℕ
active session_id running = count_if (is_active session_id) running

abbrev pub started : String → Option Task → ℕ
started session_id none = 0
started session_id (some task) = if task.session_id == session_id then 1 else 0

pub append_frame-inflight :
    (k : String) (frame : AudioFrame) (m : Sessions)
    → inflight_of k (append_frame frame m) ≡ inflight_of k m
unfolding append_frame
append_frame-inflight k frame m = rw lookup-insert (ground (arith, eq_iff frame.session_id k))

pub should_schedule_partial-inflight :
    (k : String) (cfg : SttConfig) (now stamp : Time) (session_id : String) (m : Sessions)
    → inflight_of k (should_schedule_partial cfg now stamp session_id m).0 ≡ inflight_of k m
unfolding should_schedule_partial
should_schedule_partial-inflight k cfg now stamp session_id m =
    elim (Option-cases (lookup session_id m)) [
      | inl e ↦ ground (arith, e)
      | inr (state, e) ↦ ground (
        arith,
        e,
        eq_iff session_id k,
        lookup-insert session_id k (record state { last_partial = stamp }) m,
      )
    ]

pub schedule_transcription-inflight :
    (k session_id : String) (final : Bool) (m : Sessions)
    → let r = schedule_transcription session_id final m in
      inflight_of k r.0 ≡ started k r.1 + inflight_of k m
unfolding schedule_transcription
schedule_transcription-inflight k session_id final m = elim (Option-cases (lookup session_id m)) [
  | inl e ↦ ground (arith, e)
  | inr (state, e) ↦ ground (
    arith,
    e,
    eq_iff session_id k,
    lookup-insert session_id k (record state { inflight = true }) m,
    lookup-insert session_id k (record state { pending_final = true }) m,
  )
]

pub finish_transcription-inflight :
    (k : String) (task : Task) (stamp : Time) (m : Sessions)
    → inflight_of task.session_id m ≡ 1
    → inflight_of k m
      ≡ inflight_of k (finish_transcription task stamp m).0
        + (if task.session_id == k then 1 else 0)
unfolding finish_transcription
finish_transcription-inflight k task stamp m h = elim (Option-cases (lookup task.session_id m)) [
  | inl e ↦ ground (arith, e)
  | inr (state, e) ↦ ground (
    arith,
    e,
    eq_iff task.session_id k,
    lookup-insert task.session_id k (record state { inflight = false; last_partial = stamp }) m,
    lookup-delete task.session_id k m,
  )
]

-- Each session has a goroutine between the two sections exactly if its `Inflight` is set.
abbrev pub IsExclusive : Service → Type 0
IsExclusive s = (k : String) → active k s.running ≡ inflight_of k s.sessions

pub receive-IsExclusive :
    (payload : Option AudioFrame) (s : Service) → IsExclusive s → IsExclusive (receive payload s)
unfolding receive
receive-IsExclusive none s h = h
receive-IsExclusive (some frame) s h = λ k. h k ∙ sym (append_frame-inflight k frame s.sessions)

run_schedule-IsExclusive :
    (session_id : String) (final : Bool) (s : Service)
    → IsExclusive s
    → IsExclusive (run_schedule session_id final s)
unfolding run_schedule
run_schedule-IsExclusive session_id final s h k =
    ground (arith, h k, schedule_transcription-inflight k session_id final s.sessions)

pub advance-IsExclusive :
    (handler : Handler) (now stamp : Time) (s : Service)
    → IsExclusive s
    → IsExclusive (advance handler now stamp s)
unfolding advance
advance-IsExclusive idle now stamp s h = h
advance-IsExclusive (checking session_id) now stamp s h =
    λ k. h k ∙ sym (should_schedule_partial-inflight k s.cfg now stamp session_id s.sessions)
advance-IsExclusive (scheduling session_id final) now stamp s h =
    run_schedule-IsExclusive session_id final (record s { handler = idle }) h

-- The chosen goroutine is counted beside the others until its section has run.
pub resume-IsExclusive :
    (g : Goroutine) (outcome : Option TranscriptResult) (now : Time) (s : Service)
    → ((k : String) → active k (g ∷ s.running) ≡ inflight_of k s.sessions)
    → IsExclusive (resume g outcome now s)
unfolding resume
resume-IsExclusive (transcribing task) outcome now s h = h
resume-IsExclusive (finishing task) outcome now s h = λ k. ground (
  arith,
  h k,
  h task.session_id,
  eq_refl task.session_id,
  finish_transcription-inflight k task now s.sessions,
)
resume-IsExclusive (rescheduling session_id) outcome now s h =
    run_schedule-IsExclusive session_id true s (λ k. omega (arith, h k))

pub step-IsExclusive : (a : Action) (s : Service) → IsExclusive s → IsExclusive (step a s)
step-IsExclusive a s h =
    step_cases IsExclusive a s h (λ payload _. receive-IsExclusive payload s h)
      (λ now stamp. advance-IsExclusive s.handler now stamp s h)
      (λ g others n outcome now e.
        resume-IsExclusive g outcome now (record s { running = others })
          (λ k. sym (count_if-take_at (is_active k) n s.running e) ∙ h k))

pub initial-IsExclusive : (s : Service) → IsInitial s → IsExclusive s
unfolding lookup
initial-IsExclusive s h k = rw (h.no_sessions, h.no_goroutines)

pub inflight_in-le : (o : Option SessionState) → inflight_in o ≤ 1
inflight_in-le none = omega arith
inflight_in-le (some state) = ground arith

pub reached-IsExclusive :
    (cfg : SttConfig) (accepted : Bool) (actions : List Action)
    → IsExclusive (reached cfg accepted actions)
reached-IsExclusive = reached_inv IsExclusive initial-IsExclusive step-IsExclusive

-- In every state that the service reaches after its start, whatever the frames, the clock, the
-- recognizer's outcomes and the interleaving of the handler with the goroutines, a session has at
-- most one goroutine that transcribes for it, and has one exactly if its `Inflight` is set.
pub reached_exclusion :
    (cfg : SttConfig) (accepted : Bool) (actions : List Action) (k : String)
    → let s = reached cfg accepted actions in
      (active k s.running ≤ 1) × (active k s.running ≡ inflight_of k s.sessions)
reached_exclusion cfg accepted actions k =
    let h = reached-IsExclusive cfg accepted actions k in (rw h (inflight_in-le _), h)
