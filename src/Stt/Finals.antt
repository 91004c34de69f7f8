-- ===== src/Stt/Finals.antt =====
-- internal/stt/service.go: a final transcript that is asked for while a partial one is made.
use loqa_core.Base.{
  ℕ, ◌+◌, ◌≤◌, ◌≡◌, String, ◌==◌, eq_iff, Bool, true, false, Option, none, some, List, [], ◌∷◌, not,
  ◌&&◌, lookup, lookup-insert, lookup-delete, Time, count_if, count_if-take_at, arith, sym, ◌∙◌,
  inl, inr, Option-cases, if◌then◌else◌, ap,
}
use loqa_core.Config.{SttConfig}
use loqa_core.Protocol.{AudioFrame}
use loqa_core.Stt.{
  SessionState, Sessions, Task, TranscriptResult, append_frame, should_schedule_partial,
  schedule_transcription, finish_transcription,
}
use loqa_core.Stt.World.{
  Service, Handler, Goroutine, idle, checking, scheduling, transcribing, finishing, rescheduling,
  Action, receive, run_schedule, advance, resume, step, step_cases, is_rescheduling, reached,
  reached_inv, IsInitial,
}
use loqa_core.Stt.Exclusion.{
  inflight_of, active, schedule_transcription-inflight, append_frame-inflight,
  should_schedule_partial-inflight, reached-IsExclusive,
}

abbrev pub pending_in : Option SessionState → ℕ
pending_in none = 0
pending_in (some state) = if state.pending_final then 1 else 0

-- 1 if the session is there and its `PendingFinal` is set.
abbrev pub pending_of : String → Sessions → ℕ
pending_of session_id sessions = pending_in (lookup session_id sessions)

-- The goroutines that are about to ask for a session's final transcript.
abbrev pub rescheduled : String → List Goroutine → ℕ
rescheduled session_id running = count_if (is_rescheduling session_id) running

append_frame-pending :
    (k : String) (frame : AudioFrame) (m : Sessions)
    → pending_of k (append_frame frame m) ≡ pending_of k m
unfolding append_frame
append_frame-pending k frame m = rw lookup-insert (ground (arith, eq_iff frame.session_id k))

should_schedule_partial-pending :
    (k : String) (cfg : SttConfig) (now stamp : Time) (session_id : String) (m : Sessions)
    → pending_of k (should_schedule_partial cfg now stamp session_id m).0 ≡ pending_of k m
unfolding should_schedule_partial
should_schedule_partial-pending k cfg now stamp session_id m =
    elim (Option-cases (lookup session_id m)) [
      | inl e ↦ ground (arith, e)
      | inr (state, e) ↦ ground (
        arith,
        e,
        eq_iff session_id k,
        lookup-insert session_id k (record state { last_partial = stamp }) m,
      )
    ]

schedule_transcription-pending :
    (k session_id : String) (final : Bool) (m : Sessions)
    → let r = schedule_transcription session_id final m in
      pending_of k r.0 ≤ inflight_of k r.0 + (if session_id == k then 0 else pending_of k m)
unfolding schedule_transcription
schedule_transcription-pending k session_id final m = elim (Option-cases (lookup session_id m)) [
  | inl e ↦ ground (arith, e, eq_iff session_id k)
  | inr (state, e) ↦ ground (
    arith,
    e,
    eq_iff session_id k,
    lookup-insert session_id k (record state { inflight = true }) m,
    lookup-insert session_id k (record state { pending_final = true }) m,
  )
]

finish_transcription-pending :
    (k : String) (task : Task) (stamp : Time) (m : Sessions)
    → let r = finish_transcription task stamp m in
      let same = task.session_id == k in
      (pending_of k r.0
        ≤ (if r.1 && not task.final && same then 1 else 0) + (if same then 0 else pending_of k m))
      × ((if same then 0 else inflight_of k m) ≤ inflight_of k r.0)
unfolding finish_transcription
finish_transcription-pending k task stamp m = elim (Option-cases (lookup task.session_id m)) [
  | inl e ↦ ground (arith, e, eq_iff task.session_id k)
  | inr (state, e) ↦ ground (
    arith,
    e,
    eq_iff task.session_id k,
    lookup-insert task.session_id k (record state { inflight = false; last_partial = stamp }) m,
    lookup-delete task.session_id k m,
  )
]

-- A pending final transcript has a goroutine that will see to it.
abbrev pub IsServed : Service → Type 0
IsServed s =
    (k : String) → pending_of k s.sessions ≤ inflight_of k s.sessions + rescheduled k s.running

receive-IsServed :
    (payload : Option AudioFrame) (s : Service) → IsServed s → IsServed (receive payload s)
unfolding receive
receive-IsServed none s h = h
receive-IsServed (some frame) s h = λ k.
    rw (append_frame-pending k frame s.sessions, append_frame-inflight k frame s.sessions) (h k)

-- The goroutine whose section this is, if any, is counted beside the others.
abbrev Owes : String → Service → Type 0
Owes session_id s =
    (k : String)
    → pending_of k s.sessions
      ≤ inflight_of k s.sessions + ((if session_id == k then 1 else 0) + rescheduled k s.running)

run_schedule-IsServed :
    (session_id : String) (final : Bool) (s : Service)
    → Owes session_id s
    → IsServed (run_schedule session_id final s)
unfolding run_schedule
run_schedule-IsServed session_id final s h k = ground (
  arith,
  h k,
  schedule_transcription-inflight k session_id final s.sessions,
  schedule_transcription-pending k session_id final s.sessions,
)

advance-IsServed :
    (handler : Handler) (now stamp : Time) (s : Service)
    → IsServed s
    → IsServed (advance handler now stamp s)
unfolding advance
advance-IsServed idle now stamp s h = h
advance-IsServed (checking session_id) now stamp s h = λ k.
    rw
      (
        should_schedule_partial-pending k s.cfg now stamp session_id s.sessions,
        should_schedule_partial-inflight k s.cfg now stamp session_id s.sessions,
      )
      (h k)
advance-IsServed (scheduling session_id final) now stamp s h =
    run_schedule-IsServed session_id final (record s { handler = idle }) (λ k. omega (arith, h k))

resume-IsServed :
    (g : Goroutine) (outcome : Option TranscriptResult) (now : Time) (s : Service)
    → ((k : String)
        → pending_of k s.sessions ≤ inflight_of k s.sessions + rescheduled k (g ∷ s.running))
    → IsServed (resume g outcome now s)
unfolding resume
resume-IsServed (transcribing task) outcome now s h = h
resume-IsServed (finishing task) outcome now s h =
    λ k. ground (arith, h k, finish_transcription-pending k task now s.sessions)
resume-IsServed (rescheduling session_id) outcome now s h =
    run_schedule-IsServed session_id true s h

step-IsServed : (a : Action) (s : Service) → IsServed s → IsServed (step a s)
step-IsServed a s h =
    step_cases IsServed a s h (λ payload _. receive-IsServed payload s h)
      (λ now stamp. advance-IsServed s.handler now stamp s h)
      (λ g others n outcome now e.
        resume-IsServed g outcome now (record s { running = others })
          (λ k. rw (count_if-take_at (is_rescheduling k) n s.running e) at (h k)))

initial-IsServed : (s : Service) → IsInitial s → IsServed s
unfolding lookup
initial-IsServed s h k = rw (h.no_sessions, h.no_goroutines) (omega arith)

-- In every state that the service reaches, a session whose final transcript is pending still has a
-- goroutine that transcribes for it or is about to ask for the final transcript.
pub reached-IsServed :
    (cfg : SttConfig) (accepted : Bool) (actions : List Action) (k : String)
    → let s = reached cfg accepted actions in
      pending_of k s.sessions ≤ active k s.running + rescheduled k s.running
reached-IsServed cfg accepted actions k =
    rw (reached-IsExclusive cfg accepted actions k)
      (reached_inv IsServed initial-IsServed step-IsServed cfg accepted actions k)

settled :
    (k : String) (s : Service)
    → active k s.running ≡ inflight_of k s.sessions
    → pending_of k s.sessions ≤ active k s.running + rescheduled k s.running
    → s.running ≡ []
    → (inflight_of k s.sessions ≡ 0) × (pending_of k s.sessions ≡ 0)
settled k s e h none_left = (
  sym e ∙ ap (active k) none_left,
  omega (arith, h, ap (active k) none_left, ap (rescheduled k) none_left),
)

-- So when no goroutine is left, no session waits for anything: none has `Inflight` or
-- `PendingFinal` set.
pub reached_settled :
    (cfg : SttConfig) (accepted : Bool) (actions : List Action) (k : String)
    → let s = reached cfg accepted actions in
      s.running ≡ [] → (inflight_of k s.sessions ≡ 0) × (pending_of k s.sessions ≡ 0)
reached_settled cfg accepted actions k none_left =
    settled k (reached cfg accepted actions) (reached-IsExclusive cfg accepted actions k)
      (reached-IsServed cfg accepted actions k) none_left
