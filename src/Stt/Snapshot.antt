-- ===== src/Stt/Snapshot.antt =====
-- internal/stt/service.go: the audio that a goroutine transcribes against the session's buffer.
use mathlib.Core.List.{append_assoc, append-nil}
use loqa_core.Base.{
  ℕ, ◌≤◌, ◌≡◌, String, ◌==◌, eq_iff, eq_refl, Bool, true, false, Option, none, some, List, [], ◌∷◌,
  ◌++◌, lookup, Time, All, All-map, All-take_at, count_if-eq-zero, count_if-take_at, arith, refl,
  ◌∙◌, inl, inr, Option-cases, Bool-cases, if◌then◌else◌, ap, lookup-insert_self,
}
use loqa_core.Config.{SttConfig}
use loqa_core.Protocol.{AudioFrame}
use loqa_core.Stt.{
  Sessions, Task, TranscriptResult, append_frame, should_schedule_partial, schedule_transcription,
  finish_transcription,
}
use loqa_core.Stt.World.{
  Service, Handler, Goroutine, idle, checking, scheduling, transcribing, finishing, rescheduling,
  Action, receive, run_schedule, advance, resume, step, step_cases, is_active, reached, reached_inv,
  IsInitial, spawn,
}
use loqa_core.Stt.Exclusion.{
  active, IsExclusive, step-IsExclusive, initial-IsExclusive, inflight_in-le,
}
use loqa_core.Stt.Buffers.{
  buffer_of, append_frame-buffer, should_schedule_partial-buffer, schedule_transcription-buffer,
  finish_transcription-buffer,
}

-- The session is there, and its buffer begins with the audio of the task.
abbrev pub IsTaken : Task → Sessions → Type 0
IsTaken task sessions =
    (later : List ℕ) × (buffer_of task.session_id sessions ≡ some (task.pcm ++ later))

abbrev pub IsSnapshot : Sessions → Goroutine → Type 0
IsSnapshot sessions (transcribing task) = IsTaken task sessions
IsSnapshot sessions (finishing task) = IsTaken task sessions
IsSnapshot sessions (rescheduling session_id) = Unit {0}

append_frame-IsTaken :
    (frame : AudioFrame) (m : Sessions) (task : Task)
    → IsTaken task m
    → IsTaken task (append_frame frame m)
append_frame-IsTaken frame m task (later, e) =
    elim (Bool-cases (frame.session_id == task.session_id)) [
      | inl same ↦ (
        later ++ frame.pcm,
        rw (append_frame-buffer task.session_id frame m, same, e)
            (ap some (append_assoc task.pcm later frame.pcm)),
      )
      | inr other ↦ (later, rw (append_frame-buffer task.session_id frame m, other) e)
    ]

append_frame-IsSnapshot :
    (frame : AudioFrame) (m : Sessions) (g : Goroutine)
    → IsSnapshot m g
    → IsSnapshot (append_frame frame m) g
append_frame-IsSnapshot frame m (transcribing task) h = append_frame-IsTaken frame m task h
append_frame-IsSnapshot frame m (finishing task) h = append_frame-IsTaken frame m task h
append_frame-IsSnapshot frame m (rescheduling session_id) h = tt

-- A section that leaves a goroutine's session with its buffer keeps the snapshot.
kept-IsSnapshot :
    (m m' : Sessions) (g : Goroutine)
    → ((k : String) → is_active k g ≡ true → buffer_of k m' ≡ buffer_of k m)
    → IsSnapshot m g
    → IsSnapshot m' g
kept-IsSnapshot m m' (transcribing task) keep (later, e) =
    (later, keep task.session_id (eq_refl task.session_id) ∙ e)
kept-IsSnapshot m m' (finishing task) keep (later, e) =
    (later, keep task.session_id (eq_refl task.session_id) ∙ e)
kept-IsSnapshot m m' (rescheduling session_id) keep h = tt

schedule_transcription-IsTaken :
    (session_id : String) (final : Bool) (m : Sessions) (task : Task)
    → (schedule_transcription session_id final m).1 ≡ some task
    → IsTaken task (schedule_transcription session_id final m).0
unfolding schedule_transcription
schedule_transcription-IsTaken session_id final m task h =
    elim (Option-cases (lookup session_id m)) [
      | inl e ↦ absurd (ground (arith, e, h))
      | inr (state, e) ↦ (
        [],
        ground (
          arith,
          e,
          h,
          append-nil state.buffer,
          lookup-insert_self session_id (record state { inflight = true }) m,
        ),
      )
    ]

abbrev IsAllTaken : Sessions → List Goroutine → Type 0
IsAllTaken sessions running = All (IsSnapshot sessions) running

run_schedule-IsAllTaken :
    (session_id : String) (final : Bool) (s : Service)
    → IsAllTaken s.sessions s.running
    → let t = run_schedule session_id final s in IsAllTaken t.sessions t.running
unfolding run_schedule
run_schedule-IsAllTaken session_id final s h =
    go (schedule_transcription session_id final s.sessions).1 refl
  where
    m' : Sessions
    m' = (schedule_transcription session_id final s.sessions).0

    old : IsAllTaken m' s.running
    old =
        All-map (IsSnapshot s.sessions) (IsSnapshot m') s.running
          (λ g.
            kept-IsSnapshot s.sessions m' g
              (λ k _. schedule_transcription-buffer k session_id final s.sessions))
          h

    go :
        (t : Option Task)
        → (schedule_transcription session_id final s.sessions).1 ≡ t
        → IsAllTaken m' (spawn t s.running)
    go none e = old
    go (some task) e = (schedule_transcription-IsTaken session_id final s.sessions task e, old)

abbrev HasSnapshots : Service → Type 0
HasSnapshots s = IsAllTaken s.sessions s.running

receive-HasSnapshots :
    (payload : Option AudioFrame) (s : Service) → HasSnapshots s → HasSnapshots (receive payload s)
unfolding receive
receive-HasSnapshots none s h = h
receive-HasSnapshots (some frame) s h =
    All-map (IsSnapshot s.sessions) (IsSnapshot (append_frame frame s.sessions)) s.running
      (append_frame-IsSnapshot frame s.sessions) h

advance-HasSnapshots :
    (handler : Handler) (now stamp : Time) (s : Service)
    → HasSnapshots s
    → HasSnapshots (advance handler now stamp s)
unfolding advance
advance-HasSnapshots idle now stamp s h = h
advance-HasSnapshots (checking session_id) now stamp s h =
    All-map (IsSnapshot s.sessions)
      (IsSnapshot (should_schedule_partial s.cfg now stamp session_id s.sessions).0) s.running
      (λ g.
        kept-IsSnapshot s.sessions _ g
          (λ k _. should_schedule_partial-buffer k s.cfg now stamp session_id s.sessions))
      h
advance-HasSnapshots (scheduling session_id final) now stamp s h =
    run_schedule-IsAllTaken session_id final (record s { handler = idle }) h

finish_transcription-IsSnapshot :
    (task : Task) (stamp : Time) (m : Sessions) (g : Goroutine)
    → is_active task.session_id g ≡ false
    → IsSnapshot m g
    → IsSnapshot (finish_transcription task stamp m).0 g
finish_transcription-IsSnapshot task stamp m g apart h =
    kept-IsSnapshot m _ g
      (λ k own.
        finish_transcription-buffer k task stamp m
          (ground (arith, eq_iff task.session_id k, own, apart)))
      h

finish-HasSnapshots :
    (task : Task) (now : Time) (m : Sessions) (others : List Goroutine)
    → All (λ g. is_active task.session_id g ≡ false) others
    → IsAllTaken m others
    → IsAllTaken (finish_transcription task now m).0 others
finish-HasSnapshots task now m [] apart h = tt
finish-HasSnapshots task now m (g ∷ others) apart h = (
  finish_transcription-IsSnapshot task now m g apart.0 h.0,
  finish-HasSnapshots task now m others apart.1 h.1,
)

push-HasSnapshots :
    (b : Bool) (session_id : String) (m : Sessions) (running : List Goroutine)
    → IsAllTaken m running
    → IsAllTaken m (if b then rescheduling session_id ∷ running else running)
push-HasSnapshots true session_id m running h = (tt, h)
push-HasSnapshots false session_id m running h = h

resume-HasSnapshots :
    (g : Goroutine) (outcome : Option TranscriptResult) (now : Time) (s : Service)
    → ((k : String) → active k (g ∷ s.running) ≤ 1)
    → IsAllTaken s.sessions (g ∷ s.running)
    → HasSnapshots (resume g outcome now s)
unfolding resume
resume-HasSnapshots (transcribing task) outcome now s one h = h
resume-HasSnapshots (finishing task) outcome now s one h =
    push-HasSnapshots _ task.session_id _ s.running (
      finish-HasSnapshots task now s.sessions s.running
        (count_if-eq-zero (is_active task.session_id) s.running
          (ground (arith, one task.session_id, eq_refl task.session_id)))
        h.1)
resume-HasSnapshots (rescheduling session_id) outcome now s one h =
    run_schedule-IsAllTaken session_id true s h.1

-- Both invariants together: exclusion keeps a session alive while a goroutine works on it.
abbrev IsFaithful : Service → Type 0
IsFaithful s = IsExclusive s × HasSnapshots s

step-IsFaithful : (a : Action) (s : Service) → IsFaithful s → IsFaithful (step a s)
step-IsFaithful a s h = (
  step-IsExclusive a s h.0,
  step_cases HasSnapshots a s h.1 (λ payload _. receive-HasSnapshots payload s h.1)
      (λ now stamp. advance-HasSnapshots s.handler now stamp s h.1)
      (λ g others n outcome now e.
        resume-HasSnapshots g outcome now (record s { running = others })
          (λ k.
            rw (← count_if-take_at (is_active k) n s.running e, h.0 k)
              (inflight_in-le (lookup k s.sessions)))
          (All-take_at (IsSnapshot s.sessions) n s.running e h.1)),
)

initial-IsFaithful : (s : Service) → IsInitial s → IsFaithful s
initial-IsFaithful s h = (initial-IsExclusive s h, rw h.no_goroutines tt)

-- In every state that the service reaches, each goroutine that transcribes for a session works on
-- audio with which the session's buffer begins, and the session is still there: nothing that comes
-- in while the recognizer runs changes or reorders what it was given.
pub reached_snapshots :
    (cfg : SttConfig) (accepted : Bool) (actions : List Action)
    → let s = reached cfg accepted actions in All (IsSnapshot s.sessions) s.running
reached_snapshots cfg accepted actions =
    (reached_inv IsFaithful initial-IsFaithful step-IsFaithful cfg accepted actions).1
