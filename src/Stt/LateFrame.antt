-- ===== src/Stt/LateFrame.antt =====
-- internal/stt/service.go: a frame that comes while the final transcription of its session runs.
use loqa_core.Base.{
  ℕ, ◌≡◌, String, true, none, some, List, [], ◌∷◌, lookup, insert, Time, take_at, arith, refl, ap,
  sym, ◌∙◌, eq_iff, count_if-take_at,
}
use loqa_core.Protocol.{AudioFrame}
use loqa_core.Stt.{Task, append_frame}
use loqa_core.Stt.World.{
  Service, Goroutine, idle, finishing, Action, deliver, handle, proceed, step, run, is_idle,
  run_schedule, step-proceed, is_active,
}
use loqa_core.Stt.Exclusion.{inflight_of, active, IsExclusive, inflight_in-le}
use loqa_core.Stt.Lifecycle.{
  schedule_busy, received_state, lookup-append_frame, busy-inflight, deliver_final, resumed_last,
}

busy_final :
    (s : Service) (frame : AudioFrame)
    → inflight_of frame.session_id s.sessions ≡ 1
    → run_schedule frame.session_id true
        (record s { sessions = append_frame frame s.sessions; handler = idle })
      ≡ record s {
        sessions =
            insert frame.session_id
              (record (received_state frame s.sessions) { pending_final = true })
              (append_frame frame s.sessions);
        handler = idle;
      }
unfolding run_schedule
busy_final s frame busy = rw (
    schedule_busy frame.session_id (append_frame frame s.sessions) (received_state frame s.sessions)
      (lookup-append_frame frame s.sessions)
      (busy-inflight (lookup frame.session_id s.sessions) busy))

run-split : (a b c : Action) (s : Service) → run (a ∷ b ∷ c ∷ []) s ≡ step c (run (a ∷ b ∷ []) s)
unfolding run
run-split a b c s = refl

-- The goroutine that ends is the only one of its session.
ending_alone :
    (s : Service) (task : Task) (n : ℕ) (others : List Goroutine) (k : String)
    → IsExclusive s
    → take_at n s.running ≡ some (finishing task, others)
    → k ≡ task.session_id
    → (inflight_of k s.sessions ≡ 1) × (active k others ≡ 0)
ending_alone s task n others k one chosen same = ground (
  arith,
  one k,
  inflight_in-le (lookup k s.sessions),
  count_if-take_at (is_active k) n s.running {x = finishing task} {rest = others} chosen,
  eq_iff task.session_id k,
)

-- A frame that comes for a session whose final transcription is about to end is lost: its audio is
-- added to the session's buffer and its request is noted, but the goroutine's last section removes
-- the session with both, and nothing is left that would transcribe them.
pub late_frame_lost :
    (s : Service) (task : Task) (n : ℕ) (others : List Goroutine) (frame : AudioFrame)
    (now stamp later : Time)
    → IsExclusive s
    → s.subscribed ≡ true
    → is_idle s.handler ≡ true
    → take_at n s.running ≡ some (finishing task, others)
    → task.final ≡ true
    → frame.final ≡ true
    → frame.session_id ≡ task.session_id
    → let t = run (deliver (some frame) ∷ handle now stamp ∷ proceed n none later ∷ []) s in
      (lookup frame.session_id t.sessions ≡ none)
      × (t.running ≡ others)
      × (active frame.session_id t.running ≡ 0)
      × (t.sent ≡ s.sent)
late_frame_lost s task n others frame now stamp later one subscribed free chosen last final same =
    let alone = ending_alone s task n others frame.session_id one chosen same in
    let s' : Service = record s {
      sessions =
          insert frame.session_id
            (record (received_state frame s.sessions) { pending_final = true })
            (append_frame frame s.sessions);
      handler = idle;
    } in
    let ended = resumed_last (record s' { running = others }) task none later last in
    rw
      (
        run-split,
        deliver_final s frame now stamp subscribed free final,
        busy_final s frame alone.0,
        step-proceed s' n none later (finishing task) others chosen,
      )
      (
        ended.2 frame.session_id ∙ (rw ((eq_iff task.session_id frame.session_id).1 (sym same))),
        ended.0,
        ap (active frame.session_id) ended.0 ∙ alone.1,
        ended.1,
      )
