-- ===== src/Router/Waiting.antt =====
-- internal/router/service.go: a session waits, with its span open, until its speech is done.
use loqa_core.Base.{
  ℕ, Option, Time, Bool-cases, Option-cases, inl, inr, ◌≡◌, ◌∙◌, arith, String, ◌==◌, Bool, true,
  false, not, ◌&&◌, none, some, List, [], ◌∷◌, lookup, lookup-insert, lookup-delete, All,
  count_values-delete-le,
}
use loqa_core.Router.{
  SessionState, Service, Action, transcript, llm_response, tts_done, publish, handle_transcript,
  handle_llm_response, finish_session, publish_speech_cases, step, run, opened, run_inv,
  handle_tts_done,
}
use loqa_core.Protocol.{TtsStatus}
use loqa_core.Router.Spans.{IsAccounted, step-IsAccounted, holds, ends}

-- An action that brings no transcript of the session and does not say that its speech is done.
abbrev pub is_other : String → Action → Bool
is_other k (transcript none now stamp) = true
is_other k (transcript (some t) now stamp) = not (t.session_id == k)
is_other k (tts_done none now) = true
is_other k (tts_done (some status) now) = not (status.completed && (status.session_id == k))
is_other k _ = true

abbrev Waits : String → SessionState → Service → Type 0
Waits k state s = lookup k s.sessions ≡ some state

finish_session-Waits :
    (k session_id : String) (state other : SessionState) (now : Time) (s : Service)
    → (session_id == k) ≡ false
    → Waits k state s
    → Waits k state (finish_session session_id other now s)
finish_session-Waits k session_id state other now s apart h =
    lookup-delete session_id k s.sessions ∙ ground (arith, apart, h)

handle_tts_done-Waits :
    (k : String) (state : SessionState) (payload : Option TtsStatus) (now : Time) (s : Service)
    → is_other k (tts_done payload now) ≡ true
    → Waits k state s
    → Waits k state (handle_tts_done payload now s)
unfolding handle_tts_done
handle_tts_done-Waits k state none now s other h = h
handle_tts_done-Waits k state (some status) now s other h = elim (Bool-cases status.completed) [
  | inl completed ↦ rw completed (elim (Option-cases (lookup status.session_id s.sessions)) [
    | inl e ↦ rw (e, handle_tts_done) h
    | inr (found, e) ↦
        rw (e, handle_tts_done)
          (finish_session-Waits k status.session_id state found now s
            (ground (arith, completed, other)) h)
  ])
  | inr going ↦ rw going h
]

step-Waits :
    (k : String) (state : SessionState) (a : Action) (s : Service)
    → is_other k a ≡ true
    → Waits k state s
    → Waits k state (step a s)
unfolding step handle_transcript handle_llm_response
step-Waits k state (transcript none now stamp) s other h = h
step-Waits k state (transcript (some t) now stamp) s other h =
    ground (arith, other, h, lookup-insert t.session_id k (opened s t now) s.sessions)
step-Waits k state (llm_response none) s other h = h
step-Waits k state (llm_response (some resp)) s other h = ground (arith, h)
step-Waits k state (tts_done payload now) s other h =
    handle_tts_done-Waits k state payload now s other h
step-Waits k state (publish n) s other h = publish_speech_cases (Waits k state) n s h (λ _ _ _. h)

run-Waits :
    (k : String) (state : SessionState) (actions : List Action) (s : Service)
    → All (λ a. is_other k a ≡ true) actions
    → Waits k state s
    → Waits k state (run actions s)
unfolding run
run-Waits k state [] s others h = h
run-Waits k state (a ∷ actions) s others h =
    run-Waits k state actions (step a s) others.1 (step-Waits k state a s others.0 h)

-- A span that a session holds is not ended.
held-ends :
    (n : ℕ) (k : String) (state : SessionState) (s : Service)
    → IsAccounted s
    → state.span ≡ some n
    → Waits k state s
    → ends n s ≡ 0
held-ends n k state s h held there =
    let counted = count_values-delete-le (holds n) k s.sessions in
    ground (arith, h n, held, there, counted)

-- Whatever else the router is told, a session keeps its state, and its span is not ended.
pub run-waiting :
    (k : String) (state : SessionState) (n : ℕ) (actions : List Action) (s : Service)
    → IsAccounted s
    → All (λ a. is_other k a ≡ true) actions
    → lookup k s.sessions ≡ some state
    → state.span ≡ some n
    → (lookup k (run actions s).sessions ≡ some state) × (ends n (run actions s) ≡ 0)
run-waiting k state n actions s h others there held =
    let kept = run-Waits k state actions s others there in
    (
      kept,
      held-ends n k state (run actions s) (run_inv IsAccounted step-IsAccounted actions s h) held
          kept,
    )
