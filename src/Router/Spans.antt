-- ===== src/Router/Spans.antt =====
-- internal/router/service.go: the tracing spans of the sessions.
use loqa_core.Base.{
  ℕ, ◌+◌, ◌≤◌, ◌<◌, ◌≡◌, String, ◌==◌, Bool, false, Option, none, some, List, lookup, Time,
  count_if, count_values, count_values-insert, count_values-delete-le, ltb, eqb, if◌then◌else◌,
  arith,
}
use loqa_core.Config.{RouterConfig}
use loqa_core.Protocol.{Transcript, LlmResponse, TtsStatus}
use loqa_core.Router.{
  SessionState, SpanEvent, begun, ended, Service, Action, transcript, llm_response, tts_done,
  publish, new_service, opened, handle_transcript, handle_llm_response, finish_session,
  handle_tts_done, step, run, run_inv, handle_tts_done_cases, publish_speech_cases,
}

abbrev pub holds : ℕ → SessionState → Bool
holds n state = elim state.span [ none ↦ false | some span ↦ eqb span n ]

abbrev begins_it : ℕ → SpanEvent → Bool
begins_it n (begun span session_id voice tier) = eqb span n
begins_it n _ = false

abbrev ends_it : ℕ → SpanEvent → Bool
ends_it n (ended span) = eqb span n
ends_it n _ = false

-- How many sessions hold a span, and how often it was begun and ended.
abbrev pub holders : ℕ → Service → ℕ
holders n s = count_values (holds n) s.sessions

abbrev pub begins : ℕ → Service → ℕ
begins n s = count_if (begins_it n) s.trace

abbrev pub ends : ℕ → Service → ℕ
ends n s = count_if (ends_it n) s.trace

-- The spans that were begun are those below `next_span`, each once; one is ended at most once, and
-- not while a session holds it.
abbrev pub IsAccounted : Service → Type 0
IsAccounted s =
    (n : ℕ)
    → (holders n s + ends n s ≤ begins n s) × (begins n s ≡ (if ltb n s.next_span then 1 else 0))

pub handle_transcript-IsAccounted :
    (payload : Option Transcript) (now stamp : Time) (s : Service)
    → IsAccounted s
    → IsAccounted (handle_transcript payload now stamp s)
unfolding handle_transcript
handle_transcript-IsAccounted none now stamp s h = h
handle_transcript-IsAccounted (some t) now stamp s h =
    λ n. ground (arith, h n, count_values-insert (holds n) t.session_id (opened s t now) s.sessions)

handle_llm_response-IsAccounted :
    (payload : Option LlmResponse) (s : Service)
    → IsAccounted s
    → IsAccounted (handle_llm_response payload s)
unfolding handle_llm_response
handle_llm_response-IsAccounted none s h = h
handle_llm_response-IsAccounted (some resp) s h = λ n. ground (arith, h n)

finish_session-IsAccounted :
    (session_id : String) (state : SessionState) (now : Time) (s : Service)
    → lookup session_id s.sessions ≡ some state
    → IsAccounted s
    → IsAccounted (finish_session session_id state now s)
finish_session-IsAccounted session_id state now s e h n =
    ground (arith, h n, e, count_values-delete-le (holds n) session_id s.sessions)

handle_tts_done-IsAccounted :
    (payload : Option TtsStatus) (now : Time) (s : Service)
    → IsAccounted s
    → IsAccounted (handle_tts_done payload now s)
handle_tts_done-IsAccounted payload now s h =
    handle_tts_done_cases IsAccounted payload now s h
      (λ session_id state e. finish_session-IsAccounted session_id state now s e h)

pub step-IsAccounted : (a : Action) (s : Service) → IsAccounted s → IsAccounted (step a s)
unfolding step
step-IsAccounted (transcript payload now stamp) s h =
    handle_transcript-IsAccounted payload now stamp s h
step-IsAccounted (llm_response payload) s h = handle_llm_response-IsAccounted payload s h
step-IsAccounted (tts_done payload now) s h = handle_tts_done-IsAccounted payload now s h
step-IsAccounted (publish k) s h = publish_speech_cases IsAccounted k s h (λ req others e. h)

pub new_service-IsAccounted :
    (cfg : RouterConfig) (has_histogram : Bool) → IsAccounted (new_service cfg has_histogram)
unfolding new_service
new_service-IsAccounted cfg has_histogram n = (omega arith, ground arith)

pub reached-IsAccounted :
    (cfg : RouterConfig) (has_histogram : Bool) (actions : List Action)
    → IsAccounted (run actions (new_service cfg has_histogram))
reached-IsAccounted cfg has_histogram actions =
    run_inv IsAccounted step-IsAccounted actions _ (new_service-IsAccounted cfg has_histogram)

-- In every state that the service reaches, each of its spans was begun at most once and ended at
-- most once, was begun if it was ended, and is not held by a session once it is ended; no two
-- sessions hold the same span.
pub reached_spans :
    (cfg : RouterConfig) (has_histogram : Bool) (actions : List Action) (n : ℕ)
    → let s = run actions (new_service cfg has_histogram) in
      (holders n s + ends n s ≤ begins n s) × (begins n s ≤ 1)
reached_spans cfg has_histogram actions n =
    let h = reached-IsAccounted cfg has_histogram actions n in (h.0, ground (arith, h.1))

-- A span that no session holds and that is not the next one.
abbrev IsAdrift : ℕ → ℕ → Service → Type 0
IsAdrift n count s = (holders n s ≡ 0) × (n < s.next_span) × (ends n s ≡ count)

step-IsAdrift :
    (n count : ℕ) (a : Action) (s : Service) → IsAdrift n count s → IsAdrift n count (step a s)
unfolding step handle_transcript handle_llm_response
step-IsAdrift n count (transcript none now stamp) s h = h
step-IsAdrift n count (transcript (some t) now stamp) s h =
    ground (arith, count_values-insert (holds n) t.session_id (opened s t now) s.sessions)
step-IsAdrift n count (llm_response none) s h = h
step-IsAdrift n count (llm_response (some resp)) s h = ground arith
step-IsAdrift n count (tts_done payload now) s h =
    handle_tts_done_cases (IsAdrift n count) payload now s h λ session_id state e.
      ground (arith, e, count_values-delete-le (holds n) session_id s.sessions)
step-IsAdrift n count (publish k) s h = publish_speech_cases (IsAdrift n count) k s h (λ _ _ _. h)

-- A second transcript of a session that is still open gives the session a new span and forgets the
-- old one: whatever happens later, the old span is never ended.
pub replaced_span_never_ends :
    (s : Service) (t : Transcript) (now stamp : Time) (state : SessionState) (n : ℕ)
    (later : List Action)
    → IsAccounted s
    → t.text == "" ≡ false
    → lookup t.session_id s.sessions ≡ some state
    → state.span ≡ some n
    → ends n (run later (handle_transcript (some t) now stamp s)) ≡ 0
unfolding handle_transcript
replaced_span_never_ends s t now stamp state n later h text is_open held =
    (run_inv (IsAdrift n 0) (step-IsAdrift n 0) later _ (
      ground
        (arith, h n, count_values-insert (holds n) t.session_id (opened s t now) s.sessions))).2
