-- ===== src/Router.antt =====
-- internal/router/service.go: the voice router, which turns transcripts into prompts and responses
-- into speech. A handler has one critical section, and what it does after that is done with values
-- that it took there, so each handler is one function here. JSON is left out: a handler takes the
-- decoded message, `none` for one that does not decode.
pub mod Sessions
pub mod Spans
pub mod Waiting
pub mod Requests
pub mod Subscriptions
mod Examples
use loqa_core.Base.{
  ℕ, suc, String, ◌==◌, Bool, true, false, not, ◌&&◌, ◌||◌, Option, none, some, List, [], ◌∷◌, Map,
  lookup, insert, delete, Time, time_sub, ℤ, take_at, if◌then◌else◌, ◌≡◌, Bool-cases, Option-cases,
  inl, inr,
}
use loqa_core.Bus.{Subscription, absent, live, drained, drain, is_set}
use loqa_core.Config.{RouterConfig}
use loqa_core.Protocol.{Transcript, LlmRequest, LlmResponse, TtsRequest, TtsStatus}

-- A span of the tracer is known by the order in which it was started. The tracer never gives nil,
-- for which the code checks.
pub record SessionState : Type 0 where
  pub last_prompt : String
  pub voice : String
  pub tier : String
  pub started : Time
  pub span : Option ℕ

-- What the service does to its spans, with the attributes that it gives.
pub data SpanEvent : Type 0 where
  begun : ℕ → String → String → String → SpanEvent
  responded : ℕ → ℤ → ℤ → SpanEvent
  spoken : ℕ → SpanEvent
  ended : ℕ → SpanEvent

-- A value of the histogram loqa.voice_latency_ms, in nanoseconds.
pub record Latency : Type 0 where
  pub duration : ℤ
  pub voice : String
  pub tier : String

-- What is handed to the bus.
pub data Outgoing : Type 0 where
  llm : LlmRequest → Outgoing
  tts : TtsRequest → Outgoing

-- Beside the source's fields: the goroutines that publish speech requests, and what went out, the
-- newest first.
pub record Service : Type 0 where
  pub cfg : RouterConfig
  pub sub_transcripts : Subscription
  pub sub_llm : Subscription
  pub sub_tts_done : Subscription
  pub cancelled : Bool
  pub latency_enabled : Bool
  pub sessions : Map SessionState
  pub next_span : ℕ
  pub publishing : List TtsRequest
  pub sent : List Outgoing
  pub trace : List SpanEvent
  pub latencies : List Latency

-- The flag says whether the histogram could be made.
unfoldable pub new_service : RouterConfig → Bool → Service
new_service cfg has_histogram = record {
  cfg = cfg;
  sub_transcripts = absent;
  sub_llm = absent;
  sub_tts_done = absent;
  cancelled = false;
  latency_enabled = has_histogram;
  sessions = [];
  next_span = 0;
  publishing = [];
  sent = [];
  trace = [];
  latencies = [];
}

-- The three flags say whether the bus accepts each subscription; the result is whether there was no
-- error.
unfoldable pub start : Bool → Bool → Bool → Service → Service × Bool
start transcripts llm_final tts_done s =
    if not s.cfg.enabled
    then (s, true)
    else if not transcripts
    then (s, false)
    else if not llm_final
    then (record s { sub_transcripts = drained }, false)
    else if not tts_done
    then (record s { sub_transcripts = drained; sub_llm = drained }, false)
    else (record s { sub_transcripts = live; sub_llm = live; sub_tts_done = live }, true)

-- `Close` up to its wait for the goroutines.
unfoldable pub close : Service → Service
close s = record s {
  cancelled = true;
  sub_transcripts = drain s.sub_transcripts;
  sub_llm = drain s.sub_llm;
  sub_tts_done = drain s.sub_tts_done;
}

unfoldable pub healthy : Service → Bool
healthy s =
    if not s.cfg.enabled
    then true
    else is_set s.sub_transcripts && is_set s.sub_llm && is_set s.sub_tts_done

-- The session for a transcript that was read at `now`.
abbrev pub opened : Service → Transcript → Time → SessionState
opened s transcript now = record {
  last_prompt = transcript.text;
  voice = s.cfg.default_voice;
  tier = s.cfg.default_tier;
  started = now;
  span = some s.next_span;
}

abbrev pub prompt_of : Service → Transcript → Time → LlmRequest
prompt_of s transcript stamp = record {
  session_id = transcript.session_id;
  prompt = transcript.text;
  system = "";
  tier = s.cfg.default_tier;
  max_tokens = loqa_core.Base.pos 0;
  temperature = 0;
  trace_id = "";
  timestamp = stamp;
}

-- The clock is read twice: for the session, and for the request.
unfoldable pub handle_transcript : Option Transcript → Time → Time → Service → Service
handle_transcript none now stamp s = s
handle_transcript (some transcript) now stamp s = if transcript.text == "" then s else record s {
  sessions = insert transcript.session_id (opened s transcript now) s.sessions;
  next_span = suc s.next_span;
  trace = begun s.next_span transcript.session_id s.cfg.default_voice s.cfg.default_tier ∷ s.trace;
  sent = llm (prompt_of s transcript stamp) ∷ s.sent;
}

-- The voice of an answer: the session's, if there is one with a voice.
abbrev pub voice_for : RouterConfig → Option SessionState → String
voice_for cfg none = cfg.default_voice
voice_for cfg (some state) = if state.voice == "" then cfg.default_voice else state.voice

abbrev pub note_response : Option SessionState → LlmResponse → List SpanEvent → List SpanEvent
note_response none resp trace = trace
note_response (some state) resp trace = elim state.span [
  | none ↦ trace
  | some span ↦ responded span resp.prompt_tokens resp.completion_tokens ∷ trace
]

abbrev pub speech_of : Service → LlmResponse → TtsRequest
speech_of s resp = record {
  session_id = resp.session_id;
  text = resp.content;
  voice = voice_for s.cfg (lookup resp.session_id s.sessions);
  target = s.cfg.target;
  trace_id = resp.trace_id;
}

unfoldable pub handle_llm_response : Option LlmResponse → Service → Service
handle_llm_response none s = s
handle_llm_response (some resp) s = if resp.content == "" then s else record s {
  trace = note_response (lookup resp.session_id s.sessions) resp s.trace;
  publishing = speech_of s resp ∷ s.publishing;
}

-- A goroutine of `handleLLMResponse` publishes its request and ends.
unfoldable pub publish_speech : ℕ → Service → Service
publish_speech n s = elim (take_at n s.publishing) [
  | none ↦ s
  | some (req, others) ↦ record s { publishing = others; sent = tts req ∷ s.sent }
]

abbrev pub note_end : SessionState → List SpanEvent → List SpanEvent
note_end state trace = elim state.span [
  | none ↦ trace
  | some span ↦ ended span ∷ spoken span ∷ trace
]

abbrev pub latency_of : SessionState → Time → Latency
latency_of state now = record {
  duration = time_sub now state.started;
  voice = state.voice;
  tier = state.tier;
}

-- The end of a session that was found.
abbrev pub finish_session : String → SessionState → Time → Service → Service
finish_session session_id state now s = record s {
  sessions = delete session_id s.sessions;
  trace = note_end state s.trace;
  latencies = if s.latency_enabled then latency_of state now ∷ s.latencies else s.latencies;
}

unfoldable pub handle_tts_done : Option TtsStatus → Time → Service → Service
handle_tts_done none now s = s
handle_tts_done (some status) now s =
    if not status.completed then s else elim (lookup status.session_id s.sessions) [
      | none ↦ s
      | some state ↦ finish_session status.session_id state now s
    ]

-- What the bus and the scheduler can do to the service.
pub data Action : Type 0 where
  transcript : Option Transcript → Time → Time → Action
  llm_response : Option LlmResponse → Action
  tts_done : Option TtsStatus → Time → Action
  publish : ℕ → Action

unfoldable pub step : Action → Service → Service
step (transcript payload now stamp) s = handle_transcript payload now stamp s
step (llm_response payload) s = handle_llm_response payload s
step (tts_done payload now) s = handle_tts_done payload now s
step (publish n) s = publish_speech n s

unfoldable pub run : List Action → Service → Service
run [] s = s
run (a ∷ actions) s = run actions (step a s)

pub run_inv {ℓ} :
    (P : Service → Type ℓ)
    → ((a : Action) (s : Service) → P s → P (step a s))
    → (actions : List Action) (s : Service) → P s
    → P (run actions s)
unfolding run
run_inv P keep [] s h = h
run_inv P keep (a ∷ actions) s h = run_inv P keep actions (step a s) (keep a s h)

-- What holds of the service as it was, and after the end of any session that was found.
pub handle_tts_done_cases {ℓ} :
    (P : Service → Type ℓ) (payload : Option TtsStatus) (now : Time) (s : Service)
    → P s
    → ((session_id : String) (state : SessionState)
        → lookup session_id s.sessions ≡ some state
        → P (finish_session session_id state now s))
    → P (handle_tts_done payload now s)
unfolding handle_tts_done
handle_tts_done_cases P none now s stay finish = stay
handle_tts_done_cases P (some status) now s stay finish = elim (Bool-cases status.completed) [
  | inl completed ↦ rw completed (elim (Option-cases (lookup status.session_id s.sessions)) [
    | inl e ↦ rw (e, handle_tts_done) stay
    | inr (state, e) ↦ rw (e, handle_tts_done) (finish status.session_id state e)
  ])
  | inr other ↦ rw other stay
]

pub publish_speech_cases {ℓ} :
    (P : Service → Type ℓ) (n : ℕ) (s : Service)
    → P s
    → ((req : TtsRequest) (others : List TtsRequest)
        → take_at n s.publishing ≡ some (req, others)
        → P (record s { publishing = others; sent = tts req ∷ s.sent }))
    → P (publish_speech n s)
unfolding publish_speech
publish_speech_cases P n s stay sends = elim (Option-cases (take_at n s.publishing)) [
  | inl e ↦ rw (e, publish_speech) stay
  | inr ((req, others), e) ↦ rw (e, publish_speech) (sends req others e)
]
