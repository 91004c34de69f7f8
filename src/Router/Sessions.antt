-- ===== src/Router/Sessions.antt =====
-- internal/router/service.go: what a voice turn does to the sessions, step by step.
use loqa_core.Base.{
  ◌≡◌, refl, ◌∙◌, String, ◌==◌, true, false, none, some, List, [], ◌∷◌, Map, lookup, insert,
  lookup-insert, lookup-insert_self, lookup-delete, Time, take_at, arith, if◌then◌else◌, if-same,
}
use loqa_core.Config.{RouterConfig}
use loqa_core.Protocol.{Transcript, LlmResponse, TtsRequest, TtsStatus}
use loqa_core.Router.{
  SessionState, begun, responded, spoken, ended, llm, tts, Service, Action, transcript,
  llm_response, tts_done, publish, opened, prompt_of, latency_of, handle_transcript,
  handle_llm_response, publish_speech, handle_tts_done, step, run,
}

-- A turn of one session, each message on time: the transcript, the response, its publication by the
-- goroutine, and the end of the playback.
abbrev pub turn : Transcript → LlmResponse → TtsStatus → Time → Time → Time → List Action
turn t resp status now stamp later =
    transcript (some t) now stamp
    ∷ llm_response (some resp)
    ∷ publish 0
    ∷ tts_done (some status) later
    ∷ []

-- The speech that answers: in the default voice, for the configured target.
abbrev pub answer : RouterConfig → LlmResponse → TtsRequest
answer cfg resp = record {
  session_id = resp.session_id;
  text = resp.content;
  voice = cfg.default_voice;
  target = cfg.target;
  trace_id = resp.trace_id;
}

pub after_delete :
    (key k : String) (new : SessionState) (m : Map SessionState)
    → (if key == k then none else lookup k (insert key new m))
      ≡ (if key == k then none else lookup k m)
after_delete key k new m = ground (arith, lookup-insert key k new m)

-- A turn whose messages agree on the session and whose transcript and response have a text sends
-- one prompt with the transcript's text and then one speech request with the response's text. It
-- records one latency, from the transcript to the end of the playback, if there is a histogram,
-- ends the span that it began, and leaves no session behind; the other sessions are as they were.
pub turn_lem :
    (s : Service) (t : Transcript) (resp : LlmResponse) (status : TtsStatus)
    (now stamp later : Time)
    → t.text == "" ≡ false
    → resp.content == "" ≡ false
    → status.completed ≡ true
    → resp.session_id ≡ t.session_id
    → status.session_id ≡ t.session_id
    → let u = run (turn t resp status now stamp later) s in
      (u.sent ≡ tts (answer s.cfg resp) ∷ llm (prompt_of s t stamp) ∷ s.sent)
      × (u.latencies ≡ (
          if s.latency_enabled
          then latency_of (opened s t now) later ∷ s.latencies
          else s.latencies))
      × (u.trace
          ≡ ended s.next_span
            ∷ spoken s.next_span
            ∷ responded s.next_span resp.prompt_tokens resp.completion_tokens
            ∷ begun s.next_span t.session_id s.cfg.default_voice s.cfg.default_tier
            ∷ s.trace)
      × (u.publishing ≡ s.publishing)
      × ((k : String)
          → lookup k u.sessions ≡ (if t.session_id == k then none else lookup k s.sessions))
unfolding run step handle_transcript handle_llm_response publish_speech handle_tts_done take_at
turn_lem s t resp status now stamp later said answered done same same' =
    let there = lookup-insert_self t.session_id (opened s t now) s.sessions in
    simp (said, answered, done, same, same', there, if-same)
      (
        refl,
        refl,
        refl,
        refl,
        λ k.
            lookup-delete t.session_id k _
            ∙ after_delete t.session_id k (opened s t now) s.sessions,
      )
