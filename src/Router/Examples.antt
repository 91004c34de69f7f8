-- ===== src/Router/Examples.antt =====
-- internal/router/service.go: runs of the service, and its theorems at concrete inputs.
use loqa_core.Base.{
  ◌≡◌, ◌≤◌, ◌+◌, refl, String, ◌==◌, true, false, none, some, List, [], ◌∷◌, All, pos, lookup,
  insert, delete, take_at, if◌then◌else◌, time_sub,
}
use loqa_core.Config.{RouterConfig}
use loqa_core.Protocol.{Transcript, LlmResponse, TtsStatus}
use loqa_core.Router.{
  Service, Action, transcript, llm_response, tts_done, llm, tts, begun, responded, spoken, ended,
  new_service, run, step, handle_transcript, handle_llm_response, publish_speech, handle_tts_done,
  prompt_of, opened,
}
use loqa_core.Router.Spans.{
  holders, begins, ends, reached_spans, replaced_span_never_ends, reached-IsAccounted,
}
use loqa_core.Router.Sessions.{turn, answer, turn_lem}
use loqa_core.Router.Requests.{IsOutgoing, IsSpeech, reached_requests}

abbrev settings : RouterConfig
settings = record {
  enabled = true;
  default_tier = "balanced";
  default_voice = "en-US";
  target = "default";
}

abbrev said : Transcript
said = record {
  session_id = "kitchen";
  text = "lights on";
  partial = false;
  timestamp = 5;
  confidence = 0;
}

abbrev answered : LlmResponse
answered = record {
  session_id = "kitchen";
  content = "they are on";
  partial = false;
  trace_id = "t1";
  prompt_tokens = pos 9;
  completion_tokens = pos 4;
  latency_ms = pos 20;
  timestamp = 6;
}

abbrev played : TtsStatus
played = record { session_id = "kitchen"; target = "default"; completed = true; timestamp = 7 }

abbrev fresh : Service
fresh = new_service settings true

turn_leaves_nothing : (run (turn said answered played 10 11 1010) fresh).sessions ≡ []
unfolding run step new_service handle_transcript handle_llm_response publish_speech handle_tts_done
    lookup insert delete take_at
turn_leaves_nothing = refl

turn_lem_example :
    let u = run (turn said answered played 10 11 1010) fresh in
    (u.sent ≡ tts (answer settings answered) ∷ llm (prompt_of fresh said 11) ∷ [])
    × (u.latencies ≡ record { duration = pos 1000; voice = "en-US"; tier = "balanced" } ∷ [])
    × (u.trace
        ≡ ended 0
          ∷ spoken 0
          ∷ responded 0 (pos 9) (pos 4)
          ∷ begun 0 "kitchen" "en-US" "balanced"
          ∷ [])
    × (u.publishing ≡ [])
    × ((k : String)
        → lookup k u.sessions ≡ (if "kitchen" == k then none else lookup k fresh.sessions))
unfolding new_service time_sub
turn_lem_example = turn_lem fresh said answered played 10 11 1010 refl refl refl refl refl

-- The same question twice before the answer, then a whole turn.
abbrev repeated : List Action
repeated = transcript (some said) 1 2 ∷ turn said answered played 10 11 1010

reached_spans_example :
    let s = run repeated fresh in (holders 1 s + ends 1 s ≤ begins 1 s) × (begins 1 s ≤ 1)
reached_spans_example = reached_spans settings true repeated 1

abbrev asked : Service
asked = run (transcript (some said) 1 2 ∷ []) fresh

replaced_span_never_ends_example :
    ends 0 (
      run
        (llm_response (some answered) ∷ tts_done (some played) 9 ∷ [])
        (handle_transcript (some said) 3 4 asked))
    ≡ 0
unfolding run step new_service handle_transcript insert lookup
replaced_span_never_ends_example =
    replaced_span_never_ends asked said 3 4 (opened fresh said 1) 0
      (llm_response (some answered) ∷ tts_done (some played) 9 ∷ [])
      (reached-IsAccounted settings true (transcript (some said) 1 2 ∷ [])) refl refl refl

reached_requests_example :
    let s = run repeated fresh in
    All (IsOutgoing settings) s.sent × All (IsSpeech settings) s.publishing
reached_requests_example = reached_requests settings true repeated
