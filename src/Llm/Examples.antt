-- ===== src/Llm/Examples.antt =====
-- internal/llm: runs of the service, and its theorems at concrete inputs.
use loqa_core.Base.{
  is_finite, ◌≡◌, refl, String, Bool, true, false, ◌&&◌, List, [], ◌∷◌, All, count_if, keep_if,
  some, ℤ, pos, is_zero_float,
}
use loqa_core.Config.{LlmConfig}
use loqa_core.Protocol.{LlmRequest}
use loqa_core.Llm.{
  Request, options_of, publish_chunk, handle_request, new_service, start, healthy, close,
}
use loqa_core.Llm.Ollama.{
  OllamaStreamResponse, OllamaGenerator, Server, Line, blank, answer, model_for_tier, stream,
  generate,
}
use loqa_core.Llm.Stream.{answers, contents, texts, is_text, is_final, IsAnswer, stream_lem}

abbrev settings : LlmConfig
settings = record {
  enabled = true;
  mode = "ollama";
  endpoint = "http://localhost:11434";
  command = "";
  model_fast = "small";
  model_balanced = "";
  default_tier = "balanced";
  max_tokens = pos 256;
  temperature = 4604480259023595110;
}

abbrev models : OllamaGenerator
models = record { model_fast = "small"; model_balanced = "" }

abbrev asked : LlmRequest
asked = record {
  session_id = "kitchen";
  prompt = "lights on";
  system = "";
  tier = "";
  max_tokens = pos 0;
  temperature = 0;
  trace_id = "t1";
  timestamp = 5;
}

abbrev piece : String → Bool → ℤ → OllamaStreamResponse
piece text done tokens = record {
  response = text;
  done = done;
  eval_count = tokens;
  prompt_eval_count = pos 0;
}

-- How the server ends a stream: the last line has the counts, and no text.
abbrev body : List Line
body =
    answer (piece "they " false (pos 0)) (pos 5000000) 10 true
    ∷ blank
    ∷ answer (piece "are on" false (pos 0)) (pos 7000000) 11 true
    ∷ answer (piece "" true (pos 4)) (pos 8000000) 12 true
    ∷ []

abbrev server : Server
server payload = some (200, body, true)

abbrev to_generator : Request
to_generator = record {
  session_id = "kitchen";
  prompt = "lights on";
  system = "";
  tier = "balanced";
  max_tokens = pos 256;
  temperature = 4604480259023595110;
  trace_id = "t1";
}

no_final_response :
    count_if is_final (handle_request (generate models server) (some asked) (new_service settings))
    ≡ 0
unfolding handle_request generate is_finite stream publish_chunk model_for_tier options_of
    is_zero_float
no_final_response = refl

stream_lem_example :
    let sent = (stream to_generator true (pos 0) (pos 0) body).0 in
    (contents sent ≡ keep_if is_text (texts (answers body)))
    × (count_if is_final sent ≡ count_if (λ r. r.done && is_text r.response) (answers body))
    × All (IsAnswer to_generator) sent
stream_lem_example = stream_lem to_generator true (pos 0) (pos 0) body

start_then_close :
    (healthy (start true (new_service settings)).0 ≡ true)
    × (healthy (start false (new_service settings)).0 ≡ false)
    × ((close (start true (new_service settings)).0).is_cancelled ≡ true)
unfolding start healthy close
start_then_close = (refl, refl, refl)
