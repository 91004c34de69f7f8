-- ===== src/Llm/Ollama.antt =====
-- internal/llm/ollama.go: the generator that asks an Ollama server. What the server answers is an
-- argument.
use loqa_core.Base.{
  ℕ, String, ◌==◌, Bool, true, false, not, ◌&&◌, Option, none, some, List, [], ◌∷◌, ◌++◌, Time, ℤ,
  pos, int_ltb, ltb, Float64, is_finite, if◌then◌else◌,
}
use loqa_core.Llm.{Request, Chunk, Outgoing, publish_chunk}

-- What a line of the server's answer decodes to.
pub record OllamaStreamResponse : Type 0 where
  pub response : String
  pub done : Bool
  pub eval_count : ℤ
  pub prompt_eval_count : ℤ

pub record OllamaRequest : Type 0 where
  pub model : String
  pub prompt : String
  pub system : String
  pub stream : Bool
  pub temperature : Float64
  pub num_predict : ℤ

-- What the scanner finds next: a line after the context is done, a line of spaces, one that does
-- not decode, or an answer, which comes at a time since the start, and at a time of the clock, and
-- whose message the bus takes or not.
pub data Line : Type 0 where
  cancelled : Line
  blank : Line
  malformed : Line
  answer : OllamaStreamResponse → ℤ → Time → Bool → Line

-- The fields of *ollamaGenerator besides its endpoint.
pub record OllamaGenerator : Type 0 where
  pub model_fast : String
  pub model_balanced : String

abbrev pub fallback_model : OllamaGenerator → String
fallback_model g =
    if not (g.model_balanced == "")
    then g.model_balanced
    else if not (g.model_fast == "")
    then g.model_fast
    else "llama3.2:latest"

unfoldable pub model_for_tier : OllamaGenerator → String → String
model_for_tier g tier =
    if (tier == "fast") && not (g.model_fast == "")
    then g.model_fast
    else if not (tier == "fast") && (tier == "balanced") && not (g.model_balanced == "")
    then g.model_balanced
    else fallback_model g

abbrev pub payload_of : OllamaGenerator → Request → OllamaRequest
payload_of g req = record {
  model = model_for_tier g req.tier;
  prompt = req.prompt;
  system = req.system;
  stream = true;
  temperature = req.temperature;
  num_predict = req.max_tokens;
}

-- A count that is positive takes the place of the one before.
abbrev pub latest : ℤ → ℤ → ℤ
latest count before = if int_ltb (pos 0) count then count else before

abbrev pub chunk_of : Request → OllamaStreamResponse → ℤ → ℤ → ℤ → Chunk
chunk_of req r elapsed prompt_tokens completion_tokens = record {
  session_id = req.session_id;
  content = r.response;
  partial = not r.done;
  prompt_tokens = prompt_tokens;
  completion_tokens = completion_tokens;
  latency = elapsed;
  trace_id = req.trace_id;
}

-- Goes on where the consumer had no error, behind what it sent.
abbrev pub then_send : List Outgoing × Bool → List Outgoing × Bool → List Outgoing × Bool
then_send (sent, true) (later, ok) = (sent ++ later, ok)
then_send (sent, false) rest = (sent, false)

-- The loop over the lines, with `promptTokens` and `completionTokens`; the flag is whether the
-- scanner ends without an error. The loop's `accumulated` is never read, and is left out.
unfoldable pub stream : Request → Bool → ℤ → ℤ → List Line → List Outgoing × Bool
stream req scanned prompt_tokens completion_tokens [] = ([], scanned)
stream req scanned prompt_tokens completion_tokens (cancelled ∷ lines) = ([], false)
stream req scanned prompt_tokens completion_tokens (blank ∷ lines) =
    stream req scanned prompt_tokens completion_tokens lines
stream req scanned prompt_tokens completion_tokens (malformed ∷ lines) = ([], false)
stream req scanned prompt_tokens completion_tokens (answer r elapsed now accepted ∷ lines) =
    let prompts = latest r.prompt_eval_count prompt_tokens in
    let completions = latest r.eval_count completion_tokens in
    then_send (publish_chunk accepted now (chunk_of req r elapsed prompts completions))
      (stream req scanned prompts completions lines)

-- What the server does with the payload: no answer, or a status and the lines of its body. JSON has no
-- form for a temperature that is no number.
abbrev pub Server : Type 0
Server = OllamaRequest → Option (ℕ × List Line × Bool)

unfoldable pub generate : OllamaGenerator → Server → Request → List Outgoing × Bool
generate g server req =
    if is_finite req.temperature
    then elim (server (payload_of g req)) [
      | none ↦ ([], false)
      | some (status, lines, scanned) ↦
          if not (ltb status 300) then ([], false) else stream req scanned (pos 0) (pos 0) lines
    ]
    else ([], false)
