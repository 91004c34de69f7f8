-- ===== src/Llm.antt =====
-- internal/llm: the language model service (service.go), and the merging of a request with the
-- settings (types.go). JSON is left out: a payload is what it decodes to, and `none` where it does
-- not. A goroutine of a request shares no variable with others, so that it is one function, of what
-- its generator does.
pub mod Ollama
pub mod Options
pub mod Local
pub mod Stream
mod Examples
use loqa_core.Base.{
  ℕ, zero, suc, ◌+◌, ◌*◌, ◌/◌, ◌<◌, String, append_text, ◌==◌, Bool, true, false, not, ◌&&◌, ◌||◌,
  Option, none, some, List, [], ◌∷◌, ◌++◌, Time, ℤ, pos, negsuc, int_ltb, ltb, is_zero_float,
  Float64, if◌then◌else◌,
}
use loqa_core.Bus.{Subscription, absent, live, drain}
use loqa_core.Config.{LlmConfig}
use loqa_core.Protocol.{
  LlmRequest, LlmResponse, subject_llm_response_partial, subject_llm_response_final,
}

pub record Request : Type 0 where
  pub session_id : String
  pub prompt : String
  pub system : String
  pub tier : String
  pub max_tokens : ℤ
  pub temperature : Float64
  pub trace_id : String

pub record Chunk : Type 0 where
  pub session_id : String
  pub content : String
  pub partial : Bool
  pub prompt_tokens : ℤ
  pub completion_tokens : ℤ
  pub latency : ℤ
  pub trace_id : String

-- The other fields are zero values. The code's error result is always nil.
abbrev pub options_from_config : LlmConfig → String → Request
options_from_config cfg req_tier = record {
  session_id = "";
  prompt = "";
  system = "";
  tier = if req_tier == "" then cfg.default_tier else req_tier;
  max_tokens = cfg.max_tokens;
  temperature = cfg.temperature;
  trace_id = "";
}

abbrev pub coalesce_int : ℤ → ℤ → ℤ
coalesce_int value fallback = if int_ltb (pos 0) value then value else fallback

-- What `handleRequest` hands to the generator.
unfoldable pub options_of : LlmConfig → LlmRequest → Request
options_of cfg req =
    let options = options_from_config cfg req.tier in
    record {
      session_id = req.session_id;
      prompt = req.prompt;
      system = req.system;
      tier = options.tier;
      max_tokens = coalesce_int req.max_tokens cfg.max_tokens;
      temperature =
          if not (is_zero_float req.temperature) then req.temperature else options.temperature;
      trace_id = req.trace_id;
    }

-- A message on the bus, with its subject.
pub record Outgoing : Type 0 where
  pub subject : String
  pub message : LlmResponse

-- latency.Milliseconds(), which rounds towards zero.
abbrev pub minus : ℕ → ℤ
minus zero = pos 0
minus (suc n) = negsuc n

abbrev pub milliseconds : ℤ → ℤ
milliseconds (pos n) = pos (n / 1000000)
milliseconds (negsuc n) = minus (suc n / 1000000)

abbrev pub response_of : Chunk → Time → LlmResponse
response_of chunk now = record {
  session_id = chunk.session_id;
  content = chunk.content;
  partial = chunk.partial;
  trace_id = chunk.trace_id;
  prompt_tokens = chunk.prompt_tokens;
  completion_tokens = chunk.completion_tokens;
  latency_ms = milliseconds chunk.latency;
  timestamp = now;
}

abbrev pub subject_of : Chunk → String
subject_of chunk =
    if not chunk.partial then subject_llm_response_final else subject_llm_response_partial

-- What is sent, and whether there was no error; the flag says whether the bus takes the message.
unfoldable pub publish_chunk : Bool → Time → Chunk → List Outgoing × Bool
publish_chunk accepted now chunk =
    if chunk.content == ""
    then ([], true)
    else if accepted
    then (record { subject = subject_of chunk; message = response_of chunk now } ∷ [], true)
    else ([], false)

pub record Service : Type 0 where
  pub cfg : LlmConfig
  pub sub : Subscription
  pub ready : Bool
  pub is_cancelled : Bool

abbrev pub new_service : LlmConfig → Service
new_service cfg = record { cfg = cfg; sub = absent; ready = false; is_cancelled = false }

unfoldable pub start : Bool → Service → Service × Bool
start accepted s =
    if not s.cfg.enabled
    then (s, true)
    else if not accepted
    then (s, false)
    else (record s { sub = live; ready = true }, true)

unfoldable pub close : Service → Service
close s = record s { is_cancelled = true; sub = drain s.sub }

unfoldable pub healthy : Service → Bool
healthy s = not s.cfg.enabled || s.ready

-- What the goroutine of a request sends, with the generator as a function; no goroutine is started
-- for a message that does not decode.
unfoldable pub handle_request :
    (Request → List Outgoing × Bool) → Option LlmRequest → Service → List Outgoing
handle_request generator none s = []
handle_request generator (some req) s = (generator (options_of s.cfg req)).0
