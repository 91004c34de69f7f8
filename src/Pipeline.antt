-- ===== src/Pipeline.antt =====
-- A voice turn through internal/router, internal/llm and internal/tts over the bus: what one service
-- sends on a subject is what the subscriber of the subject handles. The bus keeps the order; a goroutine of
-- the router is an action of its own.
pub mod Turn
pub mod Silence
pub mod Mocks
mod Examples
use loqa_core.Base.{
  ℕ, String, ◌==◌, Bool, Option, none, some, List, [], ◌∷◌, ◌++◌, map, Time, ℤ, if◌then◌else◌,
}
use loqa_core.Protocol.{
  Transcript, LlmRequest, LlmResponse, TtsRequest, AudioChunk, TtsStatus,
  subject_llm_response_final, subject_transcript_final,
}
use loqa_core.Stt.{Message as SttMessage}
use loqa_core.Router.{
  Service as RouterService, Outgoing as RouterOutgoing, llm, tts, handle_transcript,
  handle_llm_response, publish_speech, handle_tts_done,
}
use loqa_core.Llm.{Service as LlmService, Request, Outgoing as LlmOutgoing, handle_request}
use loqa_core.Tts.{Worker, Received, Outgoing as TtsOutgoing, audio, done, new_worker, rounds}

-- What lies on the bus, each message on its subject.
pub data BusMessage : Type 0 where
  final_transcript : Transcript → BusMessage
  prompt : LlmRequest → BusMessage
  final_response : LlmResponse → BusMessage
  speech : TtsRequest → BusMessage
  packet : AudioChunk → BusMessage
  status : TtsStatus → BusMessage

-- The generator, and what the synthesizer hands to the goroutine of a request.
pub record Backends : Type 0 where
  pub generate : Request → List LlmOutgoing × Bool
  pub synthesize : TtsRequest → List Received

-- The services, the bus, and the packets that reached a device.
pub record System : Type 0 where
  pub router : RouterService
  pub language_model : LlmService
  pub bus : List BusMessage
  pub played : List AudioChunk

-- The router listens to final transcripts and responses only.
abbrev pub heard : Option SttMessage → List BusMessage
heard none = []
heard (some message) =
    if message.subject == subject_transcript_final
    then final_transcript message.transcript ∷ []
    else []

unfoldable pub final_responses : List LlmOutgoing → List BusMessage
final_responses [] = []
final_responses (out ∷ sent) =
    let rest = final_responses sent in
    if out.subject == subject_llm_response_final then final_response out.message ∷ rest else rest

abbrev pub routed : RouterOutgoing → BusMessage
routed (llm req) = prompt req
routed (tts req) = speech req

abbrev pub spoken : TtsOutgoing → BusMessage
spoken (audio chunk) = packet chunk
spoken (done end) = status end

-- What the goroutine of a request has sent.
abbrev pub worker_messages : Option Worker → List BusMessage
worker_messages none = []
worker_messages (some w) = map spoken w.sent

-- The router's new messages go on the bus, the oldest first.
abbrev pub oldest_first : List RouterOutgoing → List BusMessage → List BusMessage
oldest_first [] later = later
oldest_first (out ∷ sent) later = oldest_first sent (routed out ∷ later)

abbrev pub collect : System → RouterService → System
collect y router = record y {
  router = record router { sent = [] };
  bus = y.bus ++ oldest_first router.sent [];
}

unfoldable pub handle : Backends → BusMessage → Time → Time → System → System
handle b (final_transcript t) now stamp y =
    collect y (handle_transcript (some t) now stamp y.router)
handle b (prompt req) now stamp y = record y {
  bus = y.bus ++ final_responses (handle_request b.generate (some req) y.language_model);
}
handle b (final_response resp) now stamp y = collect y (handle_llm_response (some resp) y.router)
handle b (speech req) now stamp y = record y {
  bus = y.bus ++ worker_messages (rounds (b.synthesize req) (new_worker req));
}
handle b (packet chunk) now stamp y = record y { played = y.played ++ chunk ∷ [] }
handle b (status end) now stamp y = collect y (handle_tts_done (some end) now y.router)

-- The oldest message is handled, at a time, or a goroutine of the router publishes.
pub data Action : Type 0 where
  deliver : Time → Time → Action
  publish : ℕ → Action

abbrev pub deliver_first : Backends → Time → Time → List BusMessage → System → System
deliver_first b now stamp [] y = y
deliver_first b now stamp (message ∷ bus) y = handle b message now stamp (record y { bus = bus })

unfoldable pub step : Backends → Action → System → System
step b (deliver now stamp) y = deliver_first b now stamp y.bus y
step b (publish n) y = collect y (publish_speech n y.router)

unfoldable pub run : Backends → List Action → System → System
run b [] y = y
run b (a ∷ actions) y = run b actions (step b a y)
