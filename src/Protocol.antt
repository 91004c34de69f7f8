-- ===== src/Protocol.antt =====
-- internal/protocol/messages.go: the payloads on the bus and their subjects. A payload's JSON form is
-- left out: a message on the bus is the value that it decodes to. PCM data is a list of bytes.
use loqa_core.Base.{String, Bool, List, ℕ, ℤ, Time, Float64}

pub record AudioFrame : Type 0 where
  pub session_id : String
  pub sequence : ℤ
  pub sample_rate : ℤ
  pub channels : ℤ
  pub pcm : List ℕ
  pub final : Bool

pub record Transcript : Type 0 where
  pub session_id : String
  pub text : String
  pub partial : Bool
  pub timestamp : Time
  pub confidence : Float64

pub record LlmRequest : Type 0 where
  pub session_id : String
  pub prompt : String
  pub system : String
  pub tier : String
  pub max_tokens : ℤ
  pub temperature : Float64
  pub trace_id : String
  pub timestamp : Time

pub record LlmResponse : Type 0 where
  pub session_id : String
  pub content : String
  pub partial : Bool
  pub trace_id : String
  pub prompt_tokens : ℤ
  pub completion_tokens : ℤ
  pub latency_ms : ℤ
  pub timestamp : Time

pub record TtsRequest : Type 0 where
  pub session_id : String
  pub text : String
  pub voice : String
  pub target : String
  pub trace_id : String

pub record AudioChunk : Type 0 where
  pub session_id : String
  pub target : String
  pub sequence : ℤ
  pub sample_rate : ℤ
  pub channels : ℤ
  pub pcm : List ℕ
  pub final : Bool

pub record TtsStatus : Type 0 where
  pub session_id : String
  pub target : String
  pub completed : Bool
  pub timestamp : Time

abbrev pub subject_audio_frame_prefix : String
subject_audio_frame_prefix = "audio.frame"

abbrev pub subject_transcript_partial : String
subject_transcript_partial = "stt.text.partial"

abbrev pub subject_transcript_final : String
subject_transcript_final = "stt.text.final"

abbrev pub subject_llm_request : String
subject_llm_request = "nlu.request"

abbrev pub subject_llm_response_partial : String
subject_llm_response_partial = "nlu.response.partial"

abbrev pub subject_llm_response_final : String
subject_llm_response_final = "nlu.response.final"

abbrev pub subject_tts_request : String
subject_tts_request = "tts.request"

abbrev pub subject_tts_audio : String
subject_tts_audio = "tts.audio"

abbrev pub subject_tts_done : String
subject_tts_done = "tts.done"
