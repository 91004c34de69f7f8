-- ===== src/Tts.antt =====
-- internal/tts/service.go: the speech synthesis service. A request starts a goroutine, which reads
-- what the synthesizer hands it over two channels. A step of it is one round of its `select`: what
-- the round receives is the scheduler's and the synthesizer's choice. JSON and the log are left out.
pub mod Packets
pub mod Delivery
pub mod Ending
pub mod Exec
mod Examples
use loqa_core.Base.{
  ℕ, zero, suc, ◌+◌, ◌*◌, String, Bool, true, false, not, ◌&&◌, ◌||◌, Option, none, some, List, [],
  ◌∷◌, ◌++◌, Time, ℤ, pos, negsuc, wrap64, if◌then◌else◌,
}
use loqa_core.Bus.{Subscription, absent, live, drain, is_set}
use loqa_core.Config.{TtsConfig}
use loqa_core.Protocol.{TtsRequest, AudioChunk, TtsStatus}

pub record SynthRequest : Type 0 where
  pub session_id : String
  pub text : String
  pub voice : String

pub record SynthChunk : Type 0 where
  pub session_id : String
  pub sequence : ℤ
  pub sample_rate : ℤ
  pub channels : ℤ
  pub pcm : List ℕ
  pub final : Bool

abbrev pub synth_request : TtsRequest → SynthRequest
synth_request req = record { session_id = req.session_id; text = req.text; voice = req.voice }

-- What is handed to the bus.
pub data Outgoing : Type 0 where
  audio : AudioChunk → Outgoing
  done : TtsStatus → Outgoing

abbrev pub packet_of : TtsRequest → SynthChunk → AudioChunk
packet_of req chunk = record {
  session_id = req.session_id;
  target = req.target;
  sequence = chunk.sequence;
  sample_rate = chunk.sample_rate;
  channels = chunk.channels;
  pcm = chunk.pcm;
  final = chunk.final;
}

abbrev pub status_of : TtsRequest → Time → TtsStatus
status_of req now = record {
  session_id = req.session_id;
  target = req.target;
  completed = true;
  timestamp = now;
}

-- What `publishChunk` sends, in its order.
unfoldable pub publish_chunk : TtsRequest → SynthChunk → Time → List Outgoing
publish_chunk req chunk now =
    if chunk.final
    then audio (packet_of req chunk) ∷ done (status_of req now) ∷ []
    else audio (packet_of req chunk) ∷ []

-- The local variables of the goroutine, whether it has returned, and what it has sent, in order. A
-- flag of a channel says that the variable is not nil.
pub record Worker : Type 0 where
  pub request : TtsRequest
  pub chunks : Bool
  pub errs : Bool
  pub sequence : ℤ
  pub returned : Bool
  pub sent : List Outgoing

-- What a round can receive: a chunk, or that their channel is closed; an error, or that its channel
-- is closed; and that the context is done.
pub data Received : Type 0 where
  chunk : SynthChunk → Time → Received
  chunks_closed : Received
  err : Received
  errs_closed : Received
  ctx_done : Received

abbrev pub new_worker : TtsRequest → Worker
new_worker req = record {
  request = req;
  chunks = true;
  errs = true;
  sequence = pos 0;
  returned = false;
  sent = [];
}

-- `sequence++` on an int.
abbrev pub next_sequence : ℤ → ℤ
next_sequence (pos n) = wrap64 (pos (suc n))
next_sequence (negsuc zero) = pos 0
next_sequence (negsuc (suc n)) = negsuc n

-- The test at the end of a round.
abbrev pub check_exit : Worker → Worker
check_exit w = if not w.chunks && not w.errs then record w { returned = true } else w

-- One round. A channel that is nil is never ready, and a goroutine that has returned does nothing;
-- then there is no round.
unfoldable pub round : Received → Worker → Option Worker
round r w = if w.returned then none else elim r [
  | chunk c now ↦
      if w.chunks
      then some (
          check_exit (record w {
            sequence = next_sequence w.sequence;
            sent = w.sent ++ publish_chunk w.request (record c { sequence = w.sequence }) now;
          }))
      else none
  | chunks_closed ↦ if w.chunks then some (record w { chunks = false }) else none
  | err ↦ if w.errs then some (check_exit (record w { errs = false })) else none
  | errs_closed ↦ if w.errs then some (check_exit (record w { errs = false })) else none
  | ctx_done ↦ some (record w { returned = true })
]

unfoldable pub rounds : List Received → Worker → Option Worker
rounds [] w = some w
rounds (r ∷ rs) w = elim (round r w) [ none ↦ none | some w' ↦ rounds rs w' ]

pub record Service : Type 0 where
  pub cfg : TtsConfig
  pub sub : Subscription
  pub cancelled : Bool
  pub workers : List Worker

abbrev pub new_service : TtsConfig → Service
new_service cfg = record { cfg = cfg; sub = absent; cancelled = false; workers = [] }

-- The flag says whether the bus accepts the subscription; the result is whether there was no error.
unfoldable pub start : Bool → Service → Service × Bool
start accepted s =
    if not s.cfg.enabled
    then (s, true)
    else if not accepted
    then (s, false)
    else (record s { sub = live }, true)

-- `Close` up to its wait for the goroutines.
unfoldable pub close : Service → Service
close s = record s { cancelled = true; sub = drain s.sub }

unfoldable pub healthy : Service → Bool
healthy s = not s.cfg.enabled || is_set s.sub

-- `none` for a message that does not decode.
unfoldable pub handle_request : Option TtsRequest → Service → Service
handle_request none s = s
handle_request (some req) s = record s { workers = s.workers ++ new_worker req ∷ [] }

-- The n-th goroutine does a round.
abbrev pub or_same : Worker → Option Worker → Worker
or_same w none = w
or_same w (some w') = w'

unfoldable pub advance : ℕ → Received → List Worker → List Worker
advance n r [] = []
advance zero r (w ∷ ws) = or_same w (round r w) ∷ ws
advance (suc n) r (w ∷ ws) = w ∷ advance n r ws

pub data Action : Type 0 where
  request : Option TtsRequest → Action
  receive : ℕ → Received → Action

unfoldable pub step : Action → Service → Service
step (request payload) s = handle_request payload s
step (receive n r) s = record s { workers = advance n r s.workers }

unfoldable pub run : List Action → Service → Service
run [] s = s
run (a ∷ actions) s = run actions (step a s)

-- internal/tts/mock.go: what the mock puts into its channels, and the order in which it closes
-- them; the flag says whether its context was done before its 50 ms had passed.
abbrev pub mock_chunk : ℤ → ℤ → SynthRequest → SynthChunk
mock_chunk sample_rate channels req = record {
  session_id = req.session_id;
  sequence = pos 0;
  sample_rate = sample_rate;
  channels = channels;
  pcm = [];
  final = true;
}

unfoldable pub mock_synth : ℤ → ℤ → Bool → SynthRequest → Time → List Received
mock_synth sample_rate channels cancelled req now =
    if cancelled
    then err ∷ chunks_closed ∷ []
    else chunk (mock_chunk sample_rate channels req) now ∷ errs_closed ∷ chunks_closed ∷ []
