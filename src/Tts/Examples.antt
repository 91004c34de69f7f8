-- ===== src/Tts/Examples.antt =====
-- internal/tts/service.go: runs of the service, and its theorems at concrete inputs.
use loqa_core.Tts.Exec.{
  ExecSynth, SynthProcess, sound, bad_line, exec_synth, exec_lines, exec_synth_lem,
}
use loqa_core.Base.{
  ◌≡◌, refl, Bool, true, false, not, ◌&&◌, List, [], ◌∷◌, count_if, some, none, pos, wrap64, arith,
}
use loqa_core.Config.{TtsConfig}
use loqa_core.Protocol.{TtsRequest}
use loqa_core.Tts.{
  SynthChunk, Worker, new_worker, chunk, chunks_closed, err, errs_closed, Action, request, receive,
  new_service, run, step, handle_request, advance, round, rounds, publish_chunk, synth_request,
  start, healthy, close,
}
use loqa_core.Tts.Packets.{chunks_of, packets, is_done, numbered}
use loqa_core.Tts.Ending.{last_is_err, rounds-returned}

abbrev settings : TtsConfig
settings = record {
  enabled = true;
  mode = "mock";
  command = "";
  voice = "en-US";
  sample_rate = pos 22050;
  channels = pos 1;
  chunk_duration_ms = pos 400;
}

abbrev spoken : TtsRequest
spoken = record {
  session_id = "kitchen";
  text = "they are on";
  voice = "en-US";
  target = "default";
  trace_id = "t1";
}

abbrev piece : Bool → SynthChunk
piece final = record {
  session_id = "kitchen";
  sequence = pos 7;
  sample_rate = pos 22050;
  channels = pos 1;
  pcm = 1 ∷ 2 ∷ [];
  final = final;
}

abbrev two_requests : List Action
two_requests =
    request (some spoken)
    ∷ request none
    ∷ request (some (record spoken { session_id = "hall" }))
    ∷ receive 1 (chunk (piece false) 5)
    ∷ receive 0 (chunk (piece true) 6)
    ∷ receive 1 (chunk (piece true) 7)
    ∷ receive 1 chunks_closed
    ∷ receive 1 err
    ∷ receive 1 errs_closed
    ∷ []

abbrev is_returned : Worker → Bool
is_returned w = w.returned

one_goroutine_is_left : count_if is_returned (run two_requests (new_service settings)).workers ≡ 1
unfolding run step handle_request advance round publish_chunk wrap64
one_goroutine_is_left = refl

abbrev ended : Worker
ended = record (new_worker spoken) { chunks = false; errs = false; returned = true }

rounds-returned_example : true ≡ (last_is_err (chunks_closed ∷ err ∷ []) && not false)
unfolding rounds round
rounds-returned_example =
    rounds-returned (chunks_closed ∷ err ∷ []) (new_worker spoken) ended refl (refl, (refl, tt))
      refl

start_then_close :
    (healthy (start true (new_service settings)).0 ≡ true)
    × (healthy (start false (new_service settings)).0 ≡ false)
    × ((close (start true (new_service settings)).0).cancelled ≡ true)
unfolding start healthy close
start_then_close = (refl, refl, refl)

-- A command that writes a piece and then a line that does not decode.
abbrev failing : SynthProcess
failing = record {
  opens = true;
  lines = sound (1 ∷ 2 ∷ []) false 5 ∷ bad_line ∷ [];
  exits = false;
  scans = true;
}

abbrev exec_synthesizer : ExecSynth
exec_synthesizer = record { sample_rate = pos 22050; channels = pos 1 }

exec_synth_lem_example :
    let rs = exec_synth exec_synthesizer failing (synth_request spoken) in
    (w : Worker) × (rounds rs (new_worker spoken) ≡ some w)
    × (packets w.sent ≡ numbered spoken 0 (chunks_of rs))
    × (count_if is_done w.sent ≡ count_if (λ c. c.final) (chunks_of rs))
    × (w.returned ≡ false)
unfolding exec_synth exec_lines
exec_synth_lem_example = exec_synth_lem exec_synthesizer failing spoken (omega arith)
