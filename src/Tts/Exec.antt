-- ===== src/Tts/Exec.antt =====
-- internal/tts/exec.go: what the goroutine of a synthesizer that runs a command puts into its channels, and
-- what the service makes of it. Of a line of the process, the JSON and the base64 are left out.
use loqa_core.Base.{
  ℕ, ◌<◌, ◌^◌, ◌≡◌, refl, Bool, true, false, ◌&&◌, some, List, [], ◌∷◌, ◌++◌, length, ℤ, pos, Time,
  count_if, if_all, arith, if◌then◌else◌,
}
use loqa_core.Protocol.{TtsRequest}
use loqa_core.Tts.{
  SynthRequest, SynthChunk, Received, chunk, chunks_closed, err, errs_closed, Worker, new_worker,
  Outgoing, next_sequence, round, rounds, synth_request,
}
use loqa_core.Tts.Packets.{chunks_of, packets, numbered, is_done, rounds-Sent}

-- A line of the process: empty, one that does not decode, or a piece of audio that is received at a time.
pub data SynthLine : Type 0 where
  empty_line bad_line : SynthLine
  sound : List ℕ → Bool → Time → SynthLine

pub record ExecSynth : Type 0 where
  pub sample_rate : ℤ
  pub channels : ℤ

-- Whether the pipes, the start and the write of the request work; what the process writes; and whether it
-- ends without an error, and the scanner too.
pub record SynthProcess : Type 0 where
  pub opens : Bool
  pub lines : List SynthLine
  pub exits : Bool
  pub scans : Bool

-- The chunks of the lines, and whether none of these is bad.
unfoldable pub exec_lines : ExecSynth → SynthRequest → ℤ → List SynthLine → List Received × Bool
exec_lines e req sequence [] = ([], true)
exec_lines e req sequence (empty_line ∷ lines) = exec_lines e req sequence lines
exec_lines e req sequence (bad_line ∷ lines) = ([], false)
exec_lines e req sequence (sound pcm final now ∷ lines) =
    let rest = exec_lines e req (next_sequence sequence) lines in
    let c : SynthChunk = record {
      session_id = req.session_id;
      sequence = sequence;
      sample_rate = e.sample_rate;
      channels = e.channels;
      pcm = pcm;
      final = final;
    } in
    (chunk c now ∷ rest.0, rest.1)

-- The deferred closes: of the errors, of which at most one was put into their channel's buffer and is
-- received instead of the close, and then of the chunks.
abbrev pub exec_end : Bool → List Received
exec_end good = (if good then errs_closed else err) ∷ chunks_closed ∷ []

unfoldable pub exec_synth : ExecSynth → SynthProcess → SynthRequest → List Received
exec_synth e p req =
    let (received, good) = exec_lines e req (pos 0) p.lines in
    if p.opens then received ++ exec_end (good && p.exits && p.scans) else exec_end false

-- A goroutine with both channels open.
abbrev open_worker : TtsRequest → ℤ → List Outgoing → Worker
open_worker req sequence sent = record {
  request = req;
  chunks = true;
  errs = true;
  sequence = sequence;
  returned = false;
  sent = sent;
}

abbrev Hangs : List Received → Worker → Type 0
Hangs rs w = (w' : Worker) × (rounds rs w ≡ some w') × (w'.returned ≡ false)

end-Hangs :
    (good : Bool) (req : TtsRequest) (sequence : ℤ) (sent : List Outgoing)
    → Hangs (exec_end good) (open_worker req sequence sent)
unfolding rounds round
end-Hangs true req sequence sent = (_, refl, refl)
end-Hangs false req sequence sent = (_, refl, refl)

lines-Hangs :
    (e : ExecSynth) (sreq : SynthRequest) (n : ℤ) (lines : List SynthLine) (good : Bool)
    (req : TtsRequest) (sequence : ℤ) (sent : List Outgoing)
    → Hangs ((exec_lines e sreq n lines).0 ++ exec_end good) (open_worker req sequence sent)
unfolding exec_lines rounds round
lines-Hangs e sreq n [] good req sequence sent = end-Hangs good req sequence sent
lines-Hangs e sreq n (empty_line ∷ lines) good req sequence sent =
    lines-Hangs e sreq n lines good req sequence sent
lines-Hangs e sreq n (bad_line ∷ lines) good req sequence sent = end-Hangs good req sequence sent
lines-Hangs e sreq n (sound pcm final now ∷ lines) good req sequence sent =
    lines-Hangs e sreq (next_sequence n) lines good req (next_sequence sequence) _

exec_synth-Hangs :
    (e : ExecSynth) (p : SynthProcess) (req : TtsRequest)
    → Hangs (exec_synth e p (synth_request req)) (new_worker req)
unfolding exec_synth
exec_synth-Hangs e p req =
    if_all (λ rs. Hangs rs (new_worker req)) p.opens
      (λ opens. lines-Hangs e (synth_request req) (pos 0) p.lines _ req (pos 0) [])
      (λ closed. end-Hangs false req (pos 0) [])

-- A request to a synthesizer that runs a command is answered by the packets of what was received, numbered
-- from 0, and one status for each final piece; but when the ends of the channels are received in the order
-- of the closes, errors first, the goroutine does not return, whether the command failed or not.
pub exec_synth_lem :
    (e : ExecSynth) (p : SynthProcess) (req : TtsRequest)
    → let rs = exec_synth e p (synth_request req) in
      length (chunks_of rs) < 2 ^ 63
      → (w : Worker) × (rounds rs (new_worker req) ≡ some w)
        × (packets w.sent ≡ numbered req 0 (chunks_of rs))
        × (count_if is_done w.sent ≡ count_if (λ c. c.final) (chunks_of rs))
        × (w.returned ≡ false)
exec_synth_lem e p req fits =
    let rs = exec_synth e p (synth_request req) in
    let (w, ran, waiting) = exec_synth-Hangs e p req in
    let sent = rounds-Sent rs (new_worker req) w 0 refl (omega (arith, fits)) ran in
    (w, ran, sent.delivered, omega (arith, sent.completed), waiting)
