-- ===== src/Tts/Ending.antt =====
-- internal/tts/service.go:76-99: when the goroutine of a request returns.
use loqa_core.Base.{
  ◌≡◌, refl, sym, ap, ◌∙◌, subst, Bool, true, false, not, ◌&&◌, none, some, some-eq, List, [], ◌∷◌,
  All, Time, ℤ, pos, arith, Bool-cases, Option-cases, inl, inr,
}
use loqa_core.Protocol.{TtsRequest}
use loqa_core.Tts.{
  Worker, new_worker, check_exit, Received, chunk, chunks_closed, err, errs_closed, ctx_done, round,
  rounds, publish_chunk, mock_synth, mock_chunk, synth_request, SynthChunk, next_sequence, audio,
  done, packet_of, status_of,
}
use loqa_core.Tts.Packets.{if-some, if-none}

abbrev pub is_err : Received → Bool
is_err err = true
is_err errs_closed = true
is_err r = false

abbrev pub is_ctx_done : Received → Bool
is_ctx_done ctx_done = true
is_ctx_done r = false

-- Whether the last thing that was received came over the channel of errors.
abbrev pub last_is_err : List Received → Bool
last_is_err [] = false
last_is_err (r ∷ []) = is_err r
last_is_err (r ∷ r' ∷ rs) = last_is_err (r' ∷ rs)

check_exit-returned :
    (w : Worker)
    → w.returned ≡ false
    → ((check_exit w).returned ≡ (not w.chunks && not w.errs)) × ((check_exit w).chunks ≡ w.chunks)
check_exit-returned w h = elim (Bool-cases (not w.chunks && not w.errs)) [
  | inl e ↦ rw e (refl, refl)
  | inr e ↦ rw e (h, refl)
]

and_true : (b : Bool) → (b && true) ≡ b
and_true true = refl
and_true false = refl

and-false : (b c : Bool) → b ≡ true → (not b && c) ≡ false
and-false b c h = rw h refl

round-returned :
    (r : Received) (w w' : Worker)
    → is_ctx_done r ≡ false
    → round r w ≡ some w'
    → w'.returned ≡ (is_err r && not w'.chunks)
unfolding round
round-returned (chunk c now) w w' live e =
    let (alive, rest) = if-none w.returned _ e in
    let (there, same) = if-some w.chunks _ rest in
    subst (λ v. v.returned ≡ false) same
      ((check_exit-returned _ alive).0 ∙ and-false w.chunks _ there)
round-returned chunks_closed w w' live e =
    let (alive, rest) = if-none w.returned _ e in
    subst (λ v. v.returned ≡ false) (if-some w.chunks _ rest).1 alive
round-returned err w w' live e =
    let (alive, rest) = if-none w.returned _ e in
    let kept = check_exit-returned (record w { errs = false }) alive in
    subst (λ v. v.returned ≡ not v.chunks) (if-some w.errs _ rest).1
      (kept.0 ∙ and_true (not w.chunks) ∙ ap not (sym kept.1))
round-returned errs_closed w w' live e =
    let (alive, rest) = if-none w.returned _ e in
    let kept = check_exit-returned (record w { errs = false }) alive in
    subst (λ v. v.returned ≡ not v.chunks) (if-some w.errs _ rest).1
      (kept.0 ∙ and_true (not w.chunks) ∙ ap not (sym kept.1))
round-returned ctx_done w w' live e = absurd (ground (arith, live))

rounds-alive :
    (r : Received) (rs : List Received) (w w' : Worker)
    → rounds (r ∷ rs) w ≡ some w'
    → w.returned ≡ false
unfolding rounds round
rounds-alive r rs w w' e = elim (Bool-cases w.returned) [
  | inl over ↦ absurd (ground (arith, over, e))
  | inr alive ↦ alive
]

-- After any rounds of a goroutine that had not returned, none of which found its context done, it
-- has returned exactly if the last of them received an error or found the channel of errors
-- closed, and the channel of chunks has been found closed.
pub rounds-returned :
    (rs : List Received) (w w' : Worker)
    → w.returned ≡ false
    → All (λ r. is_ctx_done r ≡ false) rs
    → rounds rs w ≡ some w'
    → w'.returned ≡ (last_is_err rs && not w'.chunks)
unfolding rounds
rounds-returned [] w w' alive quiet e = ap (λ v. v.returned) (sym (some-eq e)) ∙ alive
rounds-returned (r ∷ []) w w' alive quiet e = elim (Option-cases (round r w)) [
  | inl stuck ↦ absurd (ground (arith, stuck, e))
  | inr (v, first) ↦ round-returned r w w' quiet.0 (ground (arith, first, e))
]
rounds-returned (r ∷ r' ∷ rs) w w' alive quiet e = elim (Option-cases (round r w)) [
  | inl stuck ↦ absurd (ground (arith, stuck, e))
  | inr (v, first) ↦
      let rest : rounds (r' ∷ rs) v ≡ some w' = ground (arith, first, e) in
      rounds-returned (r' ∷ rs) v w' (rounds-alive r' rs v w' rest) quiet.1 rest
]

round-blocked :
    (r : Received) (w : Worker)
    → w.chunks ≡ false
    → w.errs ≡ false
    → is_ctx_done r ≡ false
    → round r w ≡ none
unfolding round
round-blocked (chunk c now) w over gone live = ground (arith, over)
round-blocked chunks_closed w over gone live = ground (arith, over)
round-blocked err w over gone live = ground (arith, gone)
round-blocked errs_closed w over gone live = ground (arith, gone)
round-blocked ctx_done w over gone live = absurd (ground (arith, live))

-- With the mock synthesizer a request is answered by one packet numbered 0 and one status, as the
-- mock hands over one final chunk. But when the ends of the two channels are received in the order
-- in which the mock closes them, that of errors first, the goroutine does not return, and nothing
-- but the end of its context is left for it to receive.
pub mock_synth_lem :
    (req : TtsRequest) (sample_rate channels : ℤ) (now : Time)
    → let c = record (mock_chunk sample_rate channels (synth_request req)) { sequence = pos 0 } in
      (w : Worker) × (rounds
          (mock_synth sample_rate channels false (synth_request req) now)
          (new_worker req)
        ≡ some w)
      × (w.sent ≡ audio (packet_of req c) ∷ done (status_of req now) ∷ [])
      × (w.returned ≡ false)
      × ((r : Received) → is_ctx_done r ≡ false → round r w ≡ none)
unfolding mock_synth rounds round publish_chunk
mock_synth_lem req sample_rate channels now =
    let c : SynthChunk = record (mock_chunk sample_rate channels (synth_request req)) {
      sequence = pos 0;
    } in
    let w : Worker = record (new_worker req) {
      chunks = false;
      errs = false;
      sequence = next_sequence (pos 0);
      sent = audio (packet_of req c) ∷ done (status_of req now) ∷ [];
    } in
    (w, refl, refl, refl, λ r live. round-blocked r w refl refl live)
