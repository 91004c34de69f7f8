-- ===== src/Tts/Packets.antt =====
-- internal/tts/service.go, handleRequest and publishChunk: what the rounds of a goroutine send.
use loqa_core.Base.{
  ℕ, suc, ◌+◌, ◌<◌, ◌^◌, ◌≡◌, refl, sym, ap, ◌∙◌, subst, Bool, true, false, not, ◌&&◌, Option, none,
  some, some-eq, List, [], ◌∷◌, ◌++◌, length, count_if, Time, pos, wrap64, arith, if◌then◌else◌,
  Bool-cases, Option-cases, inl, inr, append_nil, append_assoc, length-append, count_if-append,
}
use loqa_core.Protocol.{TtsRequest, AudioChunk}
use loqa_core.Tts.{
  SynthChunk, Outgoing, audio, done, packet_of, publish_chunk, Worker, check_exit, next_sequence,
  Received, chunk, chunks_closed, err, errs_closed, ctx_done, round, rounds,
}

abbrev pub chunks_of : List Received → List SynthChunk
chunks_of [] = []
chunks_of (chunk c now ∷ rs) = c ∷ chunks_of rs
chunks_of (r ∷ rs) = chunks_of rs

abbrev pub packets : List Outgoing → List AudioChunk
packets [] = []
packets (audio packet ∷ out) = packet ∷ packets out
packets (done status ∷ out) = packets out

abbrev pub is_done : Outgoing → Bool
is_done (audio packet) = false
is_done (done status) = true

-- The packets of a request for these chunks, numbered upwards from `n`.
abbrev pub numbered : TtsRequest → ℕ → List SynthChunk → List AudioChunk
numbered req n [] = []
numbered req n (c ∷ cs) = packet_of req (record c { sequence = pos n }) ∷ numbered req (suc n) cs

packets-append : (xs ys : List Outgoing) → packets (xs ++ ys) ≡ packets xs ++ packets ys
packets-append [] ys = refl
packets-append (audio packet ∷ xs) ys = ap (λ zs. packet ∷ zs) (packets-append xs ys)
packets-append (done status ∷ xs) ys = packets-append xs ys

packets-publish_chunk :
    (req : TtsRequest) (c : SynthChunk) (now : Time)
    → (packets (publish_chunk req c now) ≡ packet_of req c ∷ [])
      × (count_if is_done (publish_chunk req c now) ≡ (if c.final then 1 else 0))
unfolding publish_chunk
packets-publish_chunk req c now = elim (Bool-cases c.final) [
  | inl e ↦ rw e (refl, refl)
  | inr e ↦ rw e (refl, refl)
]

next_sequence-fits : (n : ℕ) → suc n < 2 ^ 63 → next_sequence (pos n) ≡ pos (suc n)
unfolding wrap64
next_sequence-fits n h = ground (arith, h)

-- The chunk of a round, if it receives one.
abbrev received : Received → List SynthChunk
received r = chunks_of (r ∷ [])

chunks_of-cons :
    (r : Received) (rs : List Received) → chunks_of (r ∷ rs) ≡ received r ++ chunks_of rs
chunks_of-cons (chunk c now) rs = refl
chunks_of-cons chunks_closed rs = refl
chunks_of-cons err rs = refl
chunks_of-cons errs_closed rs = refl
chunks_of-cons ctx_done rs = refl

-- What `check_exit` leaves as it is.
pub check_exit-same :
    (w : Worker)
    → ((check_exit w).sent ≡ w.sent)
      × ((check_exit w).sequence ≡ w.sequence)
      × ((check_exit w).request ≡ w.request)
check_exit-same w = elim (Bool-cases (not w.chunks && not w.errs)) [
  | inl e ↦ rw e (refl, refl, refl)
  | inr e ↦ rw e (refl, refl, refl)
]

-- A worker has sent the packets and statuses that belong to these chunks since it was `w`.
pub record Sent (w w' : Worker) (n : ℕ) (cs : List SynthChunk) : Type 0 where
  pub same_request : w'.request ≡ w.request
  pub counted : w'.sequence ≡ pos (n + length cs)
  pub delivered : packets w'.sent ≡ packets w.sent ++ numbered w.request n cs
  pub completed : count_if is_done w'.sent ≡ count_if is_done w.sent + count_if (λ c. c.final) cs

still-Sent :
    (w w' : Worker) (n : ℕ)
    → w.sequence ≡ pos n
    → w'.request ≡ w.request
    → w'.sequence ≡ w.sequence
    → w'.sent ≡ w.sent
    → Sent w w' n []
still-Sent w w' n at req seq out = record {
  same_request = req;
  counted = seq ∙ at ∙ ap pos (omega arith);
  delivered = ap packets out ∙ sym (append_nil (packets w.sent));
  completed = rw out (omega arith);
}

chunk-Sent :
    (c : SynthChunk) (now : Time) (w : Worker) (n : ℕ)
    → w.sequence ≡ pos n
    → suc n < 2 ^ 63
    → Sent w
        (check_exit (record w {
          sequence = next_sequence w.sequence;
          sent = w.sent ++ publish_chunk w.request (record c { sequence = w.sequence }) now;
        }))
        n
        (c ∷ [])
chunk-Sent c now w n at fits =
    let out = publish_chunk w.request (record c { sequence = w.sequence }) now in
    let kept =
      check_exit-same (record w { sequence = next_sequence w.sequence; sent = w.sent ++ out }) in
    let told = packets-publish_chunk w.request (record c { sequence = w.sequence }) now in
    record {
      same_request = kept.2;
      counted = kept.1 ∙ ap next_sequence at ∙ next_sequence-fits n fits ∙ ap pos (omega arith);
      delivered =
          ap packets kept.0
          ∙ packets-append w.sent out
          ∙ ap (λ ps. packets w.sent ++ ps) told.0
          ∙ ap (λ k. packets w.sent ++ packet_of w.request (record c { sequence = k }) ∷ []) at;
      completed =
          ap (λ ys. count_if is_done ys) kept.0
          ∙ count_if-append is_done w.sent out
          ∙ ground (arith, told.1);
    }

pub if-some {ℓ} :
    {A : Type ℓ} (b : Bool) (x : A) {y : A}
    → (if b then some x else none) ≡ some y
    → (b ≡ true) × (x ≡ y)
if-some true x e = (refl, some-eq e)
if-some false x e = absurd (ground (arith, e))

pub if-none {ℓ} :
    {A : Type ℓ} (b : Bool) (o : Option A) {y : A}
    → (if b then none else o) ≡ some y
    → (b ≡ false) × (o ≡ some y)
if-none true o e = absurd (ground (arith, e))
if-none false o e = (refl, e)

round-Sent :
    (r : Received) (w w' : Worker) (n : ℕ)
    → w.sequence ≡ pos n
    → n + length (received r) < 2 ^ 63
    → round r w ≡ some w'
    → Sent w w' n (received r)
unfolding round
round-Sent (chunk c now) w w' n at fits e =
    subst (λ v. Sent w v n (c ∷ [])) (if-some w.chunks _ (if-none w.returned _ e).1).1
      (chunk-Sent c now w n at (omega (arith, fits)))
round-Sent chunks_closed w w' n at fits e =
    subst (λ v. Sent w v n []) (if-some w.chunks _ (if-none w.returned _ e).1).1
      (still-Sent w _ n at refl refl refl)
round-Sent err w w' n at fits e =
    let kept = check_exit-same (record w { errs = false }) in
    subst (λ v. Sent w v n []) (if-some w.errs _ (if-none w.returned _ e).1).1
      (still-Sent w _ n at kept.2 kept.1 kept.0)
round-Sent errs_closed w w' n at fits e =
    let kept = check_exit-same (record w { errs = false }) in
    subst (λ v. Sent w v n []) (if-some w.errs _ (if-none w.returned _ e).1).1
      (still-Sent w _ n at kept.2 kept.1 kept.0)
round-Sent ctx_done w w' n at fits e =
    subst (λ v. Sent w v n []) (some-eq (if-none w.returned _ e).1)
      (still-Sent w _ n at refl refl refl)

numbered-append :
    (req : TtsRequest) (n : ℕ) (xs ys : List SynthChunk)
    → numbered req n (xs ++ ys) ≡ numbered req n xs ++ numbered req (n + length xs) ys
numbered-append req n [] ys = ap (λ k. numbered req k ys) (omega arith)
numbered-append req n (x ∷ xs) ys =
    ap (λ ps. packet_of req (record x { sequence = pos n }) ∷ ps)
      (numbered-append req (suc n) xs ys
        ∙ ap (λ k. numbered req (suc n) xs ++ numbered req k ys) (omega arith))

joined-Sent :
    (u v w : Worker) (n : ℕ) (xs ys : List SynthChunk)
    → Sent u v n xs
    → Sent v w (n + length xs) ys
    → Sent u w n (xs ++ ys)
joined-Sent u v w n xs ys h k = record {
  same_request = k.same_request ∙ h.same_request;
  counted = k.counted ∙ ap pos (omega (arith, length-append xs ys));
  delivered =
      k.delivered
      ∙ ap (λ ps. ps ++ numbered v.request (n + length xs) ys) h.delivered
      ∙ ap (λ req. (packets u.sent ++ numbered u.request n xs) ++ numbered req (n + length xs) ys)
          h.same_request
      ∙ append_assoc (packets u.sent) _ _
      ∙ ap (λ ps. packets u.sent ++ ps) (sym (numbered-append u.request n xs ys));
  completed = omega (arith, k.completed, h.completed, count_if-append (λ c. c.final) xs ys);
}

pub rounds-Sent :
    (rs : List Received) (w w' : Worker) (n : ℕ)
    → w.sequence ≡ pos n
    → n + length (chunks_of rs) < 2 ^ 63
    → rounds rs w ≡ some w'
    → Sent w w' n (chunks_of rs)
unfolding rounds
rounds-Sent [] w w' n at fits e =
    subst (λ v. Sent w v n []) (some-eq e) (still-Sent w w n at refl refl refl)
rounds-Sent (r ∷ rs) w w' n at fits e = elim (Option-cases (round r w)) [
  | inl stuck ↦ absurd (ground (arith, stuck, e))
  | inr (v, first) ↦
      let split : n + length (received r) + length (chunks_of rs) < 2 ^ 63 =
        omega (
          arith,
          fits,
          ap length (chunks_of-cons r rs),
          length-append (received r) (chunks_of rs),
        ) in
      let one = round-Sent r w v n at (omega (arith, split)) first in
      subst (λ cs. Sent w w' n cs) (sym (chunks_of-cons r rs))
        (joined-Sent w v w' n (received r) (chunks_of rs) one (
          rounds-Sent rs v w' (n + length (received r)) one.counted split
            (ground (arith, first, e))))
]
