-- ===== src/Llm/Stream.antt =====
-- internal/llm/ollama.go, Generate, with internal/llm/service.go, publishChunk: what of the server's
-- answer reaches the bus.
use loqa_core.Base.{
  ◌≡◌, refl, ap, ◌∙◌, String, ◌==◌, Bool, true, false, not, ◌&&◌, ◌||◌, List, [], ◌∷◌, Time, ℤ, All,
  keep_if, count_if, arith, if◌then◌else◌, Bool-cases, inl, inr,
}
use loqa_core.Protocol.{subject_llm_response_final, subject_llm_response_partial}
use loqa_core.Llm.{Request, Chunk, Outgoing, publish_chunk, subject_of}
use loqa_core.Llm.Ollama.{
  OllamaStreamResponse, Line, cancelled, blank, malformed, answer, chunk_of, latest, then_send,
  stream,
}

-- The answers that are read, and whose messages are taken by the bus, until something fails.
abbrev pub answers : List Line → List OllamaStreamResponse
answers [] = []
answers (cancelled ∷ lines) = []
answers (blank ∷ lines) = answers lines
answers (malformed ∷ lines) = []
answers (answer r elapsed now accepted ∷ lines) =
    let later = answers lines in if (r.response == "") || accepted then r ∷ later else []

abbrev pub is_text : String → Bool
is_text content = not (content == "")

abbrev pub is_final : Outgoing → Bool
is_final out = out.subject == subject_llm_response_final

abbrev pub contents : List Outgoing → List String
contents [] = []
contents (out ∷ sent) = out.message.content ∷ contents sent

abbrev pub texts : List OllamaStreamResponse → List String
texts [] = []
texts (r ∷ rs) = r.response ∷ texts rs

-- A message belongs to the request, and stands on the subject of its kind.
abbrev pub IsAnswer : Request → Outgoing → Type 0
IsAnswer req out =
    (out.message.session_id ≡ req.session_id)
    × (out.message.trace_id ≡ req.trace_id)
    × (out.subject ≡ (
        if out.message.partial then subject_llm_response_partial else subject_llm_response_final))

-- What is sent for these answers.
abbrev IsDelivery : Request → List OllamaStreamResponse → List Outgoing → Type 0
IsDelivery req rs sent =
    (contents sent ≡ keep_if is_text (texts rs))
    × (count_if is_final sent ≡ count_if (λ r. r.done && is_text r.response) rs)
    × All (IsAnswer req) sent

is_final-subject_of :
    (chunk : Chunk) → (subject_of chunk == subject_llm_response_final) ≡ not chunk.partial
is_final-subject_of chunk = elim (Bool-cases chunk.partial) [
  | inl e ↦ rw e refl
  | inr e ↦ rw e refl
]

subject_of-partial :
    (chunk : Chunk)
    → subject_of chunk
      ≡ (if chunk.partial then subject_llm_response_partial else subject_llm_response_final)
subject_of-partial chunk = elim (Bool-cases chunk.partial) [ inl e ↦ rw e refl | inr e ↦ rw e refl ]

not_twice : (b : Bool) → not (not b) ≡ b
not_twice true = refl
not_twice false = refl

answer-IsDelivery :
    (req : Request) (r : OllamaStreamResponse) (elapsed prompts completions : ℤ) (now : Time)
    (accepted : Bool) (rs : List OllamaStreamResponse) (later : List Outgoing × Bool)
    → IsDelivery req rs later.0
    → IsDelivery req
        (if (r.response == "") || accepted then r ∷ rs else [])
        (then_send
          (publish_chunk accepted now (chunk_of req r elapsed prompts completions))
          later).0
unfolding publish_chunk
answer-IsDelivery req r elapsed prompts completions now accepted rs later h =
    elim (Bool-cases (r.response == "")) [
      | inl empty ↦ rw empty (rw empty h.0, rw empty (ground (arith, h.1)), h.2)
      | inr some_text ↦ sent accepted some_text
    ]
  where
    sent :
        (taken : Bool)
        → r.response == "" ≡ false
        → IsDelivery req
            (if (r.response == "") || taken then r ∷ rs else [])
            (then_send
              (publish_chunk taken now (chunk_of req r elapsed prompts completions))
              later).0
    sent true some_text =
        let c = chunk_of req r elapsed prompts completions in
        rw some_text (
          rw some_text (ap (λ ts. r.response ∷ ts) h.0),
          ground (arith, h.1, some_text, is_final-subject_of c, not_twice r.done),
          ((refl, refl, subject_of-partial c), h.2),
        )
    sent false some_text = rw some_text (refl, refl, tt)

-- The texts of the messages that are sent are the texts of the answers read, in order, without the
-- empty ones; as many of them are final as there are answers read that are the last of their
-- stream and have a text; and each belongs to the request and stands on the subject of its kind.
pub stream_lem :
    (req : Request) (scanned : Bool) (prompts completions : ℤ) (lines : List Line)
    → let sent = (stream req scanned prompts completions lines).0 in
      (contents sent ≡ keep_if is_text (texts (answers lines)))
      × (count_if is_final sent ≡ count_if (λ r. r.done && is_text r.response) (answers lines))
      × All (IsAnswer req) sent
unfolding stream publish_chunk
stream_lem req scanned prompts completions [] = (refl, refl, tt)
stream_lem req scanned prompts completions (cancelled ∷ lines) = (refl, refl, tt)
stream_lem req scanned prompts completions (blank ∷ lines) =
    stream_lem req scanned prompts completions lines
stream_lem req scanned prompts completions (malformed ∷ lines) = (refl, refl, tt)
stream_lem req scanned prompts completions (answer r elapsed now accepted ∷ lines) =
    let rest =
      stream_lem req scanned (latest r.prompt_eval_count prompts) (latest r.eval_count completions)
        lines in
    answer-IsDelivery req r elapsed _ _ now accepted (answers lines) _ rest

keep_if-eq-zero :
    (rs : List OllamaStreamResponse)
    → All (λ r. (not r.done || (r.response == "")) ≡ true) rs
    → count_if (λ r. r.done && is_text r.response) rs ≡ 0
keep_if-eq-zero [] h = refl
keep_if-eq-zero (r ∷ rs) h = ground (arith, h.0, keep_if-eq-zero rs h.1)

-- When none of the answers read that are the last of their stream has a text, nothing is sent on
-- the subject of final responses, whatever was sent on that of partial ones.
pub stream-no_final :
    (req : Request) (scanned : Bool) (prompts completions : ℤ) (lines : List Line)
    → All (λ r. (not r.done || (r.response == "")) ≡ true) (answers lines)
    → count_if is_final (stream req scanned prompts completions lines).0 ≡ 0
stream-no_final req scanned prompts completions lines h =
    (stream_lem req scanned prompts completions lines).1 ∙ keep_if-eq-zero (answers lines) h
