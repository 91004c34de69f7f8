-- ===== src/Pipeline/Silence.antt =====
-- A voice turn over the bus whose generator gives no final response: internal/llm/ollama.go, Generate,
-- with internal/llm/service.go, publishChunk, and internal/router/service.go.
use loqa_core.Base.{
  ◌≡◌, refl, ap, ◌∙◌, ◌==◌, Bool, true, false, not, ◌||◌, some, List, [], ◌∷◌, lookup,
  lookup-insert_self, Time, pos, All, count_if, Bool-cases, inl, inr, arith,
}
use loqa_core.Protocol.{Transcript, AudioChunk, LlmRequest, TtsRequest, subject_llm_response_final}
use loqa_core.Router.{
  Service as RouterService, Action as RouterAction, opened, prompt_of, handle_transcript,
  run as run_router,
}
use loqa_core.Router.Spans.{IsAccounted, ends, handle_transcript-IsAccounted}
use loqa_core.Router.Waiting.{is_other, run-waiting}
use loqa_core.Llm.{Service as LlmService, Outgoing, handle_request, options_of}
use loqa_core.Llm.Ollama.{Line, stream}
use loqa_core.Llm.Stream.{answers, is_final, stream-no_final}
use loqa_core.Pipeline.{
  final_transcript, prompt, Backends, final_responses, handle, deliver, step, run,
}
use loqa_core.Pipeline.Turn.{at, after_transcript, step-final_transcript, next, last}
use loqa_core.Tts.{Received}

no_final_responses : (sent : List Outgoing) → count_if is_final sent ≡ 0 → final_responses sent ≡ []
unfolding final_responses
no_final_responses [] h = refl
no_final_responses (out ∷ sent) h = elim (Bool-cases (out.subject == subject_llm_response_final)) [
  | inl is ↦ absurd (ground (arith, is, h))
  | inr other ↦ rw other (no_final_responses sent (ground (arith, other, h)))
]

unanswered_step :
    (b : Backends) (r : RouterService) (m : LlmService) (played : List AudioChunk)
    (req : LlmRequest) (now stamp : Time)
    → final_responses (handle_request b.generate (some req) m) ≡ []
    → step b (deliver now stamp) (at r m (prompt req ∷ []) played) ≡ at r m [] played
unfolding step handle
unanswered_step b r m played req now stamp none_given = simp none_given

after_transcript-IsAccounted :
    (r : RouterService) (t : Transcript) (now stamp : Time)
    → t.text == "" ≡ false
    → IsAccounted r
    → IsAccounted (after_transcript r t now)
unfolding handle_transcript
after_transcript-IsAccounted r t now stamp said h =
    let after = handle_transcript-IsAccounted (some t) now stamp r h in rw said at after

-- When Ollama's answers that end a stream have no text, a prompt is never answered: once the transcript
-- and its prompt are delivered, the bus is empty and no packet has come. Whatever the router is told
-- later, other transcripts, responses and ends of playback included, it keeps the session as it was
-- opened, and the session's span is not ended, as long as there is no other transcript of the session
-- and nothing says that speech of the session is done. Before, the router has nothing left to send, and
-- its spans are in order, as they are in every state that it reaches.
pub ollama_silence :
    (scanned : Bool) (lines : List Line) (synthesize : TtsRequest → List Received)
    (r : RouterService) (m : LlmService) (played : List AudioChunk) (t : Transcript)
    (now stamp : Time) (later : List RouterAction)
    → t.text == "" ≡ false
    → All (λ a. (not a.done || (a.response == "")) ≡ true) (answers lines)
    → IsAccounted r
    → r.sent ≡ []
    → All (λ a. is_other t.session_id a ≡ true) later
    → let b : Backends = record {
      generate = λ req. stream req scanned (pos 0) (pos 0) lines;
      synthesize = synthesize;
    } in
      let z =
        run b
          (deliver now stamp ∷ deliver now stamp ∷ [])
          (at r m (final_transcript t ∷ []) played) in
      let router = run_router later z.router in
      (z.bus ≡ [])
      × (z.played ≡ played)
      × (lookup t.session_id router.sessions ≡ some (opened r t now))
      × (ends r.next_span router ≡ 0)
unfolding handle_request
ollama_silence scanned lines synthesize r m played t now stamp later said blank accounted quiet
      others =
    let b : Backends = record {
      generate = λ req. stream req scanned (pos 0) (pos 0) lines;
      synthesize = synthesize;
    } in
    let r1 = after_transcript r t now in
    let e = next b _ _ _ _ _ (step-final_transcript b r m played t now stamp said quiet) (
      next b _ _ _ _ _
        (unanswered_step b r1 m played (prompt_of r t stamp) now stamp (
          no_final_responses _ (
            stream-no_final (options_of m.cfg (prompt_of r t stamp)) scanned (pos 0) (pos 0) lines
              blank)))
        (last b _)) in
    let waiting =
      run-waiting t.session_id (opened r t now) r.next_span later r1
        (after_transcript-IsAccounted r t now stamp said accounted) others
        (lookup-insert_self t.session_id (opened r t now) r.sessions) refl in
    (
      ap (λ z. z.bus) e,
      ap (λ z. z.played) e,
      ap (λ z. lookup t.session_id (run_router later z.router).sessions) e ∙ waiting.0,
      ap (λ z. ends r.next_span (run_router later z.router)) e ∙ waiting.1,
    )
