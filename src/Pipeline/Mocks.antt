-- ===== src/Pipeline/Mocks.antt =====
-- A voice turn with the mocks: internal/stt/mock_recognizer.go, internal/llm/mock.go and
-- internal/tts/mock.go.
use Prim.Native.Char.{Char}
use text.Mathlib.TextLemmas.{cons-append}
use loqa_core.Base.{
  ℕ, ◌≡◌, ◌≢◌, eq_iff, arith, map, refl, ap, ◌∙◌, String, append_text, ◌==◌, true, false, none,
  some, List, [], ◌∷◌, lookup, Time, ℤ, is_finite, if◌then◌else◌,
}
use loqa_core.Protocol.{Transcript, LlmRequest, AudioChunk, TtsRequest}
use loqa_core.Stt.{publish_transcript}
use loqa_core.Stt.Recognizers.{mock_text, mock_transcribe}
use loqa_core.Router.{Service as RouterService, opened, prompt_of, latency_of}
use loqa_core.Router.Sessions.{answer}
use loqa_core.Llm.{
  Chunk, subject_of, Service as LlmService, options_of, handle_request, publish_chunk, response_of,
}
use loqa_core.Llm.Local.{mock_content, mock_chunk, mock_generate}
use loqa_core.Tts.{
  mock_synth, mock_chunk as silent_chunk, synth_request, packet_of, status_of, rounds, new_worker,
}
use loqa_core.Tts.Ending.{mock_synth_lem}
use loqa_core.Pipeline.{
  final_transcript, final_response, packet, status, Backends, heard, final_responses,
  worker_messages, spoken, deliver, prompt, speech, step, run,
}
use loqa_core.Pipeline.Turn.{
  at, answering, turn_actions, step-final_transcript, run-answering, voice_turn,
}
use loqa_core.Config.{RouterConfig}

abbrev pub mocks : ℤ → ℤ → Time → Backends
mocks sample_rate channels clock = record {
  generate = mock_generate false (publish_chunk true clock);
  synthesize = λ req. mock_synth sample_rate channels false (synth_request req) clock;
}

-- The transcript of a final frame.
abbrev pub mock_transcript : String → List ℕ → Time → Transcript
mock_transcript session_id pcm now = record {
  session_id = session_id;
  text = mock_text pcm true;
  partial = false;
  timestamp = now;
  confidence = 0;
}

bracketed : (c : Char) (s t : String) → (append_text (String.◌∷◌ c s) t == "") ≡ false
bracketed c s t =
    let there : append_text (String.◌∷◌ c s) t ≢ "" = rw (cons-append c s t) (λ e. cc) in
    ground (arith, there, eq_iff (append_text (String.◌∷◌ c s) t) "")

said : (pcm : List ℕ) → (mock_text pcm true == "") ≡ false
said pcm = bracketed _ _ _

-- Whatever the final audio, the mock's transcript reaches the router.
mock_heard :
    (session_id : String) (pcm : List ℕ) (now : Time)
    → heard (publish_transcript session_id (mock_transcribe pcm true) true now)
      ≡ final_transcript (mock_transcript session_id pcm now) ∷ []
unfolding publish_transcript is_finite
mock_heard session_id pcm now = rw (said pcm) refl

publish_text :
    (clock : Time) (c : Chunk)
    → (c.content == "") ≡ false
    → publish_chunk true clock c
      ≡ (record { subject = subject_of c; message = response_of c clock } ∷ [], true)
unfolding publish_chunk
publish_text clock c texts = rw texts refl

mock_answers :
    (sample_rate channels : ℤ) (clock : Time) (m : LlmService) (req : LlmRequest)
    → final_responses (handle_request (mocks sample_rate channels clock).generate (some req) m)
      ≡ final_response (response_of (mock_chunk (options_of m.cfg req)) clock) ∷ []
unfolding handle_request mock_generate final_responses
mock_answers sample_rate channels clock m req =
    ap (λ p. final_responses p.0)
      (publish_text clock (mock_chunk (options_of m.cfg req)) (bracketed _ _ _))

abbrev pub silence : ℤ → ℤ → TtsRequest → AudioChunk
silence sample_rate channels req =
    packet_of req (silent_chunk sample_rate channels (synth_request req))

mock_plays :
    (sample_rate channels : ℤ) (clock : Time) (req : TtsRequest)
    → worker_messages (rounds ((mocks sample_rate channels clock).synthesize req) (new_worker req))
      ≡ packet (silence sample_rate channels req) ∷ status (status_of req clock) ∷ []
mock_plays sample_rate channels clock req =
    let (w, e, sent, _, _) = mock_synth_lem req sample_rate channels clock in
    ap worker_messages e ∙ ap (map spoken) sent

-- The speech that answers final audio: the mock's completion for the mock's transcript.
abbrev pub spoken_answer : RouterConfig → String → List ℕ → TtsRequest
spoken_answer cfg session_id pcm = record {
  session_id = session_id;
  text = mock_content (mock_text pcm true);
  voice = cfg.default_voice;
  target = cfg.target;
  trace_id = "";
}

-- With the mocks, and a router that has nothing left to send, the final audio of a session, whatever it
-- is, takes its turn to the end. Its transcript's
-- delivery leaves the prompt of the transcript on the bus; once that is answered, the speech on the bus has
-- the mock's completion for the mock's transcript, in the default voice and for the configured target; and
-- in the end one silent packet has reached the device, the router has no session left of it and has
-- recorded the latency, its other sessions are as they were, and the bus is empty.
pub mock_turn :
    (r : RouterService) (m : LlmService) (session_id : String) (pcm : List ℕ)
    (sample_rate channels : ℤ) (clock now stamp later : Time)
    → r.sent ≡ []
    → let t = mock_transcript session_id pcm clock in
      let resp = response_of (mock_chunk (options_of m.cfg (prompt_of r t stamp))) clock in
      let b = mocks sample_rate channels clock in
      let y =
        at r m (heard (publish_transcript session_id (mock_transcribe pcm true) true clock)) [] in
      let z = run b (turn_actions now stamp later) y in
      ((step b (deliver now stamp) y).bus ≡ prompt (prompt_of r t stamp) ∷ [])
      × ((run b (answering now stamp) y).bus ≡ speech (spoken_answer r.cfg session_id pcm) ∷ [])
      × (z.bus ≡ [])
      × (z.played ≡ silence sample_rate channels (answer r.cfg resp) ∷ [])
      × (z.router.latencies ≡ (
          if r.latency_enabled
          then latency_of (opened r t now) later ∷ r.latencies
          else r.latencies))
      × ((k : String)
          → lookup k z.router.sessions ≡ (if session_id == k then none else lookup k r.sessions))
unfolding options_of
mock_turn r m session_id pcm sample_rate channels clock now stamp later quiet =
    let b = mocks sample_rate channels clock in
    let t = mock_transcript session_id pcm clock in
    let resp = response_of (mock_chunk (options_of m.cfg (prompt_of r t stamp))) clock in
    let req = answer r.cfg resp in
    let (empty, played, _, measured, gone) =
      voice_turn b r m [] t resp (silence sample_rate channels req) (status_of req clock) now stamp
        later (said pcm) (mock_answers sample_rate channels clock m (prompt_of r t stamp))
        (bracketed _ _ _) refl (mock_plays sample_rate channels clock req) refl refl quiet in
    let asked = step-final_transcript b r m [] t now stamp (said pcm) quiet in
    let half =
      run-answering b r m [] t resp now stamp (said pcm)
        (mock_answers sample_rate channels clock m (prompt_of r t stamp)) (bracketed _ _ _) refl
        quiet in
    rw (mock_heard session_id pcm clock)
      (ap (λ z. z.bus) asked, ap (λ z. z.bus) half, empty, played, measured, gone)
