-- ===== src/Pipeline/Examples.antt =====
-- The voice turns at concrete inputs.
use loqa_core.Base.{
  ◌≡◌, refl, String, ◌==◌, true, false, none, some, List, [], ◌∷◌, lookup, pos, if◌then◌else◌,
}
use loqa_core.Config.Defaults.{default_config}
use loqa_core.Protocol.{Transcript}
use loqa_core.Stt.{publish_transcript}
use loqa_core.Stt.Recognizers.{mock_transcribe}
use loqa_core.Router.{
  Service as RouterService, Action as RouterAction, transcript, tts_done, publish,
  run as run_router, new_service as new_router, opened, prompt_of, latency_of,
}
use loqa_core.Router.Sessions.{answer}
use loqa_core.Router.Spans.{IsAccounted, ends, new_service-IsAccounted}
use loqa_core.Llm.{Service as LlmService, new_service as new_llm, options_of, response_of}
use loqa_core.Llm.Local.{mock_chunk}
use loqa_core.Llm.Ollama.{Line, answer as answer_line, stream}
use loqa_core.Pipeline.{Backends, final_transcript, deliver, prompt, speech, heard, step, run}
use loqa_core.Pipeline.Turn.{at, answering, turn_actions}
use loqa_core.Pipeline.Mocks.{mocks, mock_transcript, silence, spoken_answer, mock_turn}
use loqa_core.Pipeline.Silence.{ollama_silence}

abbrev router : RouterService
router = new_router default_config.router true

abbrev model : LlmService
model = new_llm default_config.llm

mock_turn_example :
    let t = mock_transcript "kitchen" (1 ∷ 2 ∷ []) 7 in
    let resp = response_of (mock_chunk (options_of model.cfg (prompt_of router t 9))) 7 in
    let b = mocks (pos 22050) (pos 1) 7 in
    let y =
      at router model
        (heard (publish_transcript "kitchen" (mock_transcribe (1 ∷ 2 ∷ []) true) true 7))
        [] in
    let z = run b (turn_actions 8 9 1000) y in
    ((step b (deliver 8 9) y).bus ≡ prompt (prompt_of router t 9) ∷ [])
    × ((run b (answering 8 9) y).bus
        ≡ speech (spoken_answer router.cfg "kitchen" (1 ∷ 2 ∷ [])) ∷ [])
    × (z.bus ≡ [])
    × (z.played ≡ silence (pos 22050) (pos 1) (answer router.cfg resp) ∷ [])
    × (z.router.latencies ≡ (
        if router.latency_enabled
        then latency_of (opened router t 8) 1000 ∷ router.latencies
        else router.latencies))
    × ((k : String)
        → lookup k z.router.sessions ≡ (if "kitchen" == k then none else lookup k router.sessions))
unfolding new_router
mock_turn_example =
    mock_turn router model "kitchen" (1 ∷ 2 ∷ []) (pos 22050) (pos 1) 7 8 9 1000 refl

abbrev said : Transcript
said = record {
  session_id = "kitchen";
  text = "lights on";
  partial = false;
  timestamp = 5;
  confidence = 0;
}

-- Ollama's stream: a piece, and the last answer without a text.
abbrev streamed : List Line
streamed =
    answer_line
      (record { response = "on"; done = false; eval_count = pos 0; prompt_eval_count = pos 0 })
      (pos 5) 10 true
    ∷ answer_line
        (record { response = ""; done = true; eval_count = pos 1; prompt_eval_count = pos 3 })
        (pos 7) 11 true
    ∷ []

-- Another room's transcript, a publication, and the end of that room's speech.
abbrev bustle : List RouterAction
bustle =
    transcript (some (record said { session_id = "hall" })) 20 21
    ∷ publish 0
    ∷ tts_done
        (some (record { session_id = "hall"; target = ""; completed = true; timestamp = 30 })) 31
    ∷ []

router-IsAccounted : IsAccounted router
router-IsAccounted = new_service-IsAccounted default_config.router true

ollama_silence_example :
    let b : Backends = record {
      generate = λ req. stream req true (pos 0) (pos 0) streamed;
      synthesize = λ req. [];
    } in
    let z =
      run b (deliver 8 9 ∷ deliver 8 9 ∷ []) (at router model (final_transcript said ∷ []) []) in
    let after = run_router bustle z.router in
    (z.bus ≡ [])
    × (z.played ≡ [])
    × (lookup "kitchen" after.sessions ≡ some (opened router said 8))
    × (ends router.next_span after ≡ 0)
unfolding new_router
ollama_silence_example =
    ollama_silence true streamed (λ req. []) router model [] said 8 9 bustle refl (refl, (refl, tt))
      router-IsAccounted refl (refl, (refl, (refl, tt)))
