-- ===== src/Runtime/Services.antt =====
-- internal/runtime/runtime.go, Start: the services start on their backends.
use loqa_core.Base.{◌≡◌, refl, Bool, true, false, ◌||◌, arith, String, ◌==◌, if_all, eq_iff}
use loqa_core.Config.{SttConfig, LlmConfig, TtsConfig, RouterConfig}
use loqa_core.Config.Accepted.{IsSoundLlm, IsSoundTts}
use loqa_core.Stt.World.{new_service as new_stt, start as start_stt}
use loqa_core.Llm.{new_service as new_llm, start as start_llm}
use loqa_core.Tts.{new_service as new_tts, start as start_tts}
use loqa_core.Router.{new_service as new_router, start as start_router}
use loqa_core.Runtime.{
  Outside, start_speech_to_text, start_language_model, start_text_to_speech, start_voice_router,
  if_started, make_recognizer, make_generator, make_synth, new_exec,
}
use loqa_core.Runtime.Answers.{IsOk, bind-IsOk, where_enabled-IsOk, IsOpenBus, HasWords}

new_exec-IsOk :
    (o : Outside) (mode text empty : String)
    → HasWords o mode text
    → mode ≡ "exec"
    → IsOk (new_exec o.words text empty)
new_exec-IsOk o mode text empty h is = let (word, words, e) = h is in rw e (_, refl)

-- What config's validate does not check: that the recognizer's mode is known.
abbrev pub IsKnownMode : SttConfig → Type 0
IsKnownMode cfg =
    cfg.enabled ≡ true → ((cfg.mode == "exec") || (cfg.mode == "mock") || (cfg.mode == "")) ≡ true

recognizer-IsOk :
    (cfg : SttConfig) (o : Outside)
    → HasWords o cfg.mode cfg.command
    → ((cfg.mode == "exec") || (cfg.mode == "mock") || (cfg.mode == "")) ≡ true
    → IsOk (make_recognizer cfg o)
unfolding make_recognizer
recognizer-IsOk cfg o w known =
    if_all IsOk (cfg.mode == "exec")
      (λ is. new_exec-IsOk o cfg.mode _ _ w ((eq_iff cfg.mode "exec").0 is))
      λ not_exec.
        if_all IsOk ((cfg.mode == "mock") || (cfg.mode == "")) (λ is. (_, refl))
          λ neither. absurd (ground (arith, known, not_exec, neither))

generator-IsOk :
    (cfg : LlmConfig) (o : Outside)
    → HasWords o cfg.mode cfg.command
    → ((cfg.mode == "mock") || (cfg.mode == "ollama") || (cfg.mode == "exec")) ≡ true
    → IsOk (make_generator cfg o)
unfolding make_generator
generator-IsOk cfg o w known =
    if_all IsOk (cfg.mode == "ollama") (λ is. (_, refl))
      λ not_ollama.
        if_all IsOk (cfg.mode == "exec")
          (λ is. new_exec-IsOk o cfg.mode _ _ w ((eq_iff cfg.mode "exec").0 is))
          λ not_exec.
            if_all IsOk ((cfg.mode == "mock") || (cfg.mode == "")) (λ is. (_, refl))
              λ neither. absurd (ground (arith, known, not_ollama, not_exec, neither))

synth-IsOk :
    (cfg : TtsConfig) (o : Outside)
    → HasWords o cfg.mode cfg.command
    → ((cfg.mode == "mock") || (cfg.mode == "exec")) ≡ true
    → IsOk (make_synth cfg o)
unfolding make_synth
synth-IsOk cfg o w known =
    if_all IsOk (cfg.mode == "exec")
      (λ is. new_exec-IsOk o cfg.mode _ _ w ((eq_iff cfg.mode "exec").0 is))
      λ not_exec.
        if_all IsOk ((cfg.mode == "mock") || (cfg.mode == "")) (λ is. (_, refl))
          λ neither. absurd (ground (arith, known, not_exec, neither))

if_started-IsOk {ℓ} :
    {A : Type ℓ} (message : String) (p : A × Bool) → p.1 ≡ true → IsOk (if_started message p)
if_started-IsOk message (a, true) h = (a, refl)
if_started-IsOk message (a, false) h = absurd (ground (arith, h))

pub stt-IsOk :
    (cfg : SttConfig) (o : Outside)
    → IsKnownMode cfg
    → HasWords o cfg.mode cfg.command
    → IsOpenBus o
    → IsOk (start_speech_to_text cfg o)
unfolding start_speech_to_text start_stt new_stt
stt-IsOk cfg o known w b = where_enabled-IsOk cfg.enabled _ λ on.
    bind-IsOk (make_recognizer cfg o) _ (recognizer-IsOk cfg o w (known on)) λ recognizer.
      bind-IsOk (if_started "start STT service" (start_stt o.takes_frames (new_stt cfg))) _
        (if_started-IsOk _ _ (ground (arith, b.3, on))) λ s. (_, refl)

pub llm-IsOk :
    (cfg : LlmConfig) (o : Outside)
    → IsSoundLlm cfg
    → HasWords o cfg.mode cfg.command
    → IsOpenBus o
    → IsOk (start_language_model cfg o)
unfolding start_language_model start_llm
llm-IsOk cfg o sound w b = where_enabled-IsOk cfg.enabled _ λ on.
    bind-IsOk (make_generator cfg o) _ (generator-IsOk cfg o w (sound on).0) λ generator.
      bind-IsOk (if_started "start LLM service" (start_llm o.takes_requests (new_llm cfg))) _
        (if_started-IsOk _ _ (ground (arith, b.4, on))) λ s. (_, refl)

pub tts-IsOk :
    (cfg : TtsConfig) (o : Outside)
    → IsSoundTts cfg
    → HasWords o cfg.mode cfg.command
    → IsOpenBus o
    → IsOk (start_text_to_speech cfg o)
unfolding start_text_to_speech start_tts
tts-IsOk cfg o sound w b = where_enabled-IsOk cfg.enabled _ λ on.
    bind-IsOk (make_synth cfg o) _ (synth-IsOk cfg o w (sound on).0) λ synth.
      bind-IsOk (if_started "start TTS service" (start_tts o.takes_speech (new_tts cfg))) _
        (if_started-IsOk _ _ (ground (arith, b.5, on))) λ s. (_, refl)

pub router-IsOk : (cfg : RouterConfig) (o : Outside) → IsOpenBus o → IsOk (start_voice_router cfg o)
unfolding start_voice_router start_router new_router
router-IsOk cfg o b =
    where_enabled-IsOk cfg.enabled _ λ on. if_started-IsOk _ _ (ground (arith, b.6, b.7, b.8, on))
