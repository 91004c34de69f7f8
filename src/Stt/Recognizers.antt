-- ===== src/Stt/Recognizers.antt =====
-- internal/stt/mock_recognizer.go and internal/stt/exec_recognizer.go. What the process and the WAV encoder
-- do is an argument.
use Prim.Native.Nat.{◌+◌, ◌-◌, ◌*◌, ◌%◌, ◌^◌}
use loqa_core.Base.{
  ℕ, String, append_text, ◌==◌, Bool, true, false, not, ◌&&◌, Option, none, some, List, [], ◌∷◌,
  ◌++◌, length, ℤ, pos, negsuc, ltb, eqb, is_empty, if◌then◌else◌,
}
use loqa_core.Config.{SttConfig}
use loqa_core.Config.Decimal.{format_int}
use loqa_core.Stt.{TranscriptResult}

abbrev pub mock_text : List ℕ → Bool → String
mock_text pcm final =
    append_text (if final then "[final" else "[partial")
      (append_text " transcript length=" (append_text (format_int (pos (length pcm))) "]"))

abbrev pub mock_transcribe : List ℕ → Bool → TranscriptResult
mock_transcribe pcm final = record { text = mock_text pcm final; confidence = 0 }

-- int16(binary.LittleEndian.Uint16(b)).
abbrev pub int16 : ℕ → ℕ → ℤ
int16 low high =
    let n = low + 256 * high in if ltb n (2 ^ 15) then pos n else negsuc (2 ^ 16 - 1 - n)

abbrev pub samples_of : List ℕ → List ℤ
samples_of [] = []
samples_of (low ∷ []) = []
samples_of (low ∷ high ∷ pcm) = int16 low high ∷ samples_of pcm

-- A WAV file of 16 bits a sample.
pub record Wav : Type 0 where
  pub sample_rate : ℤ
  pub channels : ℤ
  pub samples : List ℤ

-- The flags say whether the encoder writes and closes.
unfoldable pub write_pcm_to_wav : Bool → Bool → List ℕ → ℤ → ℤ → Option Wav
write_pcm_to_wav writes closes pcm sample_rate channels =
    if not (eqb (length pcm % 2) 0)
    then none
    else if writes && closes
    then some (record { sample_rate = sample_rate; channels = channels; samples = samples_of pcm })
    else none

abbrev pub arguments_when : Bool → List String → List String
arguments_when true arguments = arguments
arguments_when false arguments = []

unfoldable pub command_line : List String → SttConfig → String → Bool → List String
command_line cmd cfg file final =
    cmd
    ++ "--audio"
      ∷ file
      ∷ (arguments_when (not (cfg.model_path == "")) ("--model" ∷ cfg.model_path ∷ [])
          ++ arguments_when (not (cfg.language == "")) ("--language" ∷ cfg.language ∷ [])
          ++ arguments_when ((cfg.mode == "exec") && cfg.publish_interim && not final)
              ("--partial" ∷ []))

-- The name of a temporary file, if there is one; the encoder; and what the command writes for a file,
-- if it does not fail, and what that decodes to.
pub record Process : Type 0 where
  pub temp_file : Option String
  pub writes : Bool
  pub closes : Bool
  pub output : List String → Wav → Option String
  pub decode : String → Option TranscriptResult

abbrev pub decoded : Process → Option String → Option TranscriptResult
decoded p none = none
decoded p (some text) = p.decode text

abbrev pub run_command : Process → List String → Option Wav → Option TranscriptResult
run_command p line none = none
run_command p line (some wav) = decoded p (p.output line wav)

unfoldable pub transcribe :
    Process → List String → SttConfig → List ℕ → ℤ → ℤ → Bool → Option TranscriptResult
transcribe p cmd cfg pcm sample_rate channels final = elim p.temp_file [
  | none ↦ none
  | some file ↦
      let wav = write_pcm_to_wav p.writes p.closes pcm sample_rate channels in
      if is_empty cmd then none else run_command p (command_line cmd cfg file final) wav
]
