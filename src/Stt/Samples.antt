-- ===== src/Stt/Samples.antt =====
-- internal/stt/exec_recognizer.go, writePCMToWav: the samples and the bytes that they come from.
use Prim.Native.Nat.{◌+◌, ◌-◌, ◌*◌, ◌/◌, ◌%◌, ◌^◌, ◌<◌}
use loqa_core.Base.{
  ℕ, ◌≡◌, refl, Bool, true, false, not, ◌&&◌, Option, none, some, some-eq, List, [], ◌∷◌, length,
  All, ℤ, pos, negsuc, arith, ltb, eqb, if◌then◌else◌, Bool-cases, inl, inr, subst,
}
use loqa_core.Stt.Recognizers.{int16, samples_of, Wav, write_pcm_to_wav}

abbrev pub IsByte : ℕ → Type 0
IsByte n = n < 256

abbrev pub IsInt16 : ℤ → Type 0
IsInt16 (pos n) = n < 2 ^ 15
IsInt16 (negsuc n) = n < 2 ^ 15

-- The 16 bits of a sample.
abbrev pub bits_of : ℤ → ℕ
bits_of (pos n) = n
bits_of (negsuc n) = 2 ^ 16 - 1 - n

-- The samples as bytes, the low one first.
abbrev pub pcm_of : List ℤ → List ℕ
pcm_of [] = []
pcm_of (sample ∷ samples) = bits_of sample % 256 ∷ bits_of sample / 256 ∷ pcm_of samples

abbrev pub IsSample : ℕ → ℕ → ℤ → Type 0
IsSample low high sample =
    IsInt16 sample × (bits_of sample % 256 ≡ low) × (bits_of sample / 256 ≡ high)

int16-IsSample : (low high : ℕ) → IsByte low → IsByte high → IsSample low high (int16 low high)
int16-IsSample low high h k = elim (Bool-cases (ltb (low + 256 * high) (2 ^ 15))) [
  | inl small ↦ rw small (ground (arith, small), omega (arith, h, k), omega (arith, h, k))
  | inr large ↦
      rw large
        (ground (arith, large, h, k), ground (arith, large, h, k), ground (arith, large, h, k))
]

samples_of-pcm :
    (pcm : List ℕ)
    → All IsByte pcm
    → length pcm % 2 ≡ 0
    → All IsInt16 (samples_of pcm)
      × (pcm_of (samples_of pcm) ≡ pcm)
      × (length pcm ≡ 2 * length (samples_of pcm))
samples_of-pcm [] bytes even = (tt, refl, omega arith)
samples_of-pcm (low ∷ []) bytes even = absurd (omega (arith, even))
samples_of-pcm (low ∷ high ∷ pcm) bytes even =
    let (sound, back, twice) = samples_of-pcm pcm bytes.1.1 (omega (arith, even)) in
    let (fits, low_back, high_back) = int16-IsSample low high bytes.0 bytes.1.0 in
    ((fits, sound), cc (low_back, high_back, back), omega (arith, twice))

some_if :
    {A : Type 0} (b : Bool) (value : A) {other : A}
    → (if b then some value else none) ≡ some other
    → (b ≡ true) × (value ≡ other)
some_if true value e = (refl, some-eq e)
some_if false value e = absurd (ground (arith, e))

none_if :
    {A : Type 0} (b : Bool) {rest : Option A} {other : A}
    → (if b then none else rest) ≡ some other
    → (b ≡ false) × (rest ≡ some other)
none_if true e = absurd (ground (arith, e))
none_if false e = (refl, e)

-- A payload of bytes that is written has two bytes for each sample: every sample is of 16 bits with a
-- sign, and the samples' bytes, the low one first, are the payload's.
pub write_pcm_to_wav_lem :
    (writes closes : Bool) (pcm : List ℕ) (sample_rate channels : ℤ) (wav : Wav)
    → All IsByte pcm
    → write_pcm_to_wav writes closes pcm sample_rate channels ≡ some wav
    → All IsInt16 wav.samples
      × (pcm_of wav.samples ≡ pcm)
      × (length pcm ≡ 2 * length wav.samples)
      × (wav.sample_rate ≡ sample_rate)
      × (wav.channels ≡ channels)
unfolding write_pcm_to_wav
write_pcm_to_wav_lem writes closes pcm sample_rate channels wav bytes e =
    let (even, rest) = none_if (not (eqb (length pcm % 2) 0)) e in
    let (_, same) = some_if (writes && closes) _ rest in
    let (sound, back, twice) = samples_of-pcm pcm bytes (ground (arith, even)) in
    subst
      (λ w.
        All IsInt16 w.samples
        × (pcm_of w.samples ≡ pcm)
        × (length pcm ≡ 2 * length w.samples)
        × (w.sample_rate ≡ sample_rate)
        × (w.channels ≡ channels))
      same (sound, back, twice, refl, refl)
