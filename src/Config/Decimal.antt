-- ===== src/Config/Decimal.antt =====
-- internal/config/config.go, overrideInt: the decimal print of a number, and that it is read back.
use Prim.Native.Char.{Char, char, code, nul}
use Prim.Native.Nat.{◌+◌, ◌*◌, ◌/◌, ◌%◌, ◌^◌, ◌<◌, zero, suc}
use native.Mathlib.Numerals.{unary_clauses}
use loqa_core.Base.{
  if◌then◌else◌, if_all, eqb, Bool-cases, inl, inr, ◌<◌, ℕ, ◌≡◌, ◌≢◌, refl, ap, ◌∙◌, arith, String,
  some, ℤ, pos, negsuc,
}
use loqa_core.Config.Values.{scan, scan_digits, positive, atoi}
use loqa_core.Config.Loading.{Env, override_int}

abbrev pub char_at : ℕ → String → Char
char_at n String.[] = nul
char_at zero (String.◌∷◌ c s) = c
char_at (suc n) (String.◌∷◌ c s) = char_at n s

abbrev pub digit_char : ℕ → Char
digit_char d = char_at d "0123456789"

code-digit_char : (d : ℕ) → d < 10 → code (digit_char d) ≡ b'0' + d
code-digit_char zero h = refl
code-digit_char (suc zero) h = refl
code-digit_char (suc (suc zero)) h = refl
code-digit_char (suc (suc (suc zero))) h = refl
code-digit_char (suc (suc (suc (suc zero)))) h = refl
code-digit_char (suc (suc (suc (suc (suc zero))))) h = refl
code-digit_char (suc (suc (suc (suc (suc (suc zero)))))) h = refl
code-digit_char (suc (suc (suc (suc (suc (suc (suc zero))))))) h = refl
code-digit_char (suc (suc (suc (suc (suc (suc (suc (suc zero)))))))) h = refl
code-digit_char (suc (suc (suc (suc (suc (suc (suc (suc (suc zero))))))))) h = refl
code-digit_char (suc (suc (suc (suc (suc (suc (suc (suc (suc (suc d)))))))))) h =
    absurd (omega arith)

-- The digits of a number go before a text, at most as many as the first argument says.
before : ℕ → ℕ → String → String
before zero n out = out
before (suc places) n out =
    let longer = before places (n / 10) (String.◌∷◌ (digit_char (n % 10)) out) in
    if eqb n 0 then out else longer

-- The decimal print, for numbers of up to twenty digits.
format_nat : ℕ → String
format_nat n = before 19 (n / 10) (String.◌∷◌ (digit_char (n % 10)) "")

pub format_int : ℤ → String
format_int (pos n) = format_nat n
format_int (negsuc n) = String.◌∷◌ (char b'-' tt) (format_nat (suc n))

tenths : (n : ℕ) → n / 10 * 10 + n % 10 ≡ n
tenths n = omega arith

scan_last :
    (n : ℕ) (out : String) → scan (String.◌∷◌ (digit_char (n % 10)) out) (n / 10) ≡ scan out n
unfolding scan
scan_last n out =
    let e = code-digit_char (n % 10) (omega arith) in ground (arith, e, ap (scan out) (tenths n))

power_suc : (places : ℕ) → 10 ^ suc places ≡ 10 ^ places * 10
power_suc places = simp unary_clauses

scan-before :
    (places n : ℕ) (out : String) → n < 10 ^ places → scan (before places n out) 0 ≡ scan out n
unfolding before
scan-before zero n out h = ap (scan out) (omega (arith, h))
scan-before (suc places) n out h = elim (Bool-cases (eqb n 0)) [
  | inl none_left ↦ rw none_left (ap (scan out) (ground (arith, none_left)))
  | inr more ↦
      rw more (scan-before places (n / 10) _ (omega (arith, h, power_suc places)) ∙ scan_last n out)
]

cons_ne_nil : (c : Char) (s : String) → String.◌∷◌ c s ≢ ""
cons_ne_nil c s = cc

before-ne-nil : (places n : ℕ) (c : Char) (out : String) → before places n (String.◌∷◌ c out) ≢ ""
unfolding before
before-ne-nil zero n c out = cons_ne_nil c out
before-ne-nil (suc places) n c out =
    if_all (λ s. s ≢ "") (eqb n 0) (λ none_left e. cc)
      λ more. before-ne-nil places (n / 10) (digit_char (n % 10)) (String.◌∷◌ c out)

scan-format_nat : (n : ℕ) → n < 10 ^ 20 → scan (format_nat n) 0 ≡ some n
unfolding format_nat scan
scan-format_nat n h = scan-before 19 (n / 10) _ (omega (arith, h)) ∙ scan_last n ""

-- A text of digits has no sign.
atoi-digits : (s : String) (n : ℕ) → s ≢ "" → scan s 0 ≡ some n → atoi s ≡ positive (some n)
unfolding atoi scan
atoi-digits String.[] n h e = absurd (h refl)
atoi-digits (String.◌∷◌ c s) n h e = ground (arith, e)

format_nat-ne-nil : (n : ℕ) → format_nat n ≢ ""
unfolding format_nat
format_nat-ne-nil n = before-ne-nil 19 (n / 10) (digit_char (n % 10)) ""

scan_digits-scan : (s : String) → s ≢ "" → scan_digits s ≡ scan s 0
scan_digits-scan String.[] h = absurd (h refl)
scan_digits-scan (String.◌∷◌ c s) h = refl

abbrev pub IsInt64 : ℤ → Type 0
IsInt64 (pos n) = n < 2 ^ 63
IsInt64 (negsuc n) = n < 2 ^ 63

atoi-format_int : (z : ℤ) → IsInt64 z → atoi (format_int z) ≡ some z
unfolding format_int
atoi-format_int (pos n) h =
    atoi-digits (format_nat n) n (format_nat-ne-nil n) (scan-format_nat n (omega (arith, h)))
    ∙ ground (arith, h)
atoi-format_int (negsuc n) h =
    unfold atoi in
    rw (scan_digits-scan _ (format_nat-ne-nil (suc n)), scan-format_nat (suc n) (omega (arith, h)))
      (ground (arith, h))

-- A variable that is set to the decimal print of an int64, with a minus sign before a negative one,
-- gives the setting that number, whatever it was.
pub override_int-format_int :
    (env : Env) (key : String) (z target : ℤ)
    → IsInt64 z
    → env key ≡ some (format_int z)
    → override_int env key target ≡ z
unfolding override_int
override_int-format_int env key z target h e = rw (e, atoi-format_int z h) refl
