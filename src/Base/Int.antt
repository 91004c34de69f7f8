-- ===== src/Base/Int.antt =====
-- Go's int and time.Duration: signed 64-bit integers.
use Prim.Native.Nat.{ℕ, suc, ◌+◌, ◌-◌, ◌*◌, ◌%◌, ◌^◌, ◌≤◌, ◌<◌, min}
use mathlib.Core.Path.{◌≡◌}
use mathlib.Core.Bool.{Bool}
use native.Mathlib.Omega.{arith}
use loqa_core.Base.Tests.{ltb, leb, if◌then◌else◌}

-- `negsuc n` is -(n + 1).
pub data ℤ : Type 0 where
  pos : ℕ → ℤ
  negsuc : ℕ → ℤ

abbrev pub pos_part : ℤ → ℕ
pos_part (pos n) = n
pos_part (negsuc n) = 0

abbrev pub neg_part : ℤ → ℕ
neg_part (pos n) = 0
neg_part (negsuc n) = suc n

infix 50 ◌≤ℤ◌ ◌<ℤ◌
abbrev pub ◌≤ℤ◌ : ℤ → ℤ → Type 0
a ≤ℤ b = pos_part a + neg_part b ≤ pos_part b + neg_part a

abbrev pub ◌<ℤ◌ : ℤ → ℤ → Type 0
a <ℤ b = pos_part a + neg_part b < pos_part b + neg_part a

abbrev pub int_leb : ℤ → ℤ → Bool
int_leb a b = leb (pos_part a + neg_part b) (pos_part b + neg_part a)

abbrev pub int_ltb : ℤ → ℤ → Bool
int_ltb a b = ltb (pos_part a + neg_part b) (pos_part b + neg_part a)

-- What an int64 keeps of a whole number: two's complement.
unfoldable pub wrap64 : ℤ → ℤ
wrap64 (pos n) = let r = n % 2 ^ 64 in if ltb r (2 ^ 63) then pos r else negsuc (2 ^ 64 - 1 - r)
wrap64 (negsuc n) = let r = n % 2 ^ 64 in if ltb r (2 ^ 63) then negsuc r else pos (2 ^ 64 - 1 - r)

-- time.Duration(n) * unit, where the unit is a positive count of nanoseconds.
unfoldable pub scale : ℕ → ℤ → ℤ
unfolding wrap64
scale unit (pos n) = wrap64 (pos (unit * n))
scale unit (negsuc n) = wrap64 (negsuc (unit * suc n - 1))

-- A time.Time is its nanoseconds since the zero time, 1 January of year 1.
abbrev pub Time : Type 0
Time = ℕ

abbrev pub zero_time : Time
zero_time = 0

-- t.Sub(u), which is held within the int64.
unfoldable pub time_sub : Time → Time → ℤ
time_sub t u =
    if leb u t then pos (min (t - u) (2 ^ 63 - 1)) else negsuc (min (u - t - 1) (2 ^ 63 - 1))

abbrev pub millisecond : ℕ
millisecond = 1000000

-- A count of milliseconds that fits is kept as it is.
pub scale_fits : (unit n : ℕ) → unit * n < 2 ^ 63 → scale unit (pos n) ≡ pos (unit * n)
unfolding scale wrap64
scale_fits unit n h = ground arith

-- A time that is not in the future, at most 292 years back, is told exactly.
pub time_sub_past : (t u : Time) → u ≤ t → t - u < 2 ^ 63 → time_sub t u ≡ pos (t - u)
unfolding time_sub
time_sub_past t u h k = ground arith
