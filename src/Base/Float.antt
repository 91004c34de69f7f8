-- ===== src/Base/Float.antt =====
-- A float64 by its bit pattern, as math.Float64bits gives it.
use Prim.Native.Nat.{ℕ, ◌/◌, ◌%◌, ◌^◌}
use mathlib.Core.Bool.{Bool, not, ◌||◌}
use loqa_core.Base.Tests.{eqb}

abbrev pub Float64 : Type 0
Float64 = ℕ

-- Neither an infinity nor a NaN: encoding/json refuses those.
unfoldable pub is_finite : Float64 → Bool
is_finite b = not (eqb ((b / 2 ^ 52) % 2048) 2047)

-- `x == 0`, which both zeros pass.
unfoldable pub is_zero_float : Float64 → Bool
is_zero_float b = eqb b 0 || eqb b (2 ^ 63)
