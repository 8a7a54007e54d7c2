-- ===== src/Common/Int.antt =====
-- Signed results of the callbacks: `int16` and `int32` values, negative for a failure.
use Prim.Native.Nat.{ℕ}
use mathlib.Core.Bool.{Bool, true, false}
use dsp_sim_bridge.Common.Tests.{◌==◌, ◌!=◌}

-- `negsuc n` is -(n + 1).
pub data ℤ : Type 0 where
  pos : ℕ → ℤ
  negsuc : ℕ → ℤ

-- `-1`
abbrev pub failed : ℤ
failed = negsuc 0

-- `z < 0`
abbrev pub is_negative : ℤ → Bool
is_negative (pos n) = false
is_negative (negsuc n) = true

-- `z == 0`
abbrev pub is_zero : ℤ → Bool
is_zero (pos n) = n == 0
is_zero (negsuc n) = false

-- `z > 0`
abbrev pub is_positive : ℤ → Bool
is_positive (pos n) = n != 0
is_positive (negsuc n) = false
