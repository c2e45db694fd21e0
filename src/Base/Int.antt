-- ===== src/Base/Int.antt =====
-- Go's `int`, and the conversion `int32(n)`, which keeps the low 32 bits.
use Prim.Native.Nat.{ℕ, suc, ◌-◌, ◌%◌, ◌^◌, ◌<◌}
use Prim.Native.String.{String, ◌++◌}
use mathlib.Core.Path.{◌≡◌}
use mathlib.Core.Bool.{Bool, false}
use native.Mathlib.Omega.{arith}
use verify_directory_operato.Base.Tests.{ltb, nat_eq, if◌then◌else◌}
use verify_directory_operato.Base.Text.{decimal}

-- `negsuc n` is -(n + 1).
pub data ℤ : Type 0 where
  pos : ℕ → ℤ
  negsuc : ℕ → ℤ

-- The two's complement pattern of an integer, modulo 2 ^ 32.
abbrev pub pattern32 : ℤ → ℕ
pattern32 (pos n) = n % 2 ^ 32
pattern32 (negsuc n) = 2 ^ 32 - 1 - n % 2 ^ 32

abbrev pub signed32 : ℕ → ℤ
signed32 p = if ltb p (2 ^ 31) then pos p else negsuc (2 ^ 32 - 1 - p)

-- int32(i)
unfoldable pub to_int32 : ℤ → ℤ
to_int32 i = signed32 (pattern32 i)

unfoldable pub is_zero : ℤ → Bool
is_zero (pos n) = nat_eq n 0
is_zero (negsuc n) = false

-- strconv.Itoa(i), and the verb %d.
unfoldable pub itoa : ℤ → String
itoa (pos n) = decimal n
itoa (negsuc n) = "-" ++ decimal (suc n)

-- A port number survives the conversion.
pub to_int32_small : (n : ℕ) → n < 2 ^ 31 → to_int32 (pos n) ≡ pos n
unfolding to_int32
to_int32_small n h = ground arith

-- 0 < i
unfoldable pub is_positive : ℤ → Bool
is_positive (pos n) = ltb 0 n
is_positive (negsuc n) = false
