-- ===== src/Common/Int.antt =====
-- Go's `int` and `int64` as integers with the wrap-around written out.
use Prim.Native.Nat.{ℕ, zero, suc, ◌+◌, ◌-◌, ◌*◌, ◌%◌, ◌^◌, ◌≤◌}
use mathlib.Core.Path.{◌≡◌}
use mathlib.Core.Bool.{Bool, true, false}
use native.Mathlib.Omega.{arith}
use healthd.Common.Tests.{ltb, leb, ◌==◌, if◌then◌else◌}

-- `negsuc n` is -(n + 1).
pub data ℤ : Type 0 where
  pos : ℕ → ℤ
  negsuc : ℕ → ℤ

abbrev pub ltb_ℤ : ℤ → ℤ → Bool
ltb_ℤ (pos a) (pos b) = ltb a b
ltb_ℤ (pos a) (negsuc b) = false
ltb_ℤ (negsuc a) (pos b) = true
ltb_ℤ (negsuc a) (negsuc b) = ltb b a

abbrev pub leb_ℤ : ℤ → ℤ → Bool
leb_ℤ (pos a) (pos b) = leb a b
leb_ℤ (pos a) (negsuc b) = false
leb_ℤ (negsuc a) (pos b) = true
leb_ℤ (negsuc a) (negsuc b) = leb b a

abbrev pub eqb_ℤ : ℤ → ℤ → Bool
eqb_ℤ (pos a) (pos b) = a == b
eqb_ℤ (pos a) (negsuc b) = false
eqb_ℤ (negsuc a) (pos b) = false
eqb_ℤ (negsuc a) (negsuc b) = a == b

abbrev pub to_ℕ : ℤ → ℕ
to_ℕ (pos n) = n
to_ℕ (negsuc n) = 0

abbrev pub max_int : ℕ
max_int = 9223372036854775807

-- `x++` on an `int`
abbrev pub incr : ℤ → ℤ
incr (pos n) = if n == max_int then negsuc max_int else pos (suc n)
incr (negsuc zero) = pos 0
incr (negsuc (suc n)) = negsuc n

-- the 64-bit signed value of an integer: the two's complement of its low 64 bits
abbrev pub from_word : ℕ → ℤ
from_word m = if leb m max_int then pos m else negsuc (2 ^ 64 - 1 - m)

unfoldable pub wrap : ℤ → ℤ
wrap (pos n) = from_word (n % 2 ^ 64)
wrap (negsuc n) = from_word (2 ^ 64 - 1 - n % 2 ^ 64)

-- the product of an integer and a number, before it is wrapped
abbrev pub scale : ℤ → ℕ → ℤ
scale (pos n) k = pos (n * k)
scale (negsuc n) zero = pos 0
scale (negsuc n) (suc k) = negsuc (n * suc k + k)

-- `a * k` on `int64`, for a constant or shifted `k`
unfoldable pub mul_int : ℤ → ℕ → ℤ
unfolding wrap
mul_int a k = wrap (scale a k)

pub mul_int-pos : (n k : ℕ) → n * k ≤ max_int → mul_int (pos n) k ≡ pos (n * k)
unfolding mul_int
mul_int-pos n k h = ground arith
