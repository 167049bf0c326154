-- ===== src/Platform.antt =====
-- What the program takes from Go and its standard library, as a parameter of the model: the
-- arithmetic of `float64` and the instants of package time.
pub mod Exact
pub mod Whole
use healthd.Common.{◌≡◌, ◌≢◌, Bool, true, false, not}
use healthd.Common.Int.{ℤ, pos}

-- The laws are the documented behaviour of IEEE 754 numbers and of time.Time: `<=` is the negation
-- of the opposite `<` unless a side is NaN, a ratio of integers with a divisor that is not 0 times
-- an integer is not NaN, and the zero instant is zero.
pub record Platform : Type 1 where
  pub Float : Type 0
  pub of_int : ℤ → Float
  pub add_float : Float → Float → Float
  pub mul_float : Float → Float → Float
  pub div_float : Float → Float → Float
  pub lt_float : Float → Float → Bool
  pub le_float : Float → Float → Bool
  pub eq_float : Float → Float → Bool
  pub is_nan : Float → Bool
  pub le-lt_float :
      (a b : Float) → is_nan a ≡ false → is_nan b ≡ false → le_float a b ≡ not (lt_float b a)
  pub ratio_number :
      (a b c : ℤ)
      → b ≢ pos 0
      → is_nan (mul_float (div_float (of_int a) (of_int b)) (of_int c)) ≡ false
  pub Time : Type 0
  pub zero_time : Time
  pub is_zero : Time → Bool
  pub unix_milli : Time → ℤ
  pub is_zero-zero_time : is_zero zero_time ≡ true
