-- ===== src/Platform/Whole.antt =====
-- A platform whose `float64` are the whole numbers, by which the laws of its order are plain: an
-- instance of Platform.antt for the tests.
use healthd.Common.{ℕ, ◌+◌, ◌*◌, ◌/◌, refl, false, not, ltb, ◌==◌}
use healthd.Common.Int.{pos, to_ℕ}
use healthd.Platform.{Platform}

abbrev pub whole : Platform
whole = record {
  Float = ℕ;
  of_int = to_ℕ;
  add_float = λ x y. x + y;
  mul_float = λ x y. x * y;
  div_float = λ x y. x / y;
  lt_float = ltb;
  le_float = λ x y. not (ltb y x);
  eq_float = λ x y. x == y;
  is_nan = λ x. false;
  le-lt_float = λ a b p q. refl;
  ratio_number = λ a b c h. refl;
  Time = ℕ;
  zero_time = 0;
  is_zero = λ t. t == 0;
  unix_milli = pos;
  is_zero-zero_time = refl;
}
