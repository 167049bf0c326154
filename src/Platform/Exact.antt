-- ===== src/Platform/Exact.antt =====
-- A platform with exact fractions for `float64` and milliseconds for instants: an instance
-- of Platform.antt for the tests.
use healthd.Common.{ℕ, suc, ◌+◌, ◌*◌, ◌-◌, refl, Bool, false, not, ◌&&◌, leb, ◌==◌, if◌then◌else◌}
use healthd.Common.Int.{ℤ, pos, negsuc, to_ℕ, ltb_ℤ, scale}
use healthd.Platform.{Platform}

pub record Fraction : Type 0 where
  pub num : ℤ
  pub den : ℕ

abbrev neg_part : ℤ → ℕ
neg_part (pos n) = 0
neg_part (negsuc n) = suc n

abbrev difference : ℕ → ℕ → ℤ
difference a b = if leb b a then pos (a - b) else negsuc (b - a - 1)

abbrev times : ℤ → ℤ → ℤ
times a (pos b) = scale a b
times a (negsuc b) = difference (neg_part a * suc b) (to_ℕ a * suc b)

abbrev plus : ℤ → ℤ → ℤ
plus a b = difference (to_ℕ a + to_ℕ b) (neg_part a + neg_part b)

abbrev over : Fraction → ℤ → ℕ → Fraction
over x (pos c) d = record { num = scale x.num d; den = x.den * c }
over x (negsuc c) d = record { num = times x.num (difference 0 d); den = x.den * suc c }

abbrev less : Fraction → Fraction → Bool
less x y = ltb_ℤ (scale x.num y.den) (scale y.num x.den)

abbrev pub exact : Platform
exact = record {
  Float = Fraction;
  of_int = λ z. record { num = z; den = 1 };
  add_float =
      λ x y. record { num = plus (scale x.num y.den) (scale y.num x.den); den = x.den * y.den };
  mul_float = λ x y. record { num = times x.num y.num; den = x.den * y.den };
  div_float = λ x y. over x y.num y.den;
  lt_float = less;
  le_float = λ x y. not (less y x);
  eq_float = λ x y. not (less x y) && not (less y x);
  is_nan = λ x. false;
  le-lt_float = λ a b p q. refl;
  ratio_number = λ a b c h. refl;
  Time = ℕ;
  zero_time = 0;
  is_zero = λ t. t == 0;
  unix_milli = pos;
  is_zero-zero_time = refl;
}
