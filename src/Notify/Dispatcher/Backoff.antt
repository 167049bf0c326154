-- ===== src/Notify/Dispatcher/Backoff.antt =====
-- The delays of the exponential backoff (dispatcher.go).
use healthd.Common.{ℕ, ◌-◌, ◌*◌, ◌^◌, ◌≤◌, ◌<◌, min, ◌≡◌, ap, ◌∙◌, true, arith}
use native.Mathlib.Nat.{le_trans, mul-le-mul_left, pow-le-pow_right}
use healthd.Common.Int.{pos, max_int, ltb_ℤ, mul_int, mul_int-pos}
use healthd.Notify.Dispatcher.{Policy, backoff, shift_of}

shift_of-min : (a : ℕ) → shift_of a ≡ min (a - 1) 30
shift_of-min a = ground arith

shift_of-le : (a : ℕ) → shift_of a ≤ 30
shift_of-le a = ground arith

-- With a base delay of b nanoseconds whose product with 2^30 fits into an int64, the delay after the
-- attempt a is b * 2^(a-1), and stays at b * 2^30 from the attempt 31 on.
pub backoff-pow :
    (d : Policy) (b a : ℕ)
    → d.base_delay ≡ pos b
    → b * 2 ^ 30 ≤ max_int
    → backoff d a ≡ pos (b * 2 ^ min (a - 1) 30)
unfolding backoff
backoff-pow d b a e h =
    let bound : b * 2 ^ shift_of a ≤ max_int =
      le_trans (mul-le-mul_left b (pow-le-pow_right (omega arith) (shift_of-le a))) h in
    rw e (mul_int-pos b (2 ^ shift_of a) bound ∙ ap (λ k. pos (b * 2 ^ k)) (shift_of-min a))

-- The clamp of the shift does not prevent an overflow of the product: with a base delay from 2^33
-- nanoseconds (8.59 s) to 2^34, each delay from the attempt 31 on is negative.
pub backoff_overflow :
    (d : Policy) (b a : ℕ)
    → d.base_delay ≡ pos b
    → 2 ^ 33 ≤ b
    → b < 2 ^ 34
    → 31 ≤ a
    → ltb_ℤ (backoff d a) (pos 0) ≡ true
unfolding backoff mul_int
backoff_overflow d b a e lo hi h =
    let clamped : shift_of a ≡ 30 = ground arith in rw (e, clamped) (ground arith)
