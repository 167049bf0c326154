-- ===== src/Daemon/Durations.antt =====
-- The durations that buildRoles (cmd/healthd/main.go) makes of the configured seconds.
use healthd.Common.{ℕ, ◌*◌, ◌≤◌, ◌≡◌, true, false, arith}
use healthd.Common.Int.{pos, ltb_ℤ, mul_int, mul_int-pos}
use healthd.Config.Validate.{not_positive}
use healthd.Daemon.{seconds}

-- Up to 9223372036 seconds, 292 years, an interval is converted exactly.
pub seconds-pos : (n : ℕ) → n ≤ 9223372036 → seconds (pos n) ≡ pos (n * 1000000000)
seconds-pos n h = mul_int-pos n 1000000000 (omega arith)

-- An interval of 9223372037 to 18446744073 seconds passes the test that Validate puts on it, and becomes
-- a negative duration.
pub seconds_overflow :
    (n : ℕ)
    → 9223372037 ≤ n
    → n ≤ 18446744073
    → (not_positive (pos n) ≡ false) × (ltb_ℤ (seconds (pos n)) (pos 0) ≡ true)
unfolding mul_int
seconds_overflow n lo hi = (ground arith, ground arith)
