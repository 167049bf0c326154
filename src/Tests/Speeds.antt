-- ===== src/Tests/Speeds.antt =====
-- The statistics of concrete speed samples (internal/monitor/registry.go).
use healthd.Common.{
  ℕ, ◌≡◌, ◌/◌, refl, true, false, List, [], ◌∷◌, some, map, get_elem?, ltb, length, arith,
}
use healthd.Platform.Whole.{whole}
use healthd.Monitor.History.{SpeedSample}
use healthd.Monitor.Registry.Summary.{SpeedStats, speed_stats}
use healthd.Monitor.Registry.Summary.Stats.{LtOrder, mbps_of, Among, sum_from, speed_stats_lem}

abbrev at_speed : ℕ → ℕ → SpeedSample whole
at_speed t x = record { time = t; mbps = x }

abbrev later : List (SpeedSample whole)
later = at_speed 2 40 ∷ at_speed 3 95 ∷ at_speed 4 70 ∷ []

ltb_irrefl : (a : ℕ) → ltb a a ≡ false
ltb_irrefl a = ground arith

ltb_trans : (a b c : ℕ) → ltb a b ≡ true → ltb b c ≡ true → ltb a c ≡ true
ltb_trans a b c p q = ground arith

abbrev ltb_order : LtOrder whole
ltb_order = record { lt_irrefl = ltb_irrefl; lt_trans = ltb_trans }

speed_stats_lem_example :
    let speeds = map (mbps_of whole) (at_speed 1 50 ∷ later) in
    (st : SpeedStats whole) × (speed_stats whole (at_speed 1 50 ∷ later) ≡ some st)
    × (st.count ≡ length speeds)
    × Among whole st.min speeds
    × Among whole st.max speeds
    × (ltb 40 st.min ≡ false)
    × (ltb st.max 40 ≡ false)
    × (st.avg ≡ sum_from whole 0 speeds / length speeds)
    × (get_elem? speeds (length later) ≡ some st.latest)
speed_stats_lem_example =
    speed_stats_lem whole (at_speed 1 50) (at_speed 2 40) later 1 ltb_order refl
