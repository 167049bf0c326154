-- ===== src/Tests/Daemons.antt =====
-- Concrete starts of cmd/healthd/main.go.
use healthd.Common.{arith, false, String, ◌≡◌, true, List, is_present}
use healthd.Common.Int.{ltb_ℤ, pos}
use healthd.Common.Assoc.{lookup}
use healthd.Platform.Exact.{exact}
use healthd.Config.Defaults.{apply_defaults}
use healthd.Daemon.{BuiltChannel, seconds, build_roles, start, start_roles}
use healthd.Config.Validate.{not_positive}
use healthd.Daemon.Durations.{seconds_overflow}
use healthd.Daemon.Startup.{start-load}
use healthd.Tests.Configs.{written, resolved, parse_nothing, written-loads}

seconds_overflow_example :
    (not_positive (pos 10000000000) ≡ false) × (ltb_ℤ (seconds (pos 10000000000)) (pos 0) ≡ true)
seconds_overflow_example = seconds_overflow 10000000000 (omega arith) (omega arith)

abbrev no_secrets : String → String
no_secrets name = ""

start-load_example :
    (built : List (String × BuiltChannel)) × (start exact parse_nothing no_secrets written
      ≡ start_roles exact built (build_roles exact (apply_defaults exact resolved)))
    × ((n : String)
        → is_present (lookup n built)
          ≡ is_present (lookup n (apply_defaults exact resolved).channels))
start-load_example =
    start-load exact parse_nothing no_secrets written (apply_defaults exact resolved) written-loads
