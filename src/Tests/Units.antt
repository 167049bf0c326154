-- ===== src/Tests/Units.antt =====
-- Concrete runs of internal/monitor/registry.go.
use healthd.Common.{◌≡◌, true, false, List, [], ◌∷◌, some}
use healthd.Common.Int.{pos}
use healthd.Common.Assoc.{lookup}
use healthd.Platform.Exact.{exact}
use healthd.Monitor.StateMachine.{unhealthy}
use healthd.Monitor.Registry.{Registry, UnitStatus, new_registry}
use healthd.Monitor.Registry.Invariant.{IsValid}
use healthd.Monitor.Registry.Reachable.{run-IsValid}
use healthd.Monitor.Registry.Spec.{Op, register_op, set_op, check_op, speed_op, run, read}
use healthd.Monitor.Registry.Refine.{run-recent_view}

abbrev router_down : UnitStatus exact
router_down = record {
  name = "router";
  state = unhealthy;
  has_window = true;
  availability = record { num = pos 50; den = 1 };
  consecutive = pos 2;
  last_success = 10;
}

abbrev calls : List (Op exact)
calls =
    check_op "router" 5 true
    ∷ register_op "router"
    ∷ register_op "speed_check"
    ∷ check_op "router" 10 true
    ∷ check_op "router" 20 false
    ∷ set_op router_down
    ∷ register_op "router"
    ∷ speed_op "speed_check" 30 (record { num = pos 90; den = 1 })
    ∷ []

abbrev registry : Registry exact
registry = run exact (new_registry exact) calls

run-recent_view_example :
    read exact (lookup "router" registry.units) (lookup "router" registry.history)
    ≡ some (
      router_down,
      record { time = 10; success = true } ∷ record { time = 20; success = false } ∷ [],
      [],
    )
run-recent_view_example = run-recent_view exact "router" calls

run-IsValid_example : IsValid exact registry
run-IsValid_example = run-IsValid exact calls
