-- ===== src/Tests/Machine.antt =====
-- Concrete runs of internal/monitor/window.go, statemachine.go and history.go.
use healthd.Common.{ℕ, ◌<◌, ◌≡◌, refl, Bool, true, false, List, [], ◌∷◌, some, arith, length}
use healthd.Common.Int.{pos}
use healthd.Platform.Exact.{exact}
use healthd.Circular.{contents}
use healthd.Monitor.Window.{new_window, percentage, full, len}
use healthd.Monitor.Window.Refine.{add_all, add_all-recent}
use healthd.Monitor.History.{new_ring, slice}
use healthd.Monitor.History.Refine
use healthd.Monitor.History.Refine.{add_all-slice}
use healthd.Monitor.StateMachine.{
  Config, StateMachine, Event, no_event, alert_unhealthy, recovery_healthy, State, healthy,
  unhealthy, consecutive_trigger, availability_trigger, new_with_config, observe, observe_all,
}
use healthd.Monitor.StateMachine.Fields.{observe_all-availability}
use healthd.Monitor.StateMachine.Events.{hear, hear_all, observe-hear, observe_all-hear}
use healthd.Monitor.StateMachine.Consecutive.{observe_all-streak}
use healthd.Monitor.StateMachine.Availability.{observe_all-verdict}
use healthd.Monitor.StateMachine as Machine

abbrev failing_twice : Config exact
failing_twice = record {
  failure_threshold = pos 2;
  window_size = pos 3;
  trigger = consecutive_trigger;
  min_availability = record { num = pos 0; den = 1 };
}

abbrev half_available : Config exact
half_available = record {
  failure_threshold = pos 1;
  window_size = pos 3;
  trigger = availability_trigger;
  min_availability = record { num = pos 50; den = 1 };
}

abbrev checks : List (Bool × ℕ)
checks = (false, 10) ∷ (false, 20) ∷ (true, 30) ∷ (false, 40) ∷ (false, 50) ∷ []

abbrev machine : StateMachine exact
machine = new_with_config exact failing_twice

observe_all-hear_example :
    hear_all
      (some healthy)
      (no_event ∷ alert_unhealthy ∷ recovery_healthy ∷ no_event ∷ alert_unhealthy ∷ [])
    ≡ some unhealthy
unfolding observe_all observe Machine.record_result Machine.transition_consecutive new_with_config
observe_all-hear_example = observe_all-hear exact machine checks

observe-hear_example :
    let (m', ev) = observe exact machine false 10 in hear machine.state ev ≡ some m'.state
observe-hear_example = observe-hear exact machine false 10

observe_all-streak_example :
    let (m, evs) = observe_all exact machine checks in
    (m.consecutive ≡ pos 2)
    × (m.state ≡ unhealthy)
    × (evs ≡ no_event ∷ alert_unhealthy ∷ recovery_healthy ∷ no_event ∷ alert_unhealthy ∷ [])
observe_all-streak_example = observe_all-streak exact failing_twice checks refl (omega arith)

observe_all-verdict_example :
    (observe_all exact (new_with_config exact half_available) checks).0.state ≡ unhealthy
observe_all-verdict_example = observe_all-verdict exact half_available 2 checks refl refl refl

observe_all-availability_example :
    let m = (observe_all exact (new_with_config exact half_available) checks).0 in
    (Machine.availability exact m ≡ percentage exact 1 3) × (m.last_success ≡ 30)
observe_all-availability_example = observe_all-availability exact half_available 2 checks refl

abbrev five_results : List Bool
five_results = true ∷ false ∷ true ∷ true ∷ false ∷ []

add_all-recent_example :
    let w = add_all (new_window 3) five_results in
    (contents 3 w.buf w.head w.len ≡ true ∷ true ∷ false ∷ [])
    × (len w ≡ 3)
    × (w.sum ≡ 2)
    × (full w ≡ true)
add_all-recent_example = add_all-recent 3 five_results (omega arith)

add_all-slice_example :
    let r = Refine.add_all {A = ℕ} (new_ring 0 3) (4 ∷ 5 ∷ 6 ∷ 7 ∷ 8 ∷ []) in
    (slice r ≡ 6 ∷ 7 ∷ 8 ∷ []) × (r.len ≡ 3) × (r.head < length r.buf)
add_all-slice_example = add_all-slice {A = ℕ} 0 3 (4 ∷ 5 ∷ 6 ∷ 7 ∷ 8 ∷ []) (omega arith)
