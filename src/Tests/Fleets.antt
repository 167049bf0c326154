-- ===== src/Tests/Fleets.antt =====
-- A concrete daemon with two ping targets (internal/roles/ping_monitor.go, registry.go), whose checks
-- interleave call by call.
use healthd.Common.{
  ◌⊎◌, true, ◌+◌, ℕ, String, ◌≡◌, refl, false, List, [], ◌∷◌, Option, none, some, get_elem?, length,
  ◌≤◌,
}
use healthd.Common.Int.{pos}
use healthd.Platform.Exact.{exact}
use healthd.Protocol.{Request, new_summary}
use healthd.Monitor.StateMachine.{
  transition_consecutive, record_result, Config, consecutive_trigger, state_string, observe_all,
}
use healthd.Monitor.Registry.Spec.{fresh_view, recent_view}
use healthd.Monitor.Registry.Summary.{FleetSummary, LogLine, handle_log_snapshot}
use healthd.Roles.Check.{check_failed}
use healthd.Roles.MessageHandler.{summary_handler, handle, to_wire_summary}
use healthd.Roles.Units.{Fleet, RoleTarget, MonitoredUnit, Round, unit_of, new_fleet}
use healthd.Roles.Units.Own.{own, observations, own_view}
use healthd.Roles.Units.Isolation.{seen}
use healthd.Roles.Calls.{
  Monitors, start_monitors, Move, ticks, calls, returns, move, Moves, no_moves, then_move,
}
use healthd.Roles.Calls.Outcome.{own_alerts}
use healthd.Roles.Calls.Sent.{alerts_from, begun}
use healthd.Roles.Calls.Isolation.{calls-own}
use healthd.Roles.Calls.Alerts.{hear_alerts, calls-heard}
use healthd.Roles.Calls.Lines.{Lists, lines-Lists}
use healthd.Roles.Calls.Work.{all_left, all_returned}
use healthd.Roles.Calls.Drains.{GoesOn, all_left_lem}
use healthd.Roles.Calls.Summaries.{recent_summary, summary-own}
use mathlib.Core.Option

abbrev mon : Config exact
mon = record {
  failure_threshold = pos 1;
  window_size = pos 3;
  trigger = consecutive_trigger;
  min_availability = record { num = pos 1; den = 2 };
}

abbrev target : String → RoleTarget exact
target address = record {
  address = address;
  interval = pos 30;
  timeout = pos 5;
  channels = [];
  mon = mon;
  insecure = false;
}

abbrev targets : List (RoleTarget exact)
targets = target "a" ∷ target "b" ∷ []

abbrev fail_at : ℕ → ℕ → Round exact String
fail_at i t = record {
  unit = i;
  role = "ping_monitor";
  detail = check_failed "router" "timeout";
  success = false;
  speed = none;
  at = record { observed = t; recorded = t; dispatched = t };
}

abbrev unit_b : MonitoredUnit exact
unit_b = unit_of exact (pos 30) (pos 5) [] mon (some (record { name = "ping_monitor:b" }))

abbrev fleet : Fleet exact
fleet = new_fleet exact targets [] none none

abbrev started : Monitors exact String
started = start_monitors exact fleet

-- The check of "b" runs to its end while that of "a" is on its way.
abbrev draining : List (Move exact String)
draining =
    calls 1 ∷ calls 0 ∷ calls 1 ∷ calls 1 ∷ calls 0 ∷ calls 1 ∷ calls 1 ∷ calls 1 ∷ returns 1 ∷ []

abbrev meanwhile : List (Move exact String)
meanwhile = ticks (fail_at 1 2) ∷ draining

abbrev interleaved : List (Move exact String)
interleaved = ticks (fail_at 0 1) ∷ meanwhile

abbrev or_else : Monitors exact String → Option (Monitors exact String) → Monitors exact String
or_else s none = s
or_else s (some t) = t

-- The state that moves lead to, if each of them is a step.
unfoldable after : Monitors exact String → List (Move exact String) → Monitors exact String
unfolding move
after s [] = s
after s (mv ∷ mvs) = after (or_else s (move exact s mv)) mvs

abbrev a_begun : Monitors exact String
a_begun = after started (ticks (fail_at 0 1) ∷ [])

abbrev at_last : Monitors exact String
at_last = after started interleaved

abbrev both_begun : Monitors exact String
both_begun = after a_begun (ticks (fail_at 1 2) ∷ [])

abbrev moved_draining : Moves exact String both_begun draining at_last
unfolding after move start_monitors new_fleet
moved_draining = then_move refl (
    then_move refl (
      then_move refl (
        then_move refl (
          then_move refl (
            then_move refl
              (then_move refl (then_move refl (then_move refl (no_moves at_last)))))))))

abbrev moved_meanwhile : Moves exact String a_begun meanwhile at_last
unfolding after move start_monitors new_fleet
moved_meanwhile = then_move refl moved_draining

abbrev moved : Moves exact String started interleaved at_last
unfolding after move start_monitors new_fleet
moved = then_move refl moved_meanwhile

calls-own_example :
    let mine = own exact 1 (begun exact interleaved) in
    (Option.map (λ u. u.machine) (get_elem? at_last.fleet.units 1)
      ≡ some (observe_all exact unit_b.machine (observations exact mine)).0)
    × (seen exact "ping_monitor:b" at_last.fleet.registry
        ≡ recent_view exact (
            some (
              own_view exact "ping_monitor:b" unit_b.machine mine
                (fresh_view exact "ping_monitor:b"))))
    × (alerts_from exact 1 at_last.sent ≡ own_alerts exact unit_b.machine mine)
unfolding new_fleet after move start_monitors
calls-own_example =
    calls-own exact targets [] none none 1 "ping_monitor:b" unit_b interleaved (refl, (refl, tt)) tt
      refl refl moved refl

calls-heard_example :
    (v : MonitoredUnit exact) × (get_elem? at_last.fleet.units 1 ≡ some v)
    × (hear_alerts exact
          (some (state_string unit_b.machine.state))
          (alerts_from exact 1 at_last.sent)
        ≡ some (state_string v.machine.state))
unfolding new_fleet after move start_monitors
calls-heard_example =
    calls-heard exact targets [] none none 1 "ping_monitor:b" unit_b interleaved (refl, (refl, tt))
      tt refl refl moved refl

abbrev asked : Request
asked = record {
  version = "0.1";
  id = "7";
  kind = "get-summary";
  payload = record { timestamp = pos 0; message = "" };
}

summary-own_example :
    let view =
      own_view exact "ping_monitor:b" unit_b.machine
        (own exact 1 (begun exact interleaved))
        (fresh_view exact "ping_monitor:b") in
    (fs : FleetSummary exact) × (handle exact summary_handler at_last.fleet.registry 5 asked
      ≡ some (new_summary exact "7" (to_wire_summary exact fs)))
    × (get_elem? fs.units 1 ≡ some (recent_summary exact view))
unfolding new_fleet after move start_monitors
summary-own_example =
    summary-own exact targets [] none none 1 "ping_monitor:b" unit_b interleaved 5 asked
      (refl, (refl, tt)) tt refl refl moved refl

all_left_lem_example :
    (length draining + all_left exact at_last.phases ≡ all_left exact both_begun.phases)
    × (all_left exact both_begun.phases ≤ 14)
    × ((all_returned exact at_last.phases ≡ true) ⊎ GoesOn exact at_last)
unfolding new_fleet after move start_monitors
all_left_lem_example = all_left_lem exact draining refl moved_draining refl

abbrev or_empty : Option (LogLine exact) → LogLine exact
or_empty none = record { message = ""; unit_count = 0; groups = [] }
or_empty (some l) = l

abbrev logged : LogLine exact
logged = or_empty (get_elem? at_last.lines 0)

lines-Lists_example : Lists exact ("ping_monitor:a" ∷ "ping_monitor:b" ∷ []) logged
unfolding new_fleet after move start_monitors transition_consecutive record_result
    handle_log_snapshot
lines-Lists_example =
    lines-Lists exact targets [] none none interleaved 0 logged (refl, (refl, tt)) tt moved refl
