-- ===== src/Roles/Calls/Isolation.antt =====
-- The checks of all units, call by call, seen by one of them at rest (internal/roles, registry.go).
use healthd.Common.{
  ℕ, zero, suc, String, ◌≡◌, refl, sym, ap, ◌∙◌, Bool, true, false, List, [], ◌∷◌, Option, some,
  get_elem?, map,
}
use healthd.Common.Int.{ℤ}
use healthd.Common.Assoc.{Distinct}
use healthd.Platform.{Platform}
use healthd.Monitor.StateMachine as Machine
use healthd.Monitor.StateMachine.{observe_all}
use mathlib.Core.Option
use healthd.Monitor.Registry.Spec.{fresh_view, recent_view}
use healthd.Roles.Units.{RoleTarget, MonitoredUnit, new_fleet}
use healthd.Roles.Units.Enrolled.{fleet_names}
use healthd.Roles.Units.Names.{addresses, fleet_names-Distinct}
use healthd.Roles.Units.Own.{own, observations, own_view}
use healthd.Roles.Units.Isolation.{seen, Sees-seen, Sees-machine, new_fleet-Sees}
use healthd.Roles.Calls.{
  Phase, waiting, returned, before_observe, before_update, before_record_check, before_record_speed,
  before_log_snapshot, before_dispatch, Monitors, wait_first, start_monitors, Move, Moves,
}
use healthd.Roles.Calls.Outcome.{Outcome, own_alerts, after_rounds-own, finish}
use healthd.Roles.Calls.Sent.{alerts_from, begun}
use healthd.Roles.Calls.Pending.{Pending}
use healthd.Roles.Calls.Follow.{Moves-Pending}

module _ (go : Platform) where
  -- The goroutine is in no runCheck.
  abbrev pub at_rest : {E : Type 0} → Option (Phase go E) → Bool
  at_rest (some waiting) = true
  at_rest (some returned) = true
  at_rest _ = false

  finish-at_rest :
      {E : Type 0} (name : String) (p : Phase go E) (o : Outcome go E)
      → at_rest (some p) ≡ true
      → finish go name p o ≡ o
  finish-at_rest name waiting o h = refl
  finish-at_rest name returned o h = refl
  finish-at_rest name (before_observe c) o h = cc
  finish-at_rest name (before_update c ev) o h = cc
  finish-at_rest name (before_record_check c ev) o h = cc
  finish-at_rest name (before_record_speed c ev) o h = cc
  finish-at_rest name (before_log_snapshot c ev) o h = cc
  finish-at_rest name (before_dispatch c ev) o h = cc

  waits_first :
      {E : Type 0} (us : List (MonitoredUnit go)) (i : ℕ) (u : MonitoredUnit go)
      → get_elem? us i ≡ some u
      → get_elem? (map (wait_first go {E = E}) us) i ≡ some waiting
  waits_first [] i u h = cc
  waits_first (v ∷ us) zero u h = refl
  waits_first (v ∷ us) (suc i) u h = waits_first us i u h

  pub start-Pending :
      {E : Type 0} (pings urls : List (RoleTarget go))
      (internet : Option (ℤ × ℤ × Machine.Config go × List String))
      (speed : Option (ℤ × Machine.Config go × List String)) (i : ℕ) (name : String)
      (u : MonitoredUnit go)
      → get_elem? (fleet_names go pings urls internet speed) i ≡ some name
      → get_elem? (new_fleet go pings urls internet speed).units i ≡ some u
      → Pending go {E = E}
          (fleet_names go pings urls internet speed)
          i
          name
          (start_monitors go (new_fleet go pings urls internet speed))
          (record { machine = u.machine; view = fresh_view go name; alerts = [] })
  unfolding start_monitors alerts_from
  start-Pending pings urls internet speed i name u at_i found = record {
    now = record { machine = u.machine; view = fresh_view go name; alerts = [] };
    phase = waiting;
    follows = record {
      sees = new_fleet-Sees go pings urls internet speed i name u at_i found;
      stands_at = waits_first (new_fleet go pings urls internet speed).units i u found;
      alerts = refl;
    };
    finishes = refl;
  }

  -- The goroutines of a daemon whose ping targets have distinct addresses, and its URL targets
  -- distinct URLs, do not disturb one another, call by call. After any interleaving of the calls that
  -- their checks make of the registry and the notifier, for a unit whose goroutine is then in no check:
  -- its machine is the one that its own checks lead to, the registry shows the status of that machine, or
  -- the fresh one before its first check, and the last 100 of its own check and speed samples, and the
  -- alerts that it dispatched are those of its own checks, in their order.
  pub calls-own :
      {E : Type 0} (pings urls : List (RoleTarget go))
      (internet : Option (ℤ × ℤ × Machine.Config go × List String))
      (speed : Option (ℤ × Machine.Config go × List String)) (i : ℕ) (name : String)
      (u : MonitoredUnit go) {t : Monitors go E} (mvs : List (Move go E))
      → Distinct (addresses go pings)
      → Distinct (addresses go urls)
      → get_elem? (fleet_names go pings urls internet speed) i ≡ some name
      → get_elem? (new_fleet go pings urls internet speed).units i ≡ some u
      → Moves go E (start_monitors go (new_fleet go pings urls internet speed)) mvs t
      → at_rest (get_elem? t.phases i) ≡ true
      → let mine = own go i (begun go mvs) in
        (Option.map (λ u. u.machine) (get_elem? t.fleet.units i)
          ≡ some (observe_all go u.machine (observations go mine)).0)
        × (seen go name t.fleet.registry
            ≡ recent_view go (some (own_view go name u.machine mine (fresh_view go name))))
        × (alerts_from go i t.sent ≡ own_alerts go u.machine mine)
  calls-own {E} pings urls internet speed i name u {t} mvs d e at_i found moves rest =
      let mine = own go i (begun go mvs) in
      let start : Outcome go E = record {
        machine = u.machine;
        view = fresh_view go name;
        alerts = [];
      } in
      let names = fleet_names-Distinct go pings urls internet speed d e in
      let w =
        Moves-Pending go moves names at_i
          (start-Pending pings urls internet speed i name u at_i found) in
      let still : at_rest (some w.phase) ≡ true = ap at_rest (sym w.follows.stands_at) ∙ rest in
      let ends : w.now ≡ _ =
        sym (finish-at_rest name w.phase w.now still)
        ∙ w.finishes
        ∙ after_rounds-own go name start mine in
      (
        Sees-machine go w.follows.sees ∙ ap (λ o. some o.machine) ends,
        Sees-seen go w.follows.sees ∙ ap (λ o. recent_view go (some o.view)) ends,
        w.follows.alerts ∙ ap (λ o. o.alerts) ends,
      )
