-- ===== src/Roles/Units/Isolation.antt =====
-- A run of the checks of all units, seen by one of them (ping_monitor.go, url_monitor.go,
-- internet_check.go, speed_check.go, registry.go).
use healthd.Common.{ℕ, String, ◌≡◌, refl, subst, ap, ◌∙◌, List, Option, none, some, get_elem?}
use healthd.Common.Int.{ℤ}
use healthd.Common.Assoc.{lookup, contains-get_elem?, Distinct}
use healthd.Platform.{Platform}
use healthd.Monitor.StateMachine.{StateMachine, observe, observe_all}
use healthd.Monitor.StateMachine as Machine
use healthd.Monitor.History.{CheckSample, SpeedSample}
use mathlib.Core.Option
use healthd.Monitor.Registry.{Registry, UnitStatus, new_registry}
use healthd.Monitor.Registry.Spec.{run, View, fresh_view, read, recent_view}
use healthd.Monitor.Registry.Shows.{Stands, Shows-read}
use healthd.Monitor.Registry.Refine.{run-Stands}
use healthd.Roles.Units.Enrolled.{registers, fleet_names, new_fleet-Enrolled, view_of-registers}
use healthd.Roles.Units.{RoleTarget, new_fleet, MonitoredUnit, Fleet, Round, fleet_run}
use healthd.Roles.Units.Sees.{Sees, run-Sees, new_registry-Stands}
use healthd.Roles.Units.Own.{own, observations, own_view}

module _ (go : Platform) where
  -- What a reader of the registry sees of one name.
  abbrev pub seen :
      String
      → Option (Registry go)
      → Option (UnitStatus go × List (CheckSample go) × List (SpeedSample go))
  seen name none = none
  seen name (some r) = read go (lookup name r.units) (lookup name r.history)

  pub Sees-seen :
      {names : List String} {i : ℕ} {name : String} {f : Fleet go} {m : StateMachine go}
      {v : View go}
      → Sees go names i name f m v
      → seen name f.registry ≡ recent_view go (some v)
  Sees-seen {name = name} {v = v} s =
      ap (seen name) s.has
      ∙ Shows-read go (lookup name s.registry.units) (lookup name s.registry.history) (some v)
          s.stands

  pub Sees-machine :
      {names : List String} {i : ℕ} {name : String} {f : Fleet go} {m : StateMachine go}
      {v : View go}
      → Sees go names i name f m v
      → Option.map (λ u. u.machine) (get_elem? f.units i) ≡ some m
  Sees-machine s = ap (Option.map (λ u. u.machine)) s.found ∙ ap some s.machine

  -- A new fleet, seen by one of its units.
  pub new_fleet-Sees :
      (pings urls : List (RoleTarget go))
      (internet : Option (ℤ × ℤ × Machine.Config go × List String))
      (speed : Option (ℤ × Machine.Config go × List String)) (i : ℕ) (name : String)
      (u : MonitoredUnit go)
      → get_elem? (fleet_names go pings urls internet speed) i ≡ some name
      → get_elem? (new_fleet go pings urls internet speed).units i ≡ some u
      → Sees go
          (fleet_names go pings urls internet speed)
          i
          name
          (new_fleet go pings urls internet speed)
          u.machine
          (fresh_view go name)
  new_fleet-Sees pings urls internet speed i name u at_i found =
      let names = fleet_names go pings urls internet speed in
      let start = new_fleet-Enrolled go pings urls internet speed in
      record {
        named = start.named;
        unit = u;
        found = found;
        machine = refl;
        registry = run go (new_registry go) (registers go names);
        has = start.has;
        stands =
            subst (Stands go name (run go (new_registry go) (registers go names)))
              (view_of-registers go name names (contains-get_elem? names i name at_i))
              (run-Stands go name (registers go names) (new_registry go) none
                (new_registry-Stands go name));
      }

  -- The units of a daemon with distinct names do not disturb one another. In whatever order the checks
  -- of all units take place, the machine of each unit is the one that its own checks alone lead to, and
  -- the registry shows of the unit the status of that machine, or the fresh one before its first check,
  -- and the last 100 of its own check and speed samples.
  pub fleet_run-own :
      {E : Type 0} (pings urls : List (RoleTarget go))
      (internet : Option (ℤ × ℤ × Machine.Config go × List String))
      (speed : Option (ℤ × Machine.Config go × List String)) (i : ℕ) (name : String)
      (u : MonitoredUnit go) (cs : List (Round go E))
      → Distinct (fleet_names go pings urls internet speed)
      → get_elem? (fleet_names go pings urls internet speed) i ≡ some name
      → get_elem? (new_fleet go pings urls internet speed).units i ≡ some u
      → let f = fleet_run go (new_fleet go pings urls internet speed) cs in
        let mine = own go i cs in
        (Option.map (λ u. u.machine) (get_elem? f.units i)
          ≡ some (observe_all go u.machine (observations go mine)).0)
        × (seen name f.registry
            ≡ recent_view go (some (own_view go name u.machine mine (fresh_view go name))))
  fleet_run-own pings urls internet speed i name u cs d at_i found =
      let after =
        run-Sees go cs d at_i (new_fleet-Sees pings urls internet speed i name u at_i found) in
      (Sees-machine after, Sees-seen after)
