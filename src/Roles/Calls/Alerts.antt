-- ===== src/Roles/Calls/Alerts.antt =====
-- The alerts that a unit dispatches among the calls of all units (runCheck and dispatchEvent of
-- internal/roles), to one who knows of the unit by them alone.
use text.Mathlib.Text.{◌==◌}
use healthd.Common.{
  ℕ, String, ◌≡◌, refl, sym, ap, ◌∙◌, true, List, [], ◌∷◌, ◌++◌, Option, none, some, get_elem?,
  if◌then◌else◌,
}
use healthd.Common.Int.{ℤ}
use healthd.Common.Assoc.{Distinct}
use healthd.Platform.{Platform}
use healthd.Monitor.StateMachine as Machine
use healthd.Monitor.StateMachine.{
  Event, no_event, alert_unhealthy, recovery_healthy, State, healthy, unhealthy, state_string,
  StateMachine, observe, observe_all,
}
use healthd.Monitor.StateMachine.Events.{hear, observe-hear}
use mathlib.Core.Option
use healthd.Roles.Check.{Detail, Alert, dispatch_event}
use healthd.Roles.Units.{RoleTarget, MonitoredUnit, Round, new_fleet}
use healthd.Roles.Units.Enrolled.{fleet_names}
use healthd.Roles.Units.Names.{addresses}
use healthd.Roles.Units.Own.{own, observations}
use healthd.Roles.Calls.{Monitors, start_monitors, Move, Moves}
use healthd.Roles.Calls.Outcome.{alerts_with, own_alerts}
use healthd.Roles.Calls.Sent.{alerts_from, begun}
use healthd.Roles.Calls.Isolation.{at_rest, calls-own}

module _ (go : Platform) where
  open go use {Float, Time}

  -- The wire state that a listener knows after some alerts; `none` once an alert repeats the state that
  -- he knows.
  abbrev pub hear_alert : {E : Type 0} → Option String → Alert go E → Option String
  hear_alert none a = none
  hear_alert (some known) a = if a.state == known then none else some a.state

  abbrev pub hear_alerts : {E : Type 0} → Option String → List (Alert go E) → Option String
  hear_alerts known [] = known
  hear_alerts known (a ∷ later) = hear_alerts (hear_alert known a) later

  hear_alerts-event :
      {E : Type 0} (role : String) (detail : Detail E Float) (n : ℤ) (now : Time) (s : State)
      (ev : Event) (s' : State) (later : List (Alert go E))
      → hear s ev ≡ some s'
      → hear_alerts
          (some (state_string s))
          (alerts_with go (dispatch_event go role detail ev n now) [] ++ later)
        ≡ hear_alerts (some (state_string s')) later
  unfolding dispatch_event state_string
  hear_alerts-event role detail n now healthy no_event healthy later h = refl
  hear_alerts-event role detail n now healthy no_event unhealthy later h = cc
  hear_alerts-event role detail n now healthy alert_unhealthy healthy later h = cc
  hear_alerts-event role detail n now healthy alert_unhealthy unhealthy later h = refl
  hear_alerts-event role detail n now healthy recovery_healthy s later h = cc
  hear_alerts-event role detail n now unhealthy no_event healthy later h = cc
  hear_alerts-event role detail n now unhealthy no_event unhealthy later h = refl
  hear_alerts-event role detail n now unhealthy alert_unhealthy s later h = cc
  hear_alerts-event role detail n now unhealthy recovery_healthy healthy later h = refl
  hear_alerts-event role detail n now unhealthy recovery_healthy unhealthy later h = cc

  hear_alerts-own :
      {E : Type 0} (m : StateMachine go) (cs : List (Round go E))
      → hear_alerts (some (state_string m.state)) (own_alerts go m cs)
        ≡ some (state_string (observe_all go m (observations go cs)).0.state)
  unfolding observe_all
  hear_alerts-own m [] = refl
  hear_alerts-own m (c ∷ cs) =
      let (m', ev) = observe go m c.success c.at.observed in
      hear_alerts-event c.role c.detail m'.consecutive c.at.dispatched m.state ev m'.state
        (own_alerts go m' cs) (observe-hear go m c.success c.at.observed)
      ∙ hear_alerts-own m' cs

  mapped :
      (o : Option (MonitoredUnit go)) (m : StateMachine go)
      → Option.map (λ u. u.machine) o ≡ some m
      → (u : MonitoredUnit go) × (o ≡ some u) × (u.machine ≡ m)
  mapped none m h = cc
  mapped (some u) m h = (u, refl, cc)

  -- After any interleaving of the calls that the checks of a daemon's units make, of which no two ping
  -- targets have one address and no two URL targets one URL, one who knows the state in which a unit's
  -- machine was built and hears the alerts that the unit's goroutine dispatched, if that goroutine is
  -- then in no check, knows the state of the unit's machine, and no alert told him the state that he
  -- knew already.
  pub calls-heard :
      {E : Type 0} (pings urls : List (RoleTarget go))
      (internet : Option (ℤ × ℤ × Machine.Config go × List String))
      (speed : Option (ℤ × Machine.Config go × List String)) (i : ℕ) (name : String)
      (u : MonitoredUnit go) {t : Monitors go E} (mvs : List (Move go E))
      → Distinct (addresses go pings)
      → Distinct (addresses go urls)
      → get_elem? (fleet_names go pings urls internet speed) i ≡ some name
      → get_elem? (new_fleet go pings urls internet speed).units i ≡ some u
      → Moves go E (start_monitors go (new_fleet go pings urls internet speed)) mvs t
      → at_rest go (get_elem? t.phases i) ≡ true
      → (v : MonitoredUnit go) × (get_elem? t.fleet.units i ≡ some v)
        × (hear_alerts (some (state_string u.machine.state)) (alerts_from go i t.sent)
            ≡ some (state_string v.machine.state))
  calls-heard pings urls internet speed i name u {t} mvs d e at_i found moves rest =
      let mine = own go i (begun go mvs) in
      let (machine, _, sent) =
        calls-own go pings urls internet speed i name u mvs d e at_i found moves rest in
      let (v, at_v, same) = mapped (get_elem? t.fleet.units i) _ machine in
      (
        v,
        at_v,
        ap (hear_alerts (some (state_string u.machine.state))) sent
            ∙ hear_alerts-own u.machine mine
            ∙ ap (λ m. some (state_string m.state)) (sym same),
      )
