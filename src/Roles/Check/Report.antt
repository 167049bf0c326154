-- ===== src/Roles/Check/Report.antt =====
-- What the common end of the four checks (internal/roles/ping_monitor.go, url_monitor.go,
-- internet_check.go and speed_check.go) leaves in the registry and sends to the channels.
use healthd.Common.{
  ◌≡◌, refl, ap, ◌∙◌, Bool, true, false, not, String, Option, none, some, is_present, if◌then◌else◌,
}
use text.Mathlib.Text.{◌==◌}
use healthd.Common.Int.{ℤ}
use healthd.Common.Assoc.{lookup, lookup-insert}
use healthd.Platform.{Platform}
use healthd.Monitor.StateMachine.{
  Event, no_event, alert_unhealthy, recovery_healthy, State, healthy, unhealthy, state_string,
  StateMachine, observe,
}
use healthd.Monitor.StateMachine.Events.{hear, observe-hear}
use healthd.Monitor.Registry.{
  Registry, UnitStatus, Handle, status_of, set, update_history, record_check, record_speed,
  handle_update, handle_record_check, handle_record_speed,
}
use healthd.Roles.Check.{Detail, Alert, dispatch_event, Instants, World, report}

abbrev pub same_state : State → State → Bool
same_state healthy healthy = true
same_state unhealthy unhealthy = true
same_state healthy unhealthy = false
same_state unhealthy healthy = false

module _ (go : Platform) where
  open go use {Float, Time}

  -- The wire state that a channel knows which knew `known` before.
  abbrev pub known_after : {E : Type 0} → Option (Alert go E) → String → String
  known_after none known = known
  known_after (some a) known = a.state

  dispatch_event-hear :
      {E : Type 0} (role : String) (detail : Detail E Float) (n : ℤ) (now : Time) (s : State)
      (ev : Event) (s' : State)
      → hear s ev ≡ some s'
      → let alert = dispatch_event go role detail ev n now in
        (known_after alert (state_string s) ≡ state_string s')
        × (is_present alert ≡ not (same_state s s'))
  unfolding dispatch_event state_string
  dispatch_event-hear role detail n now healthy no_event healthy h = (refl, refl)
  dispatch_event-hear role detail n now healthy no_event unhealthy h = cc
  dispatch_event-hear role detail n now healthy alert_unhealthy healthy h = cc
  dispatch_event-hear role detail n now healthy alert_unhealthy unhealthy h = (refl, refl)
  dispatch_event-hear role detail n now healthy recovery_healthy s h = cc
  dispatch_event-hear role detail n now unhealthy no_event healthy h = cc
  dispatch_event-hear role detail n now unhealthy no_event unhealthy h = (refl, refl)
  dispatch_event-hear role detail n now unhealthy alert_unhealthy s h = cc
  dispatch_event-hear role detail n now unhealthy recovery_healthy healthy h = (refl, refl)
  dispatch_event-hear role detail n now unhealthy recovery_healthy unhealthy h = cc

  -- A check sends an alert if and only if it changes the state of the unit's machine, and the alert
  -- names the state after the check.
  pub report-alert :
      {E : Type 0} (role : String) (h : Option Handle) (detail : Detail E Float) (success : Bool)
      (speed : Option Float) (at : Instants go) (w : World go)
      → let (w', out) = report go role h detail success speed at w in
        (known_after out.alert (state_string w.machine.state) ≡ state_string w'.machine.state)
        × (is_present out.alert ≡ not (same_state w.machine.state w'.machine.state))
  unfolding report
  report-alert role h detail success speed at w =
      let (m, ev) = observe go w.machine success at.observed in
      dispatch_event-hear role detail m.consecutive at.dispatched w.machine.state ev m.state
        (observe-hear go w.machine success at.observed)

  update_history-units :
      (f : _) (n : String) (e : Option _) (r : Registry go)
      → (update_history go f n e r).units ≡ r.units
  update_history-units f n none r = refl
  update_history-units f n (some x) r = refl

  record_check-units :
      (r : Registry go) (n : String) (t : Time) (b : Bool)
      → (record_check go r n t b).units ≡ r.units
  unfolding record_check
  record_check-units r n t b = update_history-units _ n (lookup n r.history) r

  record_speed-units :
      (r : Registry go) (n : String) (t : Time) (x : Float)
      → (record_speed go r n t x).units ≡ r.units
  unfolding record_speed
  record_speed-units r n t x = update_history-units _ n (lookup n r.history) r

  lookup-set :
      (r : Registry go) (s : UnitStatus go) (name : String)
      → is_present (lookup s.name r.units) ≡ true
      → lookup name (set go r s).units ≡ (if s.name == name then some s else lookup name r.units)
  unfolding set
  lookup-set r s name p = rw p (lookup-insert s.name name s r.units)

  -- After a check through a handle of a registered unit, the registry has for that unit the status of
  -- the unit's machine after the check, and for every other name what it had before.
  pub report-status :
      {E : Type 0} (role : String) (h : Handle) (detail : Detail E Float) (success : Bool)
      (speed : Option Float) (at : Instants go) (m : StateMachine go) (r : Registry go)
      → is_present (lookup h.name r.units) ≡ true
      → (name : String)
      → let (w', out) =
          report go role
            (some h)
            detail
            success
            speed
            at
            (record { machine = m; registry = some r }) in
        (r' : Registry go) × (w'.registry ≡ some r')
        × (lookup name r'.units
            ≡ (if h.name == name then some (status_of go h w'.machine) else lookup name r.units))
  unfolding report handle_update handle_record_check handle_record_speed
  report-status role h detail success none at m r p name =
      let s = status_of go h (observe go m success at.observed).0 in
      let r' = set go r s in
      (
        record_check go r' h.name at.recorded success,
        refl,
        ap (lookup name) (record_check-units r' h.name at.recorded success) ∙ lookup-set r s name p,
      )
  report-status role h detail success (some x) at m r p name =
      let s = status_of go h (observe go m success at.observed).0 in
      let r' = set go r s in
      let r'' = record_check go r' h.name at.recorded success in
      (
        record_speed go r'' h.name at.recorded x,
        refl,
        ap (lookup name) (
              record_speed-units r'' h.name at.recorded x
              ∙ record_check-units r' h.name at.recorded success)
            ∙ lookup-set r s name p,
      )
