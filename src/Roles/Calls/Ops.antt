-- ===== src/Roles/Calls/Ops.antt =====
-- What the calls of one unit's goroutine do to the unit's view in the registry (runCheck in
-- internal/roles, registry.go).
use text.Mathlib.Text.{◌==◌ as str_eq}
use text.Mathlib.TextPositions.{eq_refl}
use healthd.Common.{String, ◌≡◌, refl, List, [], ◌∷◌, ◌++◌, Option, none, some, false}
use healthd.Platform.{Platform}
use healthd.Monitor.StateMachine.{StateMachine}
use healthd.Monitor.Registry.{
  Registry, status_of, handle_update, handle_record_check, handle_record_speed,
}
use healthd.Monitor.Registry.Spec.{Op, set_op, check_op, apply, run, View, view_of}
use healthd.Roles.Check.{record_speed_on}
use healthd.Roles.Units.{MonitoredUnit, Round}
use healthd.Roles.Units.Own.{add_speed, speed_ops}
use healthd.Roles.Calls.{
  Phase, waiting, returned, before_observe, before_update, before_record_check, before_record_speed,
  before_log_snapshot, before_dispatch, Effect, call,
}

module _ (go : Platform) where
  open go use {Float, Time}

  abbrev pub check_in : {E : Type 0} → Round go E → View go → View go
  check_in c v = record v {
    checks = v.checks ++ record { time = c.at.recorded; success = c.success } ∷ [];
  }

  abbrev pub speed_in : {E : Type 0} → Round go E → View go → View go
  speed_in c v = record v { speeds = add_speed go c.speed c.at.recorded v.speeds }

  -- The calls of the registry that the next step of the goroutine makes.
  abbrev pub call_ops : {E : Type 0} → String → StateMachine go → Phase go E → List (Op go)
  call_ops name m (before_update c ev) = set_op (status_of go (record { name = name }) m) ∷ []
  call_ops name m (before_record_check c ev) = check_op name c.at.recorded c.success ∷ []
  call_ops name m (before_record_speed c ev) = speed_ops go name c.speed c.at.recorded
  call_ops name m _ = []

  -- The unit's view after that step.
  abbrev pub call_view : {E : Type 0} → String → StateMachine go → Phase go E → View go → View go
  call_view name m (before_update c ev) v = record v {
    status = status_of go (record { name = name }) m;
  }
  call_view name m (before_record_check c ev) v = check_in c v
  call_view name m (before_record_speed c ev) v = speed_in c v
  call_view name m _ v = v

  view_of-speed_ops :
      (name : String) (x : Option Float) (t : Time) (v : View go)
      → view_of go name (some v) (speed_ops go name x t)
        ≡ some (record v { speeds = add_speed go x t v.speeds })
  view_of-speed_ops name none t v = refl
  view_of-speed_ops name (some x) t v = rw (eq_refl name) refl

  pub view_of-call_ops :
      {E : Type 0} (name : String) (m : StateMachine go) (p : Phase go E) (v : View go)
      → view_of go name (some v) (call_ops name m p) ≡ some (call_view name m p v)
  view_of-call_ops name m waiting v = refl
  view_of-call_ops name m returned v = refl
  view_of-call_ops name m (before_observe c) v = refl
  view_of-call_ops name m (before_update c ev) v = rw (eq_refl name) refl
  view_of-call_ops name m (before_record_check c ev) v = rw (eq_refl name) refl
  view_of-call_ops name m (before_record_speed c ev) v =
      view_of-speed_ops name c.speed c.at.recorded v
  view_of-call_ops name m (before_log_snapshot c ev) v = refl
  view_of-call_ops name m (before_dispatch c ev) v = refl

  view_of-speed_ops_other :
      (name n : String) (x : Option Float) (t : Time) (v : View go)
      → str_eq n name ≡ false
      → view_of go name (some v) (speed_ops go n x t) ≡ some v
  view_of-speed_ops_other name n none t v h = refl
  view_of-speed_ops_other name n (some x) t v h = rw h refl

  pub view_of-call_ops_other :
      {E : Type 0} (name n : String) (m : StateMachine go) (p : Phase go E) (v : View go)
      → str_eq n name ≡ false
      → view_of go name (some v) (call_ops n m p) ≡ some v
  view_of-call_ops_other name n m waiting v h = refl
  view_of-call_ops_other name n m returned v h = refl
  view_of-call_ops_other name n m (before_observe c) v h = refl
  view_of-call_ops_other name n m (before_update c ev) v h = rw h refl
  view_of-call_ops_other name n m (before_record_check c ev) v h = rw h refl
  view_of-call_ops_other name n m (before_record_speed c ev) v h =
      view_of-speed_ops_other name n c.speed c.at.recorded v h
  view_of-call_ops_other name n m (before_log_snapshot c ev) v h = refl
  view_of-call_ops_other name n m (before_dispatch c ev) v h = refl

  -- A call makes the calls of the registry in `call_ops`.
  abbrev pub Runs : {E : Type 0} → Registry go → List (Op go) → Option (Effect go E) → Type 0
  Runs r os none = Unit {0}
  Runs r os (some e) = e.registry ≡ some (run go r os)

  record_speed_on-run :
      (n : String) (x : Option Float) (t : Time) (r : Registry go)
      → record_speed_on go x (some (record { name = n })) t (some r)
        ≡ some (run go r (speed_ops go n x t))
  unfolding run apply handle_record_speed
  record_speed_on-run n none t r = refl
  record_speed_on-run n (some x) t r = refl

  pub call-Runs :
      {E : Type 0} (n : String) (u : MonitoredUnit go) (r : Registry go) (p : Phase go E)
      → u.handle ≡ some (record { name = n })
      → Runs r (call_ops n u.machine p) (call go u (some r) p)
  unfolding call run apply handle_update handle_record_check
  call-Runs n u r waiting h = tt
  call-Runs n u r returned h = tt
  call-Runs n u r (before_observe c) h = refl
  call-Runs n u r (before_update c ev) h = rw h refl
  call-Runs n u r (before_record_check c ev) h = rw h refl
  call-Runs n u r (before_record_speed c ev) h =
      rw h (record_speed_on-run n c.speed c.at.recorded r)
  call-Runs n u r (before_log_snapshot c ev) h = refl
  call-Runs n u r (before_dispatch c ev) h = refl
