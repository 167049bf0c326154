-- ===== src/Monitor/Registry.antt =====
-- internal/monitor/registry.go, the part that keeps the units: registration, updates and snapshots.
-- A `*Registry` is an `Option Registry`, `none` for nil, and a method on it returns the new one. The
-- mutex makes each method one step, so a run of the program is a sequence of these operations. A
-- `*Handle` is an `Option Handle`; the registry that a handle points to is the one that it is used
-- with. Registry/Summary.antt has the summaries.
pub mod Summary
pub mod Invariant
pub mod Spec
pub mod Shows
pub mod Reachable
pub mod Refine
use healthd.Common.{
  ℕ, String, Bool, true, false, List, [], ◌∷◌, ◌++◌, Option, none, some, is_present, length,
  if◌then◌else◌,
}
use healthd.Common.Int.{ℤ, pos}
use healthd.Common.Assoc.{lookup, insert}
use healthd.Platform.{Platform}
use healthd.Monitor.StateMachine.{
  State, healthy, StateMachine, has_window as machine_has_window,
  availability as machine_availability,
}
use healthd.Monitor.History.{Ring, UnitHistory, new_unit_history, add as add_sample}

pub record Handle : Type 0 where
  pub name : String

module _ (go : Platform) where
  open go use {Float, of_int, Time, zero_time}

  pub record UnitStatus : Type 0 where
    pub name : String
    pub state : State
    pub has_window : Bool
    pub availability : Float
    pub consecutive : ℤ
    pub last_success : Time

  pub record Registry : Type 0 where
    pub order : List String
    pub units : List (String × UnitStatus)
    pub history : List (String × UnitHistory go)

  unfoldable pub new_registry : Registry
  new_registry = record { order = []; units = []; history = [] }

  -- `UnitStatus{Name: name, State: Healthy}`
  abbrev pub fresh_status : String → UnitStatus
  fresh_status n = record {
    name = n;
    state = healthy;
    has_window = false;
    availability = of_int (pos 0);
    consecutive = pos 0;
    last_success = zero_time;
  }

  abbrev pub register_in : Registry → String → Registry
  register_in r n = if is_present (lookup n r.units) then r else record {
    order = r.order ++ n ∷ [];
    units = insert n (fresh_status n) r.units;
    history = insert n (new_unit_history go) r.history;
  }

  unfoldable pub register : Option Registry → String → Option Registry × Option Handle
  unfolding lookup insert
  register none n = (none, none)
  register (some r) n = (some (register_in r n), some (record { name = n }))

  unfoldable pub registry_len : Option Registry → ℕ
  registry_len none = 0
  registry_len (some r) = length r.order

  -- `if h, ok := r.history[name]; ok { ... }`
  abbrev pub update_history :
      (UnitHistory go → UnitHistory go) → String → Option (UnitHistory go) → Registry → Registry
  update_history f n none r = r
  update_history f n (some h) r = record r { history = insert n (f h) r.history }

  unfoldable pub record_check : Registry → String → Time → Bool → Registry
  unfolding lookup insert
  record_check r n t success =
      update_history
        (λ h. record h { checks = add_sample h.checks (record { time = t; success = success }) }) n
        (lookup n r.history) r

  unfoldable pub record_speed : Registry → String → Time → Float → Registry
  unfolding lookup insert
  record_speed r n t mbps =
      update_history
        (λ h. record h { speeds = add_sample h.speeds (record { time = t; mbps = mbps }) }) n
        (lookup n r.history) r

  unfoldable pub set : Registry → UnitStatus → Registry
  unfolding lookup insert
  set r status =
      if is_present (lookup status.name r.units)
      then record r { units = insert status.name status r.units }
      else r

  -- `r.units[name]`, with the zero value for a name that is missing.
  abbrev pub status_or_zero : Option UnitStatus → UnitStatus
  status_or_zero none = fresh_status ""
  status_or_zero (some s) = s

  abbrev pub statuses : List String → List (String × UnitStatus) → List UnitStatus
  statuses [] units = []
  statuses (n ∷ ns) units = status_or_zero (lookup n units) ∷ statuses ns units

  unfoldable pub snapshot : Option Registry → List UnitStatus
  snapshot none = []
  snapshot (some r) = statuses r.order r.units

  -- `Handle.Update`: the status that the handle's unit gets from its state machine.
  abbrev pub status_of : Handle → StateMachine go → UnitStatus
  status_of h sm = record {
    name = h.name;
    state = sm.state;
    has_window = machine_has_window go sm;
    availability = machine_availability go sm;
    consecutive = sm.consecutive;
    last_success = sm.last_success;
  }

  -- A method of a nil handle, or of a handle on a nil registry, does nothing.
  abbrev pub through :
      Option Handle → (Handle → Registry → Registry) → Option Registry → Option Registry
  through none f r = r
  through (some h) f none = none
  through (some h) f (some r) = some (f h r)

  unfoldable pub handle_update : Option Handle → StateMachine go → Option Registry → Option Registry
  unfolding set
  handle_update h sm r = through h (λ h r. set r (status_of h sm)) r

  unfoldable pub handle_record_check :
      Option Handle → Time → Bool → Option Registry → Option Registry
  unfolding record_check
  handle_record_check h t success r = through h (λ h r. record_check r h.name t success) r

  unfoldable pub handle_record_speed :
      Option Handle → Time → Float → Option Registry → Option Registry
  unfolding record_speed
  handle_record_speed h t mbps r = through h (λ h r. record_speed r h.name t mbps) r
