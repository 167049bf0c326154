-- ===== src/Monitor/Registry/Spec.antt =====
-- The calls of the registry (registry.go) as a sequence, and their specification: for each unit the
-- last status that was set and the logs of all samples, of which the last `history_cap` are kept.
use healthd.Common.{String, Bool, List, [], ◌∷◌, ◌++◌, Option, none, some, recent, if◌then◌else◌}
use text.Mathlib.Text.{◌==◌}
use healthd.Platform.{Platform}
use healthd.Monitor.History.{history_cap, CheckSample, SpeedSample, UnitHistory, slice}
use healthd.Monitor.Registry.{
  Registry, UnitStatus, fresh_status, register_in, record_check, record_speed, set,
}

module _ (go : Platform) where
  open go use {Float, Time}

  -- One call of a method of the registry; the mutex puts the calls in a sequence.
  pub data Op : Type 0 where
    register_op : String → Op
    set_op : UnitStatus go → Op
    check_op : String → Time → Bool → Op
    speed_op : String → Time → Float → Op

  unfoldable pub apply : Registry go → Op → Registry go
  unfolding set record_check record_speed
  apply r (register_op n) = register_in go r n
  apply r (set_op s) = set go r s
  apply r (check_op n t b) = record_check go r n t b
  apply r (speed_op n t x) = record_speed go r n t x

  unfoldable pub run : Registry go → List Op → Registry go
  run r [] = r
  run r (o ∷ os) = run (apply r o) os

  -- What the specification keeps of one unit.
  pub record View : Type 0 where
    pub status : UnitStatus go
    pub checks : List (CheckSample go)
    pub speeds : List (SpeedSample go)

  abbrev pub fresh_view : String → View
  fresh_view n = record { status = fresh_status go n; checks = []; speeds = [] }

  abbrev pub view_or_fresh : String → Option View → Option View
  view_or_fresh n none = some (fresh_view n)
  view_or_fresh n (some v) = some v

  abbrev pub on_view : (View → View) → Option View → Option View
  on_view f none = none
  on_view f (some v) = some (f v)

  -- The unit `name` sees the calls that name it, once it is registered.
  abbrev pub view_step : String → Op → Option View → Option View
  view_step name (register_op n) v = if n == name then view_or_fresh name v else v
  view_step name (set_op s) v =
      if s.name == name then on_view (λ w. record w { status = s }) v else v
  view_step name (check_op n t b) v =
      if n == name
      then on_view (λ w. record w { checks = w.checks ++ record { time = t; success = b } ∷ [] }) v
      else v
  view_step name (speed_op n t x) v =
      if n == name
      then on_view (λ w. record w { speeds = w.speeds ++ record { time = t; mbps = x } ∷ [] }) v
      else v

  abbrev pub view_of : String → Option View → List Op → Option View
  view_of name v [] = v
  view_of name v (o ∷ os) = view_of name (view_step name o v) os

  -- What a reader sees of one unit: its status and the samples kept, oldest first.
  abbrev pub read :
      Option (UnitStatus go)
      → Option (UnitHistory go)
      → Option (UnitStatus go × List (CheckSample go) × List (SpeedSample go))
  read (some s) (some h) = some (s, slice h.checks, slice h.speeds)
  read _ _ = none

  abbrev pub recent_view :
      Option View → Option (UnitStatus go × List (CheckSample go) × List (SpeedSample go))
  recent_view none = none
  recent_view (some v) = some (v.status, recent history_cap v.checks, recent history_cap v.speeds)
