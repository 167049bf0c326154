-- ===== src/Roles/Units/Own.antt =====
-- What the checks of one unit leave in the registry among those of all the others (ping_monitor.go,
-- url_monitor.go, internet_check.go, speed_check.go, registry.go).
use text.Mathlib.Text.{◌==◌ as str_eq}
use text.Mathlib.TextPositions.{eq_refl}
use healthd.Common.{
  ℕ, zero, suc, String, ◌≡◌, refl, sym, ◌∙◌, Bool, false, List, [], ◌∷◌, ◌++◌, Option, none, some,
  get_elem?, set, ◌==◌, if◌then◌else◌,
}
use healthd.Platform.{Platform}
use healthd.Monitor.StateMachine.{StateMachine, observe}
use healthd.Monitor.Registry.{
  Registry, status_of, handle_update, handle_record_check, handle_record_speed,
}
use healthd.Monitor.Registry.Spec.{Op, set_op, check_op, speed_op, apply, run, View, view_of}
use healthd.Monitor.History.{SpeedSample}
use healthd.Roles.Check.{report}
use healthd.Roles.Units.{MonitoredUnit, Round}

module _ (go : Platform) where
  open go use {Float, Time}

  -- The units' handles carry the names, in order.
  abbrev pub Named : List (MonitoredUnit go) → List String → Type 0
  Named [] [] = Unit {0}
  Named (u ∷ us) (n ∷ ns) = (u.handle ≡ some (record { name = n })) × Named us ns
  Named _ _ = ⊥

  pub Named-get_elem? :
      (us : List (MonitoredUnit go)) (ns : List String) (j : ℕ) (u : MonitoredUnit go)
      → Named us ns
      → get_elem? us j ≡ some u
      → (n : String) × (get_elem? ns j ≡ some n) × (u.handle ≡ some (record { name = n }))
  Named-get_elem? [] ns j u h e = cc
  Named-get_elem? (v ∷ us) [] j u h e = absurd h
  Named-get_elem? (v ∷ us) (n ∷ ns) zero u h e = (n, refl, cc)
  Named-get_elem? (v ∷ us) (n ∷ ns) (suc j) u h e = Named-get_elem? us ns j u h.1 e

  pub Named-set :
      (us : List (MonitoredUnit go)) (ns : List String) (j : ℕ) (u : MonitoredUnit go)
      (m : StateMachine go)
      → Named us ns
      → get_elem? us j ≡ some u
      → Named (set us j (record u { machine = m })) ns
  Named-set [] ns j u m h e = cc
  Named-set (v ∷ us) [] j u m h e = absurd h
  Named-set (v ∷ us) (n ∷ ns) zero u m h e =
      let same : v.handle ≡ u.handle = cc in (sym same ∙ h.0, h.1)
  Named-set (v ∷ us) (n ∷ ns) (suc j) u m h e = (h.0, Named-set us ns j u m h.1 e)

  -- The rounds of one unit.
  unfoldable pub own : {E : Type 0} → ℕ → List (Round go E) → List (Round go E)
  own i [] = []
  own i (c ∷ cs) = let rest = own i cs in if c.unit == i then c ∷ rest else rest

  -- What these rounds observe, and when.
  abbrev pub observations : {E : Type 0} → List (Round go E) → List (Bool × Time)
  observations [] = []
  observations (c ∷ cs) = (c.success, c.at.observed) ∷ observations cs

  abbrev pub add_speed : Option Float → Time → List (SpeedSample go) → List (SpeedSample go)
  add_speed none t l = l
  add_speed (some x) t l = l ++ record { time = t; mbps = x } ∷ []

  -- A unit's view after a round that leaves its machine as `m`.
  abbrev pub view_round : {E : Type 0} → String → StateMachine go → Round go E → View go → View go
  view_round name m c v = record {
    status = status_of go (record { name = name }) m;
    checks = v.checks ++ record { time = c.at.recorded; success = c.success } ∷ [];
    speeds = add_speed c.speed c.at.recorded v.speeds;
  }

  -- A unit's view after rounds of its own.
  abbrev pub own_view :
      {E : Type 0} → String → StateMachine go → List (Round go E) → View go → View go
  own_view name m [] v = v
  own_view name m (c ∷ cs) v =
      let m' = (observe go m c.success c.at.observed).0 in
      own_view name m' cs (view_round name m' c v)

  -- The calls of the registry that one round makes.
  abbrev pub speed_ops : String → Option Float → Time → List (Op go)
  speed_ops name none t = []
  speed_ops name (some x) t = speed_op name t x ∷ []

  abbrev pub round_ops : {E : Type 0} → String → StateMachine go → Round go E → List (Op go)
  round_ops name m c =
      set_op (status_of go (record { name = name }) m)
      ∷ check_op name c.at.recorded c.success
      ∷ speed_ops name c.speed c.at.recorded

  pub report-run :
      {E : Type 0} (name : String) (c : Round go E) (m : StateMachine go) (r : Registry go)
      (speed : Option Float)
      → c.speed ≡ speed
      → (report go c.role
          (some (record { name = name }))
          c.detail
          c.success
          c.speed
          c.at
          (record { machine = m; registry = some r })).0
        ≡ record {
          machine = (observe go m c.success c.at.observed).0;
          registry = some (run go r (round_ops name (observe go m c.success c.at.observed).0 c));
        }
  unfolding report run apply handle_update handle_record_check handle_record_speed
  report-run name c m r none e = rw e refl
  report-run name c m r (some x) e = rw e refl

  pub view_of-round_own :
      {E : Type 0} (name : String) (c : Round go E) (m : StateMachine go) (v : View go)
      (speed : Option Float)
      → c.speed ≡ speed
      → view_of go name (some v) (round_ops name m c) ≡ some (view_round name m c v)
  view_of-round_own name c m v none e = rw (e, eq_refl name) refl
  view_of-round_own name c m v (some x) e = rw (e, eq_refl name) refl

  pub view_of-round_other :
      {E : Type 0} (name n : String) (c : Round go E) (m : StateMachine go) (v : Option (View go))
      (speed : Option Float)
      → c.speed ≡ speed
      → (str_eq n name) ≡ false
      → view_of go name v (round_ops n m c) ≡ v
  view_of-round_other name n c m v none e h = rw (e, h) refl
  view_of-round_other name n c m v (some x) e h = rw (e, h) refl
