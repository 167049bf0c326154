-- ===== src/Monitor/Registry/Shows.antt =====
-- What the entries of the registry's two maps for one name (registry.go) say of the unit's view in
-- Registry/Spec.antt.
use healthd.Common.{String, ◌≡◌, refl, true, false, Option, none, some, is_present, arith}
use healthd.Common.Assoc.{lookup}
use healthd.Platform.{Platform}
use healthd.Monitor.History.{history_cap, UnitHistory, new_unit_history}
use healthd.Monitor.History.Refine.{Keeps, new_ring-Keeps, slice-recent}
use healthd.Monitor.Registry.{Registry, UnitStatus, fresh_status}
use healthd.Monitor.Registry.Spec.{View, view_or_fresh, on_view, read, recent_view}

module _ (go : Platform) where
  open go use {Float, Time}

  -- The entries of the two maps for one name stand for its view.
  abbrev pub Shows : Option (UnitStatus go) → Option (UnitHistory go) → Option (View go) → Type 0
  Shows none none none = Unit {0}
  Shows (some s) (some h) (some v) =
      (s ≡ v.status) × Keeps history_cap h.checks v.checks × Keeps history_cap h.speeds v.speeds
  Shows _ _ _ = ⊥

  abbrev pub Stands : String → Registry go → Option (View go) → Type 0
  Stands name r v = Shows (lookup name r.units) (lookup name r.history) v

  pub register-Shows :
      (name : String) (s : Option (UnitStatus go)) (h : Option (UnitHistory go))
      (v : Option (View go))
      → Shows s h v
      → is_present s ≡ false
      → Shows (some (fresh_status go name)) (some (new_unit_history go)) (view_or_fresh go name v)
  unfolding new_unit_history
  register-Shows name none none none w p =
      (refl, new_ring-Keeps _ history_cap (omega arith), new_ring-Keeps _ history_cap (omega arith))
  register-Shows name none none (some v) w p = absurd w
  register-Shows name none (some h) v w p = absurd w
  register-Shows name (some s) h v w p = cc

  pub view_or_fresh_old :
      (name : String) (s : Option (UnitStatus go)) (h : Option (UnitHistory go))
      (v : Option (View go))
      → Shows s h v
      → is_present s ≡ true
      → view_or_fresh go name v ≡ v
  view_or_fresh_old name none h v w p = cc
  view_or_fresh_old name (some s) h (some v) w p = refl
  view_or_fresh_old name (some s) none none w p = absurd w
  view_or_fresh_old name (some s) (some h) none w p = absurd w

  pub set-Shows :
      (s : UnitStatus go) (u : Option (UnitStatus go)) (h : Option (UnitHistory go))
      (v : Option (View go))
      → Shows u h v
      → is_present u ≡ true
      → Shows (some s) h (on_view go (λ w. record w { status = s }) v)
  set-Shows s none h v w p = cc
  set-Shows s (some u) (some h) (some v) w p = (refl, w.1, w.2)
  set-Shows s (some u) none v w p = absurd w
  set-Shows s (some u) (some h) none w p = absurd w

  pub set-Shows_absent :
      (s : UnitStatus go) (u : Option (UnitStatus go)) (h : Option (UnitHistory go))
      (v : Option (View go))
      → Shows u h v
      → is_present u ≡ false
      → Shows u h (on_view go (λ w. record w { status = s }) v)
  set-Shows_absent s none none none w p = w
  set-Shows_absent s none none (some v) w p = absurd w
  set-Shows_absent s none (some h) v w p = absurd w
  set-Shows_absent s (some u) h v w p = cc

  pub Shows-read :
      (s : Option (UnitStatus go)) (h : Option (UnitHistory go)) (v : Option (View go))
      → Shows s h v
      → read go s h ≡ recent_view go v
  Shows-read none none none w = refl
  Shows-read none none (some v) w = absurd w
  Shows-read none (some h) v w = absurd w
  Shows-read (some s) none v w = absurd w
  Shows-read (some s) (some h) none w = absurd w
  Shows-read (some s) (some h) (some v) w = rw (w.0, slice-recent w.1, slice-recent w.2)
