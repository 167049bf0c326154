-- ===== src/Roles/Calls/Completes.antt =====
-- The next call of a goroutine (internal/roles) that is within a check.
use healthd.Common.{ℕ, ◌≡◌, ◌⊎◌, refl, ap, ap₂, ◌∙◌, true, Option, some, inl, inr, get_elem?}
use healthd.Platform.{Platform}
use healthd.Monitor.Registry.{Registry}
use healthd.Roles.Units.{MonitoredUnit}
use healthd.Roles.Calls.{
  Phase, waiting, returned, before_observe, before_update, before_record_check, before_record_speed,
  before_log_snapshot, before_dispatch, Effect, call, Monitors, calls, settled, settle, call_of,
  move,
}
use healthd.Roles.Calls.Isolation.{at_rest}

module _ (go : Platform) where
  ready :
      {E : Type 0} (u : MonitoredUnit go) (r : Option (Registry go)) (p : Phase go E)
      → (at_rest go (some p) ≡ true) ⊎ ((e : Effect go E) × (call go u r p ≡ some e))
  unfolding call
  ready u r waiting = inl refl
  ready u r returned = inl refl
  ready u r (before_observe c) = inr (_, refl)
  ready u r (before_update c ev) = inr (_, refl)
  ready u r (before_record_check c ev) = inr (_, refl)
  ready u r (before_record_speed c ev) = inr (_, refl)
  ready u r (before_log_snapshot c ev) = inr (_, refl)
  ready u r (before_dispatch c ev) = inr (_, refl)

  pub can_call :
      {E : Type 0} (t : Monitors go E) (i : ℕ) (u : MonitoredUnit go) (p : Phase go E)
      → get_elem? t.fleet.units i ≡ some u
      → get_elem? t.phases i ≡ some p
      → (at_rest go (some p) ≡ true) ⊎ ((s : Monitors go E) × (move go t (calls i) ≡ some s))
  unfolding move
  can_call t i u p at_u at_p = elim (ready u t.fleet.registry p) [
    | inl rest ↦ inl rest
    | inr (e, at_e) ↦
        inr (settled go t i u e, ap₂ (call_of go t i) at_u at_p ∙ ap (settle go t i u) at_e)
  ]
