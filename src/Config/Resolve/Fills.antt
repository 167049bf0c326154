-- ===== src/Config/Resolve/Fills.antt =====
-- What inheritFrom (internal/config/config.go) is to do with each field of a unit's parameters.
use text.Mathlib.Text.{◌==◌}
use healthd.Common.{
  String, ◌≡◌, ◌⊎◌, refl, Bool, true, false, not, ◌||◌, List, [], ◌∷◌, inl, inr, if◌then◌else◌,
}
use healthd.Common.Int.{pos, eqb_ℤ}
use healthd.Platform.{Platform}
use healthd.Config.{MonitorParams}
use healthd.Config.Resolve.{or_list, inherit_from}

-- The value `z` is the other one if the own one is unset, and else the own one.
abbrev pub From : {A : Type 0} → Bool → A → A → A → Type 0
From unset own other z = ((unset ≡ true) × (z ≡ other)) ⊎ ((unset ≡ false) × (z ≡ own))

abbrev pub is_unset : List String → Bool
is_unset [] = true
is_unset (n ∷ ns) = false

from_if :
    {A : Type 0} (unset : Bool) (own other : A)
    → From unset own other (if unset then other else own)
from_if true own other = inl (refl, refl)
from_if false own other = inr (refl, refl)

from_list : (own other : List String) → From (is_unset own) own other (or_list own other)
from_list [] other = inl (refl, refl)
from_list (n ∷ ns) other = inr (refl, refl)

from_bool : (own other : Bool) → From (not own) own other (own || other)
from_bool true other = inr (refl, refl)
from_bool false other = inl (refl, refl)

module _ (go : Platform) where
  open go use {of_int, eq_float}

  -- The parameters `z` are `own` with each unset field taken from `other`.
  pub record Fills (own other z : MonitorParams go) : Type 0 where
    pub interval_s :
        From (eqb_ℤ own.interval_s (pos 0)) own.interval_s other.interval_s z.interval_s
    pub timeout_ms :
        From (eqb_ℤ own.timeout_ms (pos 0)) own.timeout_ms other.timeout_ms z.timeout_ms
    pub failure_threshold :
        From
          (eqb_ℤ own.failure_threshold (pos 0))
          own.failure_threshold
          other.failure_threshold
          z.failure_threshold
    pub trigger : From (own.trigger == "") own.trigger other.trigger z.trigger
    pub window_size :
        From (eqb_ℤ own.window_size (pos 0)) own.window_size other.window_size z.window_size
    pub min_availability :
        From
          (eq_float own.min_availability (of_int (pos 0)))
          own.min_availability
          other.min_availability
          z.min_availability
    pub notify : From (is_unset own.notify) own.notify other.notify z.notify
    pub insecure_skip_verify :
        From
          (not own.insecure_skip_verify)
          own.insecure_skip_verify
          other.insecure_skip_verify
          z.insecure_skip_verify

  pub inherit_from-Fills :
      (own other : MonitorParams go) → Fills own other (inherit_from go own other)
  unfolding inherit_from
  inherit_from-Fills own other = record {
    interval_s = from_if (eqb_ℤ own.interval_s (pos 0)) own.interval_s other.interval_s;
    timeout_ms = from_if (eqb_ℤ own.timeout_ms (pos 0)) own.timeout_ms other.timeout_ms;
    failure_threshold =
        from_if (eqb_ℤ own.failure_threshold (pos 0)) own.failure_threshold other.failure_threshold;
    trigger = from_if (own.trigger == "") own.trigger other.trigger;
    window_size = from_if (eqb_ℤ own.window_size (pos 0)) own.window_size other.window_size;
    min_availability =
        from_if (eq_float own.min_availability (of_int (pos 0))) own.min_availability
          other.min_availability;
    notify = from_list own.notify other.notify;
    insecure_skip_verify = from_bool own.insecure_skip_verify other.insecure_skip_verify;
  }
