-- ===== src/Config/Resolve/Inherit.antt =====
-- The algebra of inheritFrom (internal/config/config.go).
use text.Mathlib.Text.{◌==◌}
use healthd.Common.{String, ◌≡◌, refl, Bool, ◌||◌, List, [], ◌∷◌, arith, inl, inr, Bool-cases}
use healthd.Common.Int.{ℤ, pos, eqb_ℤ}
use healthd.Platform.{Platform}
use healthd.Config.{MonitorParams}
use healthd.Config.Resolve.{or_int, or_string, or_list, or_float, inherit_from}

or_int_assoc : (x y z : ℤ) → or_int (or_int x y) z ≡ or_int x (or_int y z)
or_int_assoc x y z = elim (Bool-cases (eqb_ℤ x (pos 0))) [
  | inl e ↦ rw e refl
  | inr e ↦ rw (e, e) refl
]

or_int_idem : (x : ℤ) → or_int x x ≡ x
or_int_idem x = elim (Bool-cases (eqb_ℤ x (pos 0))) [ inl e ↦ rw e refl | inr e ↦ rw e refl ]

or_string_assoc : (x y z : String) → or_string (or_string x y) z ≡ or_string x (or_string y z)
or_string_assoc x y z = elim (Bool-cases (x == "")) [ inl e ↦ rw e refl | inr e ↦ rw (e, e) refl ]

or_string_idem : (x : String) → or_string x x ≡ x
or_string_idem x = elim (Bool-cases (x == "")) [ inl e ↦ rw e refl | inr e ↦ rw e refl ]

or_list_assoc : (x y z : List String) → or_list (or_list x y) z ≡ or_list x (or_list y z)
or_list_assoc [] y z = refl
or_list_assoc (n ∷ x) y z = refl

or_list_idem : (x : List String) → or_list x x ≡ x
or_list_idem [] = refl
or_list_idem (n ∷ x) = refl

or_assoc : (x y z : Bool) → ((x || y) || z) ≡ (x || (y || z))
or_assoc x y z = ground arith

or_idem : (x : Bool) → (x || x) ≡ x
or_idem x = ground arith

module _ (go : Platform) where
  open go use {Float, of_int, eq_float}

  or_float_assoc :
      (x y z : Float) → or_float go (or_float go x y) z ≡ or_float go x (or_float go y z)
  or_float_assoc x y z = elim (Bool-cases (eq_float x (of_int (pos 0)))) [
    | inl e ↦ rw e refl
    | inr e ↦ rw (e, e) refl
  ]

  or_float_idem : (x : Float) → or_float go x x ≡ x
  or_float_idem x = elim (Bool-cases (eq_float x (of_int (pos 0)))) [
    | inl e ↦ rw e refl
    | inr e ↦ rw e refl
  ]

  -- Inheritance is associative and idempotent: inheriting from q and then from r is inheriting from
  -- what q inherits from r, and inheriting from oneself changes nothing.
  pub inherit_from_assoc :
      (p q r : MonitorParams go)
      → (inherit_from go (inherit_from go p q) r ≡ inherit_from go p (inherit_from go q r))
        × (inherit_from go p p ≡ p)
  unfolding inherit_from
  inherit_from_assoc p q r = (
    λ i. record {
      interval_s = or_int_assoc p.interval_s q.interval_s r.interval_s i;
      timeout_ms = or_int_assoc p.timeout_ms q.timeout_ms r.timeout_ms i;
      failure_threshold =
          or_int_assoc p.failure_threshold q.failure_threshold r.failure_threshold i;
      trigger = or_string_assoc p.trigger q.trigger r.trigger i;
      window_size = or_int_assoc p.window_size q.window_size r.window_size i;
      min_availability = or_float_assoc p.min_availability q.min_availability r.min_availability i;
      notify = or_list_assoc p.notify q.notify r.notify i;
      insecure_skip_verify =
          or_assoc p.insecure_skip_verify q.insecure_skip_verify r.insecure_skip_verify i;
    },
    λ i. record {
      interval_s = or_int_idem p.interval_s i;
      timeout_ms = or_int_idem p.timeout_ms i;
      failure_threshold = or_int_idem p.failure_threshold i;
      trigger = or_string_idem p.trigger i;
      window_size = or_int_idem p.window_size i;
      min_availability = or_float_idem p.min_availability i;
      notify = or_list_idem p.notify i;
      insecure_skip_verify = or_idem p.insecure_skip_verify i;
    },
  )
