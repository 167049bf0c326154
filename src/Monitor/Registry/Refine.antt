-- ===== src/Monitor/Registry/Refine.antt =====
-- The registry (registry.go) against Registry/Spec.antt.
use healthd.Common.{
  String, ◌≡◌, refl, sym, subst, ap, ◌∙◌, List, [], ◌∷◌, ◌++◌, Option, none, some, inl, inr,
  Bool-cases, Option-cases, is_present, eq_iff, if◌then◌else◌,
}
use text.Mathlib.Text.{◌==◌}
use healthd.Common.Assoc.{lookup, lookup-insert}
use healthd.Platform.{Platform}
use healthd.Monitor.History.{UnitHistory, new_unit_history, add}
use healthd.Monitor.History.Refine.{add-Keeps}
use healthd.Monitor.Registry.{
  Registry, UnitStatus, fresh_status, new_registry, register_in, set, update_history,
}
use healthd.Monitor.Registry.Spec.{
  Op, register_op, set_op, check_op, speed_op, apply, run, View, on_view, view_step, view_of, read,
  recent_view,
}
use healthd.Monitor.Registry.Shows.{
  Shows, Stands, register-Shows, view_or_fresh_old, set-Shows, set-Shows_absent, Shows-read,
}

module _ (go : Platform) where
  open go use {Float, Time}

  register-Stands :
      (name n : String) (r : Registry go) (v : Option (View go))
      → Stands go name r v
      → Stands go name (register_in go r n) (view_step go name (register_op n) v)
  register-Stands name n r v w = elim (Bool-cases (is_present (lookup n r.units))) [
    | inl old ↦ rw old (elim (Bool-cases (n == name)) [
      | inl same ↦
          let e : n ≡ name = (eq_iff n name).0 same in
          rw
            (
              same,
              view_or_fresh_old go name (lookup name r.units) (lookup name r.history) v w
                  (ap (λ k. is_present (lookup k r.units)) (sym e) ∙ old),
            )
            w
      | inr other ↦ rw other w
    ])
    | inr new ↦
        rw
          (
            new,
            lookup-insert n name (fresh_status go n) r.units,
            lookup-insert n name (new_unit_history go) r.history,
          )
          (elim (Bool-cases (n == name)) [
            | inl same ↦
                let e : n ≡ name = (eq_iff n name).0 same in
                rw (same, e)
                  (register-Shows go name (lookup name r.units) (lookup name r.history) v w
                    (ap (λ k. is_present (lookup k r.units)) (sym e) ∙ new))
            | inr other ↦ rw other w
          ])
  ]

  set-Stands :
      (name : String) (s : UnitStatus go) (r : Registry go) (v : Option (View go))
      → Stands go name r v
      → Stands go name (set go r s) (view_step go name (set_op s) v)
  unfolding set
  set-Stands name s r v w = elim (Bool-cases (is_present (lookup s.name r.units))) [
    | inl old ↦
        rw (old, lookup-insert s.name name s r.units)
          (elim (Bool-cases (s.name == name)) [
            | inl same ↦
                let e : s.name ≡ name = (eq_iff s.name name).0 same in
                rw same (
                  set-Shows go s (lookup name r.units) (lookup name r.history) v w
                    (ap (λ k. is_present (lookup k r.units)) (sym e) ∙ old))
            | inr other ↦ rw other w
          ])
    | inr new ↦ rw new (elim (Bool-cases (s.name == name)) [
      | inl same ↦
          let e : s.name ≡ name = (eq_iff s.name name).0 same in
          rw same (
            set-Shows_absent go s (lookup name r.units) (lookup name r.history) v w
              (ap (λ k. is_present (lookup k r.units)) (sym e) ∙ new))
      | inr other ↦ rw other w
    ])
  ]

  -- An update of a history that is a step of the unit's view.
  module _ (f : UnitHistory go → UnitHistory go) (g : View go → View go) where
    abbrev Follows : Type 0
    Follows =
        (h : UnitHistory go) (v : View go)
        → Shows go (some v.status) (some h) (some v)
        → Shows go (some v.status) (some (f h)) (some (g v))

    updated-Shows :
        (u : Option (UnitStatus go)) (h : UnitHistory go) (v : Option (View go))
        → Follows
        → Shows go u (some h) v
        → Shows go u (some (f h)) (on_view go g v)
    updated-Shows (some s) h (some v) follow w =
        let k = follow h v (refl, w.1, w.2) in (w.0 ∙ k.0, k.1, k.2)
    updated-Shows (some s) h none follow w = absurd w
    updated-Shows none h v follow w = absurd w

    unknown-Shows :
        (u : Option (UnitStatus go)) (h : Option (UnitHistory go)) (v : Option (View go))
        → h ≡ none
        → Shows go u h v
        → Shows go u h (on_view go g v)
    unknown-Shows u (some h) v e w = cc
    unknown-Shows none none none e w = w
    unknown-Shows none none (some v) e w = absurd w
    unknown-Shows (some s) none v e w = absurd w

    history-Stands :
        (name n : String) (r : Registry go) (v : Option (View go))
        → Follows
        → Stands go name r v
        → Stands go name
            (update_history go f n (lookup n r.history) r)
            (if n == name then on_view go g v else v)
    history-Stands name n r v follow w = elim (Option-cases (lookup n r.history)) [
      | inl gone ↦ rw gone (elim (Bool-cases (n == name)) [
        | inl same ↦
            let e : n ≡ name = (eq_iff n name).0 same in
            rw same (
              unknown-Shows (lookup name r.units) (lookup name r.history) v
                (ap (λ k. lookup k r.history) (sym e) ∙ gone) w)
        | inr other ↦ rw other w
      ])
      | inr found ↦
          rw (found.1, lookup-insert n name (f found.0) r.history)
            (elim (Bool-cases (n == name)) [
              | inl same ↦
                  let e : n ≡ name = (eq_iff n name).0 same in
                  let here : lookup name r.history ≡ some found.0 =
                    ap (λ k. lookup k r.history) (sym e) ∙ found.1 in
                  rw same (
                    updated-Shows (lookup name r.units) found.0 v follow
                      (subst (λ h. Shows go (lookup name r.units) h v) here w))
              | inr other ↦ rw other w
            ])
    ]

  apply-Stands :
      (name : String) (o : Op go) (r : Registry go) (v : Option (View go))
      → Stands go name r v
      → Stands go name (apply go r o) (view_step go name o v)
  unfolding apply
  apply-Stands name (register_op n) r v w = register-Stands name n r v w
  apply-Stands name (set_op s) r v w = set-Stands name s r v w
  apply-Stands name (check_op n t b) r v w =
      history-Stands (λ h. record h { checks = add h.checks (record { time = t; success = b }) })
        (λ u. record u { checks = u.checks ++ record { time = t; success = b } ∷ [] }) name n r v
        (λ h u k. (refl, add-Keeps _ k.1, k.2)) w
  apply-Stands name (speed_op n t x) r v w =
      history-Stands (λ h. record h { speeds = add h.speeds (record { time = t; mbps = x }) })
        (λ u. record u { speeds = u.speeds ++ record { time = t; mbps = x } ∷ [] }) name n r v
        (λ h u k. (refl, k.1, add-Keeps _ k.2)) w

  pub run-Stands :
      (name : String) (os : List (Op go)) (r : Registry go) (v : Option (View go))
      → Stands go name r v
      → Stands go name (run go r os) (view_of go name v os)
  unfolding run
  run-Stands name [] r v w = w
  run-Stands name (o ∷ os) r v w =
      run-Stands name os (apply go r o) (view_step go name o v) (apply-Stands name o r v w)

  -- After any sequence of calls on a new registry, the entries for every name are those of the
  -- specification: none for a name that was never registered, and else the last status set since
  -- its registration and the last 100 check and speed samples recorded since, oldest first.
  pub run-recent_view :
      (name : String) (os : List (Op go))
      → let r = run go (new_registry go) os in
        read go (lookup name r.units) (lookup name r.history)
        ≡ recent_view go (view_of go name none os)
  unfolding new_registry lookup
  run-recent_view name os =
      let r = run go (new_registry go) os in
      Shows-read go (lookup name r.units) (lookup name r.history) (view_of go name none os)
        (run-Stands name os (new_registry go) none tt)
