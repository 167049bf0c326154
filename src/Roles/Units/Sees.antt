-- ===== src/Roles/Units/Sees.antt =====
-- The steps of a run of the checks of all units, seen by one of them.
use healthd.Common.{
  ℕ, String, ◌≡◌, ◌≢◌, refl, sym, subst, ap, ap₂, ◌∙◌, false, List, [], ◌∷◌, none, some, inl, inr,
  Bool-cases, Option-cases, get_elem?, get_elem?-set_self, get_elem?-set_other, set, arith, ◌==◌,
}
use healthd.Common.Assoc.{lookup, Distinct, Distinct-get_elem?}
use healthd.Platform.{Platform}
use healthd.Monitor.StateMachine.{StateMachine, observe, observe_all}
use healthd.Monitor.Registry.{Registry, new_registry}
use healthd.Monitor.Registry.Spec.{Op, run, View, view_of}
use healthd.Monitor.Registry.Shows.{Stands}
use healthd.Monitor.Registry.Refine.{run-Stands}
use healthd.Roles.Check.{World, report}
use healthd.Roles.Units.{MonitoredUnit, Fleet, Round, check_unit, fleet_check, fleet_run}
use healthd.Roles.Units.Own.{
  Named, Named-get_elem?, Named-set, own, observations, view_round, own_view, round_ops, report-run,
  view_of-round_own, view_of-round_other,
}

module _ (go : Platform) where
  -- The fleet, seen by its unit `i` under the name `name`: the unit's machine is `m`, and the registry
  -- stands for the view `v`.
  pub record Sees (names : List String) (i : ℕ) (name : String) (f : Fleet go) (m : StateMachine go)
      (v : View go) : Type 0 where
    pub named : Named go f.units names
    pub unit : MonitoredUnit go
    pub found : get_elem? f.units i ≡ some unit
    pub machine : unit.machine ≡ m
    pub registry : Registry go
    pub has : f.registry ≡ some registry
    pub stands : Stands go name registry (some v)

  -- A step of the unit itself.
  pub Sees-own :
      {names : List String} {i : ℕ} {name : String} {f : Fleet go} {m : StateMachine go}
      {v : View go} (m' : StateMachine go) (os : List (Op go)) (v' : View go)
      (s : Sees names i name f m v)
      → view_of go name (some v) os ≡ some v'
      → Sees names i name
          (record {
            units = set f.units i (record s.unit { machine = m' });
            registry = some (run go s.registry os);
          })
          m'
          v'
  Sees-own {names} {i} {name} {f} {m} {v} m' os v' s h = record {
    named = Named-set go f.units names i s.unit m' s.named s.found;
    unit = record s.unit { machine = m' };
    found = get_elem?-set_self f.units i s.unit (record s.unit { machine = m' }) s.found;
    machine = refl;
    registry = run go s.registry os;
    has = refl;
    stands =
        subst (Stands go name (run go s.registry os)) h
          (run-Stands go name os s.registry (some v) s.stands);
  }

  -- A step of another unit.
  pub Sees-other :
      {names : List String} {i : ℕ} {name : String} {f : Fleet go} {m : StateMachine go}
      {v : View go} (j : ℕ) (u : MonitoredUnit go) (m' : StateMachine go) (os : List (Op go))
      (s : Sees names i name f m v)
      → get_elem? f.units j ≡ some u
      → i ≢ j
      → view_of go name (some v) os ≡ some v
      → Sees names i name
          (record {
            units = set f.units j (record u { machine = m' });
            registry = some (run go s.registry os);
          })
          m
          v
  Sees-other {names} {i} {name} {f} {m} {v} j u m' os s found other h = record {
    named = Named-set go f.units names j u m' s.named found;
    unit = s.unit;
    found = get_elem?-set_other f.units i j (record u { machine = m' }) other ∙ s.found;
    machine = s.machine;
    registry = run go s.registry os;
    has = refl;
    stands =
        subst (Stands go name (run go s.registry os)) h
          (run-Stands go name os s.registry (some v) s.stands);
  }

  -- The name that the unit's handle carries.
  pub Sees-handle :
      {names : List String} {i : ℕ} {name : String} {f : Fleet go} {m : StateMachine go}
      {v : View go} (s : Sees names i name f m v)
      → get_elem? names i ≡ some name
      → s.unit.handle ≡ some (record { name = name })
  Sees-handle {names} {i} {name} {f} s at_i =
      let (n, at_n, h) = Named-get_elem? go f.units names i s.unit s.named s.found in
      let same : n ≡ name = cc in h ∙ ap (λ k. some (record { name = k })) same

  -- The fleet after a round of the unit `u`.
  fleet_check-found :
      {E : Type 0} (f : Fleet go) (c : Round go E) (u : MonitoredUnit go) (name : String)
      (r : Registry go)
      → get_elem? f.units c.unit ≡ some u
      → u.handle ≡ some (record { name = name })
      → f.registry ≡ some r
      → let m = (observe go u.machine c.success c.at.observed).0 in
        fleet_check go f c ≡ record {
          units = set f.units c.unit (record u { machine = m });
          registry = some (run go r (round_ops go name m c));
        }
  unfolding fleet_check
  fleet_check-found f c u name r found h e =
      let after : World go → Fleet go = λ w. record {
        units = set f.units c.unit (record u { machine = w.machine });
        registry = w.registry;
      } in
      ap (check_unit go f c) found
      ∙ ap₂
          (λ h' r'.
            after
              (report go c.role h' c.detail c.success c.speed c.at
                (record { machine = u.machine; registry = r' })).0)
          h e
      ∙ ap after (report-run go name c u.machine r c.speed refl)

  check-Sees_own :
      {E : Type 0} {names : List String} {i : ℕ} {name : String} {f : Fleet go}
      {m : StateMachine go} {v : View go} (c : Round go E)
      → get_elem? names i ≡ some name
      → c.unit ≡ i
      → Sees names i name f m v
      → let m' = (observe go m c.success c.at.observed).0 in
        Sees names i name (fleet_check go f c) m' (view_round go name m' c v)
  check-Sees_own {names = names} {i} {name} {f} {m} {v} c at_i same s =
      let u = s.unit in
      let found : get_elem? f.units c.unit ≡ some u = ap (get_elem? f.units) same ∙ s.found in
      let m' = (observe go u.machine c.success c.at.observed).0 in
      let step = fleet_check-found f c u name s.registry found (Sees-handle s at_i) s.has in
      let after : StateMachine go → Fleet go → Type 0 = λ k g.
        let k' = (observe go k c.success c.at.observed).0 in
        Sees names i name g k' (view_round go name k' c v) in
      subst (after m) (sym step) (
        subst
          (λ k. after k (record {
            units = set f.units c.unit (record u { machine = m' });
            registry = some (run go s.registry (round_ops go name m' c));
          }))
          s.machine
          (subst
            (λ j. after u.machine (record {
              units = set f.units j (record u { machine = m' });
              registry = some (run go s.registry (round_ops go name m' c));
            }))
            (sym same)
            (Sees-own m' (round_ops go name m' c) (view_round go name m' c v) s
              (view_of-round_own go name c m' v c.speed refl))))

  fleet_check-missing :
      {E : Type 0} (f : Fleet go) (c : Round go E)
      → get_elem? f.units c.unit ≡ none
      → fleet_check go f c ≡ f
  unfolding fleet_check
  fleet_check-missing f c e = ap (check_unit go f c) e

  check-Sees_other :
      {E : Type 0} {names : List String} {i : ℕ} {name : String} {f : Fleet go}
      {m : StateMachine go} {v : View go} (c : Round go E)
      → Distinct names
      → get_elem? names i ≡ some name
      → i ≢ c.unit
      → Sees names i name f m v
      → Sees names i name (fleet_check go f c) m v
  check-Sees_other {names = names} {i} {name} {f} {m} {v} c d at_i other s =
      elim (Option-cases (get_elem? f.units c.unit)) [
        | inl gone ↦ subst (λ g. Sees names i name g m v) (sym (fleet_check-missing f c gone)) s
        | inr (u, found) ↦
            let (n, at_n, h) = Named-get_elem? go f.units names c.unit u s.named found in
            let m' = (observe go u.machine c.success c.at.observed).0 in
            subst (λ g. Sees names i name g m v)
              (sym (fleet_check-found f c u n s.registry found h s.has))
              (Sees-other c.unit u m' (round_ops go n m' c) s found other (
                view_of-round_other go name n c m' (some v) c.speed refl
                  (Distinct-get_elem? names i c.unit name n d at_i at_n other)))
      ]

  pub new_registry-Stands : (name : String) → Stands go name (new_registry go) none
  unfolding new_registry lookup
  new_registry-Stands name = tt

  pub run-Sees :
      {E : Type 0} {names : List String} {i : ℕ} {name : String} {f : Fleet go}
      {m : StateMachine go} {v : View go} (cs : List (Round go E))
      → Distinct names
      → get_elem? names i ≡ some name
      → Sees names i name f m v
      → Sees names i name
          (fleet_run go f cs)
          (observe_all go m (observations go (own go i cs))).0
          (own_view go name m (own go i cs) v)
  unfolding fleet_run own observe_all
  run-Sees [] d at_i s = s
  run-Sees {names = names} {i} {name} {f} {m} {v} (c ∷ cs) d at_i s =
      elim (Bool-cases (c.unit == i)) [
        | inl same ↦
            rw same
              (run-Sees {f = fleet_check go f c} cs d at_i (check-Sees_own c at_i (ground arith) s))
        | inr other ↦ rw other (
            run-Sees {f = fleet_check go f c} cs d at_i
              (check-Sees_other c d at_i (λ e. different c.unit i other e) s))
      ]
    where
      different : (a b : ℕ) → (a == b) ≡ false → b ≡ a → ⊥
      different a b h e = ground arith
