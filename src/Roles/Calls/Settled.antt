-- ===== src/Roles/Calls/Settled.antt =====
-- A call of one goroutine (internal/roles), seen by a unit.
use healthd.Common.{
  ℕ, String, ◌≡◌, ◌≢◌, sym, subst, ap, ap₂, ◌∙◌, List, Option, some, get_elem?, get_elem?-set_self,
  get_elem?-set_other, set,
}
use healthd.Common.Assoc.{Distinct, Distinct-get_elem?}
use healthd.Platform.{Platform}
use healthd.Monitor.Registry.Spec.{run}
use healthd.Roles.Units.{MonitoredUnit}
use healthd.Roles.Units.Own.{Named-get_elem?}
use healthd.Roles.Units.Sees.{Sees, Sees-own, Sees-other, Sees-handle}
use healthd.Roles.Calls.{Phase, Effect, call, Monitors, settled}
use healthd.Roles.Calls.Ops.{
  call_ops, call_view, view_of-call_ops, view_of-call_ops_other, Runs, call-Runs,
}
use healthd.Roles.Calls.Outcome.{Outcome, alerts_with, finish, Leaves, call-Leaves}
use healthd.Roles.Calls.Sent.{alerts_from-sent_own, alerts_from-sent_other}
use healthd.Roles.Calls.Pending.{Pending}

module _ (go : Platform) where
  -- The registry after a call, by the unit's name.
  pub call-registry :
      {E : Type 0} (n : String) (u : MonitoredUnit go) (o : Option _) (r : _) (p : Phase go E)
      (e : Effect go E)
      → u.handle ≡ some (record { name = n })
      → o ≡ some r
      → call go u o p ≡ some e
      → e.registry ≡ some (run go r (call_ops go n u.machine p))
  call-registry n u o r p e h at_r at_e =
      subst (Runs go r (call_ops go n u.machine p)) (sym (ap (λ q. call go u q p) at_r) ∙ at_e)
        (call-Runs go n u r p h)

  -- A call of the unit's goroutine.
  settled-Pending_own :
      {E : Type 0} {names : List String} {i : ℕ} {name : String} {s : Monitors go E}
      {o : Outcome go E} (e : Effect go E) (w : Pending go names i name s o)
      → get_elem? names i ≡ some name
      → call go w.follows.sees.unit s.fleet.registry w.phase ≡ some e
      → Pending go names i name (settled go s i w.follows.sees.unit e) o
  settled-Pending_own {names = names} {i} {name} {s} {o} e w at_i at_e =
      let sees = w.follows.sees in
      let u = sees.unit in
      let os = call_ops go name u.machine w.phase in
      let v = call_view go name u.machine w.phase w.now.view in
      let r =
        call-registry name u s.fleet.registry sees.registry w.phase e (Sees-handle go sees at_i)
          sees.has at_e in
      let reg = s.fleet.registry in
      record {
        now = record {
          machine = e.machine;
          view = v;
          alerts = alerts_with go e.alert w.now.alerts;
        };
        phase = e.next;
        follows = record {
          sees =
              subst
                (λ q.
                  Sees go names i name
                    (record {
                      units = set s.fleet.units i (record u { machine = e.machine });
                      registry = q;
                    })
                    e.machine v)
                (sym r)
                (Sees-own go e.machine os v sees
                  (view_of-call_ops go name u.machine w.phase w.now.view));
          stands_at = get_elem?-set_self s.phases i w.phase e.next w.follows.stands_at;
          alerts =
              alerts_from-sent_own go i e.alert s.sent
              ∙ ap (alerts_with go e.alert) w.follows.alerts;
        };
        finishes =
            subst
              (Leaves go name
                (finish go name w.phase
                  (record { machine = u.machine; view = w.now.view; alerts = w.now.alerts }))
                v w.now.alerts)
              at_e (call-Leaves go name u reg w.phase w.now.view w.now.alerts)
            ∙ ap
                (λ m.
                  finish go name w.phase
                    (record { machine = m; view = w.now.view; alerts = w.now.alerts }))
                sees.machine
            ∙ w.finishes;
      }

  pub settled-Pending_at :
      {E : Type 0} {names : List String} {i : ℕ} {name : String} {s : Monitors go E}
      {o : Outcome go E} (j : ℕ) (u : MonitoredUnit go) (p : Phase go E) (e : Effect go E)
      → j ≡ i
      → get_elem? names i ≡ some name
      → get_elem? s.fleet.units j ≡ some u
      → get_elem? s.phases j ≡ some p
      → call go u s.fleet.registry p ≡ some e
      → Pending go names i name s o
      → Pending go names i name (settled go s j u e) o
  settled-Pending_at {names = names} {i} {name} {s} {o} j u p e same at_i at_u at_p at_e w =
      let found = w.follows.sees.found in
      let there = w.follows.stands_at in
      let its_unit : u ≡ w.follows.sees.unit = cc in
      let its_phase : p ≡ w.phase = cc in
      let at_e' : call go w.follows.sees.unit s.fleet.registry w.phase ≡ some e =
        ap₂ (λ v q. call go v s.fleet.registry q) (sym its_unit) (sym its_phase) ∙ at_e in
      subst (λ v. Pending go names i name (settled go s j v e) o) (sym its_unit)
        (subst (λ k. Pending go names i name (settled go s k w.follows.sees.unit e) o) (sym same)
          (settled-Pending_own e w at_i at_e'))

  -- A call of another unit's goroutine.
  pub settled-Pending_other :
      {E : Type 0} {names : List String} {i : ℕ} {name : String} {s : Monitors go E}
      {o : Outcome go E} (j : ℕ) (u : MonitoredUnit go) (p : Phase go E) (e : Effect go E)
      (w : Pending go names i name s o)
      → Distinct names
      → get_elem? names i ≡ some name
      → i ≢ j
      → get_elem? s.fleet.units j ≡ some u
      → call go u s.fleet.registry p ≡ some e
      → Pending go names i name (settled go s j u e) o
  settled-Pending_other {names = names} {i} {name} {s} {o} j u p e w d at_i other at_u at_e =
      let sees = w.follows.sees in
      let (n, at_n, h) = Named-get_elem? go s.fleet.units names j u sees.named at_u in
      let os = call_ops go n u.machine p in
      let r = call-registry n u s.fleet.registry sees.registry p e h sees.has at_e in
      record {
        now = w.now;
        phase = w.phase;
        follows = record {
          sees =
              subst
                (λ q.
                  Sees go names i name
                    (record {
                      units = set s.fleet.units j (record u { machine = e.machine });
                      registry = q;
                    })
                    w.now.machine w.now.view)
                (sym r)
                (Sees-other go j u e.machine os sees at_u other (
                  view_of-call_ops_other go name n u.machine p w.now.view
                    (Distinct-get_elem? names i j name n d at_i at_n other)));
          stands_at = get_elem?-set_other s.phases i j e.next other ∙ w.follows.stands_at;
          alerts = alerts_from-sent_other go i j e.alert s.sent other ∙ w.follows.alerts;
        };
        finishes = w.finishes;
      }
