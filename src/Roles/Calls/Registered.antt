-- ===== src/Roles/Calls/Registered.antt =====
-- The registry (registry.go) under the calls of all goroutines (internal/roles): it stays valid, and its
-- names are those that were registered at the start.
use healthd.Common.{
  String, ◌≡◌, refl, sym, subst, ap, ◌∙◌, false, List, [], ◌∷◌, ◌++◌, Option, none, some, get_elem?,
  is_present, arith, append_assoc, append-nil, inl, inr, Bool-cases, eq_iff,
}
use healthd.Common.Int.{ℤ}
use healthd.Common.Assoc.{lookup, contains, Distinct, contains-append, contains-keys}
use healthd.Platform.{Platform}
use healthd.Monitor.StateMachine as Machine
use healthd.Monitor.StateMachine.{StateMachine}
use healthd.Monitor.History.{UnitHistory}
use healthd.Monitor.Registry.{
  Registry, UnitStatus, new_registry, register_in, update_history, set as set_status, record_check,
  record_speed, status_of,
}
use healthd.Monitor.Registry.Invariant.{IsValid}
use healthd.Monitor.Registry.Reachable.{new_registry-IsValid, run_from-IsValid}
use healthd.Monitor.Registry.Spec.{register_op, apply, run}
use healthd.Roles.Units.{RoleTarget, Fleet, new_fleet}
use healthd.Roles.Units.Enrolled.{registers, fleet_names, new_fleet-Enrolled}
use healthd.Roles.Units.Own.{Named, Named-get_elem?, Named-set, speed_ops}
use healthd.Roles.Calls.{
  Phase, waiting, returned, before_observe, before_update, before_record_check, before_record_speed,
  before_log_snapshot, before_dispatch, Monitors, Move, ticks, calls, returns, move, Moves,
  no_moves, then_move,
}
use healthd.Roles.Calls.Ops.{call_ops}
use healthd.Roles.Calls.Settled.{call-registry}
use healthd.Roles.Calls.Follow.{leave_select-inv, call_of-inv}

Distinct-middle :
    (xs : List String) (n : String) (ys : List String)
    → Distinct (xs ++ n ∷ ys)
    → contains n xs ≡ false
Distinct-middle [] n ys d = refl
Distinct-middle (x ∷ xs) n ys d =
    let rest = Distinct-middle xs n ys d.1 in
    let apart = d.0 in ground (arith, contains-append x xs (n ∷ ys), eq_iff x n, eq_iff n n)

module _ (go : Platform) where
  open go use {Float, Time}

  -- The fleet's units and its registry have the names, in order.
  pub record Registered (names : List String) (f : Fleet go) : Type 0 where
    pub named : Named go f.units names
    pub registry : Registry go
    pub has : f.registry ≡ some registry
    pub valid : IsValid go registry
    pub in_order : registry.order ≡ names

  run-registers_order :
      (r : Registry go) (ns : List String)
      → IsValid go r
      → Distinct (r.order ++ ns)
      → (run go r (registers go ns)).order ≡ r.order ++ ns
  unfolding run apply
  run-registers_order r [] v d = sym (append-nil r.order)
  run-registers_order r (n ∷ ns) v d =
      let absent : is_present (lookup n r.units) ≡ false =
        sym (contains-keys n r.units)
        ∙ ap (contains n) v.units_keyed
        ∙ Distinct-middle r.order n ns d in
      let order : (register_in go r n).order ≡ r.order ++ n ∷ [] = rw absent refl in
      let all : (register_in go r n).order ++ ns ≡ r.order ++ (n ∷ ns) =
        ap (λ l. l ++ ns) order ∙ append_assoc r.order (n ∷ []) ns in
      run-registers_order (register_in go r n) ns (run_from-IsValid go (register_op n ∷ []) v)
        (subst Distinct (sym all) d)
      ∙ all

  pub new_fleet-Registered :
      (pings urls : List (RoleTarget go))
      (internet : Option (ℤ × ℤ × Machine.Config go × List String))
      (speed : Option (ℤ × Machine.Config go × List String))
      → Distinct (fleet_names go pings urls internet speed)
      → Registered
          (fleet_names go pings urls internet speed)
          (new_fleet go pings urls internet speed)
  unfolding new_registry
  new_fleet-Registered pings urls internet speed d =
      let names = fleet_names go pings urls internet speed in
      let start = new_fleet-Enrolled go pings urls internet speed in
      record {
        named = start.named;
        registry = run go (new_registry go) (registers go names);
        has = start.has;
        valid = run_from-IsValid go (registers go names) (new_registry-IsValid go);
        in_order = run-registers_order (new_registry go) names (new_registry-IsValid go) d;
      }

  update_history-order :
      (f : UnitHistory go → UnitHistory go) (n : String) (e : Option (UnitHistory go))
      (r : Registry go)
      → (update_history go f n e r).order ≡ r.order
  update_history-order f n none r = refl
  update_history-order f n (some h) r = refl

  set-order : (r : Registry go) (s : UnitStatus go) → (set_status go r s).order ≡ r.order
  unfolding set_status
  set-order r s = elim (Bool-cases (is_present (lookup s.name r.units))) [
    | inl e ↦ rw e refl
    | inr e ↦ rw e refl
  ]

  order-speed_ops :
      (r : Registry go) (n : String) (x : Option Float) (t : Time)
      → (run go r (speed_ops go n x t)).order ≡ r.order
  unfolding run apply record_speed
  order-speed_ops r n none t = refl
  order-speed_ops r n (some x) t = update_history-order _ n (lookup n r.history) r

  order-call_ops :
      {E : Type 0} (r : Registry go) (n : String) (m : StateMachine go) (p : Phase go E)
      → (run go r (call_ops go n m p)).order ≡ r.order
  unfolding run apply record_check
  order-call_ops r n m waiting = refl
  order-call_ops r n m returned = refl
  order-call_ops r n m (before_observe c) = refl
  order-call_ops r n m (before_update c ev) = set-order r (status_of go (record { name = n }) m)
  order-call_ops r n m (before_record_check c ev) = update_history-order _ n (lookup n r.history) r
  order-call_ops r n m (before_record_speed c ev) = order-speed_ops r n c.speed c.at.recorded
  order-call_ops r n m (before_log_snapshot c ev) = refl
  order-call_ops r n m (before_dispatch c ev) = refl

  pub move-Registered :
      {E : Type 0} {names : List String} (s t : Monitors go E) (mv : Move go E)
      → move go s mv ≡ some t
      → Registered names s.fleet
      → Registered names t.fleet
  unfolding move
  move-Registered {E} {names} s t (ticks c) h w =
      let (_, same) =
        leave_select-inv go s t c.unit (before_observe c) (get_elem? s.phases c.unit) h in
      subst (λ (u : Monitors go E). Registered names u.fleet) (sym same) w
  move-Registered {E} {names} s t (returns j) h w =
      let (_, same) = leave_select-inv go s t j returned (get_elem? s.phases j) h in
      subst (λ (u : Monitors go E). Registered names u.fleet) (sym same) w
  move-Registered {E} {names} s t (calls j) h w =
      let (u, p, e, at_u, at_p, at_e, same) =
        call_of-inv go s t j (get_elem? s.fleet.units j) (get_elem? s.phases j) h in
      let (n, at_n, handle) = Named-get_elem? go s.fleet.units names j u w.named at_u in
      let os = call_ops go n u.machine p in
      subst (λ (u : Monitors go E). Registered names u.fleet) (sym same)
        (record {
          named = Named-set go s.fleet.units names j u e.machine w.named at_u;
          registry = run go w.registry os;
          has = call-registry go n u s.fleet.registry w.registry p e handle w.has at_e;
          valid = run_from-IsValid go os w.valid;
          in_order = order-call_ops w.registry n u.machine p ∙ w.in_order;
        })

  pub Moves-Registered :
      {E : Type 0} {names : List String} {s t : Monitors go E} {mvs : List (Move go E)}
      → Moves go E s mvs t
      → Registered names s.fleet
      → Registered names t.fleet
  Moves-Registered (no_moves s) w = w
  Moves-Registered (then_move {s = s} {t = t} {mv = mv} h more) w =
      Moves-Registered more (move-Registered s t mv h w)
