-- ===== src/Roles/Calls/Follow.antt =====
-- Any series of moves of the goroutines (internal/roles), seen by a unit.
use healthd.Common.{
  ℕ, String, ◌≡◌, refl, subst, List, [], ◌∷◌, Option, none, some, inl, inr, Bool-cases, get_elem?,
  set, ◌==◌,
}
use healthd.Common.Assoc.{Distinct}
use healthd.Platform.{Platform}
use healthd.Roles.Units.{MonitoredUnit, Round}
use healthd.Roles.Units.Own.{own}
use healthd.Roles.Calls.{
  Phase, waiting, returned, before_observe, before_update, before_record_check, before_record_speed,
  before_log_snapshot, before_dispatch, Effect, call, Monitors, Move, ticks, calls, returns,
  leave_select, settled, settle, call_of, move, Moves, no_moves, then_move,
}
use healthd.Roles.Calls.Outcome.{Outcome, after_rounds}
use healthd.Roles.Calls.Sent.{begun, equal, unequal}
use healthd.Roles.Calls.Pending.{Pending, leave-Pending_at, leave-Pending_other}
use healthd.Roles.Calls.Settled.{settled-Pending_at, settled-Pending_other}

module _ (go : Platform) where
  pub leave_select-inv :
      {E : Type 0} (s t : Monitors go E) (i : ℕ) (to : Phase go E) (o : Option (Phase go E))
      → leave_select go s i to o ≡ some t
      → (o ≡ some waiting) × (t ≡ record s { phases = set s.phases i to })
  leave_select-inv s t i to (some waiting) h = (refl, cc)
  leave_select-inv s t i to (some returned) h = cc
  leave_select-inv s t i to (some (before_observe c)) h = cc
  leave_select-inv s t i to (some (before_update c ev)) h = cc
  leave_select-inv s t i to (some (before_record_check c ev)) h = cc
  leave_select-inv s t i to (some (before_record_speed c ev)) h = cc
  leave_select-inv s t i to (some (before_log_snapshot c ev)) h = cc
  leave_select-inv s t i to (some (before_dispatch c ev)) h = cc
  leave_select-inv s t i to none h = cc

  settle-inv :
      {E : Type 0} (s t : Monitors go E) (i : ℕ) (u : MonitoredUnit go) (e : Option (Effect go E))
      → settle go s i u e ≡ some t
      → (f : Effect go E) × (e ≡ some f) × (t ≡ settled go s i u f)
  settle-inv s t i u none h = cc
  settle-inv s t i u (some f) h = (f, refl, cc)

  pub call_of-inv :
      {E : Type 0} (s t : Monitors go E) (i : ℕ) (u : Option (MonitoredUnit go))
      (p : Option (Phase go E))
      → call_of go s i u p ≡ some t
      → (v : MonitoredUnit go) × (q : Phase go E) × (e : Effect go E) × (u ≡ some v)
        × (p ≡ some q)
        × (call go v s.fleet.registry q ≡ some e)
        × (t ≡ settled go s i v e)
  call_of-inv s t i none p h = cc
  call_of-inv s t i (some v) none h = cc
  call_of-inv s t i (some v) (some q) h =
      let (e, at_e, after) = settle-inv s t i v (call go v s.fleet.registry q) h in
      (v, q, e, refl, refl, at_e, after)

  -- One move, of any goroutine.
  move-Pending :
      {E : Type 0} {names : List String} {i : ℕ} {name : String} {s t : Monitors go E}
      {o : Outcome go E} (mv : Move go E)
      → Distinct names
      → get_elem? names i ≡ some name
      → move go s mv ≡ some t
      → Pending go names i name s o
      → Pending go names i name t (after_rounds go name o (own go i (begun go (mv ∷ []))))
  unfolding move own
  move-Pending {names = names} {i} {name} {s} {t} {o} (ticks c) d at_i h w =
      let (at_select, same) =
        leave_select-inv s t c.unit (before_observe c) (get_elem? s.phases c.unit) h in
      elim (Bool-cases (c.unit == i)) [
        | inl e ↦ rw (same, e) (leave-Pending_at go c.unit (before_observe c) (equal e) at_select w)
        | inr e ↦ rw (same, e) (leave-Pending_other go c.unit (before_observe c) (unequal e) w)
      ]
  move-Pending {names = names} {i} {name} {s} {t} {o} (returns j) d at_i h w =
      let (at_select, same) = leave_select-inv s t j returned (get_elem? s.phases j) h in
      elim (Bool-cases (j == i)) [
        | inl e ↦ rw same (leave-Pending_at go j returned (equal e) at_select w)
        | inr e ↦ rw same (leave-Pending_other go j returned (unequal e) w)
      ]
  move-Pending {names = names} {i} {name} {s} {t} {o} (calls j) d at_i h w =
      let (u, p, e, at_u, at_p, at_e, same) =
        call_of-inv s t j (get_elem? s.fleet.units j) (get_elem? s.phases j) h in
      elim (Bool-cases (j == i)) [
        | inl h ↦ rw same (settled-Pending_at go j u p e (equal h) at_i at_u at_p at_e w)
        | inr h ↦ rw same (settled-Pending_other go j u p e w d at_i (unequal h) at_u at_e)
      ]

  after_rounds-own_cons :
      {E : Type 0} (name : String) (i : ℕ) (o : Outcome go E) (c : Round go E)
      (cs : List (Round go E))
      → after_rounds go name (after_rounds go name o (own go i (c ∷ []))) (own go i cs)
        ≡ after_rounds go name o (own go i (c ∷ cs))
  unfolding own
  after_rounds-own_cons name i o c cs = elim (Bool-cases (c.unit == i)) [
    | inl e ↦ rw e refl
    | inr e ↦ rw e refl
  ]

  pub Moves-Pending :
      {E : Type 0} {names : List String} {i : ℕ} {name : String} {s t : Monitors go E}
      {mvs : List (Move go E)} {o : Outcome go E}
      → Moves go E s mvs t
      → Distinct names
      → get_elem? names i ≡ some name
      → Pending go names i name s o
      → Pending go names i name t (after_rounds go name o (own go i (begun go mvs)))
  unfolding own
  Moves-Pending (no_moves s) d at_i w = w
  Moves-Pending {names = names} {i} {name} {t = t} {o = o}
        (then_move {mv = ticks c} {mvs = mvs} h more) d at_i w =
      subst (Pending go names i name t) (after_rounds-own_cons name i o c (begun go mvs))
        (Moves-Pending more d at_i (move-Pending (ticks c) d at_i h w))
  Moves-Pending (then_move {mv = calls j} h more) d at_i w =
      Moves-Pending more d at_i (move-Pending (calls j) d at_i h w)
  Moves-Pending (then_move {mv = returns j} h more) d at_i w =
      Moves-Pending more d at_i (move-Pending (returns j) d at_i h w)
