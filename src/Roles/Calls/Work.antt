-- ===== src/Roles/Calls/Work.antt =====
-- The moves that the goroutines of all units (internal/roles) have left once no ticker is taken any
-- more, and how one move changes their number.
use healthd.Common.{
  ℕ, zero, suc, ◌+◌, ◌*◌, ◌≤◌, ◌≡◌, refl, sym, subst, ◌∙◌, Bool, true, false, List, [], ◌∷◌, Option,
  none, some, length, get_elem?, length-set, set, arith, if◌then◌else◌,
}
use healthd.Platform.{Platform}
use healthd.Monitor.Registry.{Registry}
use healthd.Roles.Units.{MonitoredUnit}
use healthd.Roles.Calls.{
  Phase, waiting, returned, before_observe, before_update, before_record_check, before_record_speed,
  before_log_snapshot, before_dispatch, Effect, call, Monitors, Move, ticks, calls, returns, move,
}
use healthd.Roles.Calls.Sent.{begun}
use healthd.Roles.Calls.Follow.{leave_select-inv, call_of-inv}
use healthd.Roles.Calls.Left.{calls_left}

module _ (go : Platform) where
  -- The moves that a goroutine has left until it returns: its calls, and its leaving the loop.
  abbrev pub moves_left : {E : Type 0} → Phase go E → ℕ
  moves_left returned = 0
  moves_left p = suc (calls_left go p)

  abbrev pub all_left : {E : Type 0} → List (Phase go E) → ℕ
  all_left [] = 0
  all_left (p ∷ ps) = moves_left p + all_left ps

  abbrev pub is_returned : {E : Type 0} → Phase go E → Bool
  is_returned returned = true
  is_returned p = false

  -- Every goroutine has returned.
  abbrev pub all_returned : {E : Type 0} → List (Phase go E) → Bool
  all_returned [] = true
  all_returned (p ∷ ps) = if is_returned p then all_returned ps else false

  all_left-set :
      {E : Type 0} (ps : List (Phase go E)) (i : ℕ) (p q : Phase go E)
      → get_elem? ps i ≡ some p
      → all_left (set ps i q) + moves_left p ≡ all_left ps + moves_left q
  all_left-set [] i p q h = cc
  all_left-set (r ∷ ps) zero p q h = let same : r ≡ p = cc in rw same (omega arith)
  all_left-set (r ∷ ps) (suc i) p q h = omega (arith, all_left-set ps i p q h)

  -- A goroutine has one move less left after a call.
  abbrev MovesOn : {E : Type 0} → Phase go E → Option (Effect go E) → Type 0
  MovesOn p none = Unit {0}
  MovesOn p (some e) = suc (moves_left e.next) ≡ moves_left p

  call-MovesOn :
      {E : Type 0} (u : MonitoredUnit go) (r : Option (Registry go)) (p : Phase go E)
      → MovesOn p (call go u r p)
  unfolding call
  call-MovesOn u r waiting = tt
  call-MovesOn u r returned = tt
  call-MovesOn u r (before_observe c) = refl
  call-MovesOn u r (before_update c ev) = refl
  call-MovesOn u r (before_record_check c ev) = refl
  call-MovesOn u r (before_record_speed c ev) = refl
  call-MovesOn u r (before_log_snapshot c ev) = refl
  call-MovesOn u r (before_dispatch c ev) = refl

  moves_left_le : {E : Type 0} (p : Phase go E) → moves_left p ≤ 7
  moves_left_le waiting = omega arith
  moves_left_le returned = omega arith
  moves_left_le (before_observe c) = omega arith
  moves_left_le (before_update c ev) = omega arith
  moves_left_le (before_record_check c ev) = omega arith
  moves_left_le (before_record_speed c ev) = omega arith
  moves_left_le (before_log_snapshot c ev) = omega arith
  moves_left_le (before_dispatch c ev) = omega arith

  pub all_left_le : {E : Type 0} (ps : List (Phase go E)) → all_left ps ≤ 7 * length ps
  all_left_le [] = omega arith
  all_left_le (p ∷ ps) = omega (arith, moves_left_le p, all_left_le ps)

  -- The moves that the state has left, with a unit for each goroutine.
  pub record HasWork {E : Type 0} (n : ℕ) (s : Monitors go E) : Type 0 where
    pub paired : length s.phases ≡ length s.fleet.units
    pub left : all_left s.phases ≡ n

  pub move-HasWork :
      {E : Type 0} (s t : Monitors go E) (n : ℕ) (mv : Move go E)
      → move go s mv ≡ some t
      → begun go (mv ∷ []) ≡ []
      → HasWork n s
      → (m : ℕ) × HasWork m t × (suc m ≡ n)
  unfolding move
  move-HasWork s t n (ticks c) h none_begun w = cc
  move-HasWork s t n (returns i) h none_begun w =
      let (at_select, same) = leave_select-inv go s t i returned (get_elem? s.phases i) h in
      let less = all_left-set s.phases i waiting returned at_select in
      let all = w.left in
      let left : suc (all_left (set s.phases i returned)) ≡ n = omega arith in
      (
        all_left (set s.phases i returned),
        subst (HasWork (all_left (set s.phases i returned))) (sym same)
            (record { paired = length-set s.phases i returned ∙ w.paired; left = refl }),
        left,
      )
  move-HasWork s t n (calls i) h none_begun w =
      let (u, p, e, at_u, at_p, at_e, same) =
        call_of-inv go s t i (get_elem? s.fleet.units i) (get_elem? s.phases i) h in
      let one = subst (MovesOn p) at_e (call-MovesOn u s.fleet.registry p) in
      let less = all_left-set s.phases i p e.next at_p in
      let all = w.left in
      let left : suc (all_left (set s.phases i e.next)) ≡ n = omega arith in
      (
        all_left (set s.phases i e.next),
        subst (HasWork (all_left (set s.phases i e.next))) (sym same) (record {
          paired =
              length-set s.phases i e.next
              ∙ w.paired
              ∙ sym (length-set s.fleet.units i (record u { machine = e.machine }));
          left = refl;
        }),
        left,
      )
