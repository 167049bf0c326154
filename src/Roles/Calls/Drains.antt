-- ===== src/Roles/Calls/Drains.antt =====
-- The end of the monitoring roles (Run of internal/roles/ping_monitor.go and url_monitor.go, which waits
-- for the goroutines of its units): once the context has ended and no ticker is taken any more.
use healthd.Common.{
  ℕ, zero, suc, ◌+◌, ◌*◌, ◌≤◌, ◌<◌, ◌≡◌, ◌⊎◌, refl, subst, ap, true, false, List, [], ◌∷◌, some,
  inl, inr, Bool-cases, length, get_elem?, get_elem?_lt, arith,
}
use healthd.Platform.{Platform}
use healthd.Roles.Units.{MonitoredUnit}
use healthd.Roles.Calls.{
  Phase, waiting, returned, before_observe, before_update, before_record_check, before_record_speed,
  before_log_snapshot, before_dispatch, Monitors, Move, ticks, calls, returns, leave_select, move,
  Moves, no_moves, then_move,
}
use healthd.Roles.Calls.Sent.{begun}
use healthd.Roles.Calls.Isolation.{at_rest}
use healthd.Roles.Calls.Completes.{can_call}
use healthd.Roles.Calls.Work.{
  all_left, is_returned, all_returned, HasWork, move-HasWork, all_left_le,
}

module _ (go : Platform) where
  begun-nil :
      {E : Type 0} (mv : Move go E) (mvs : List (Move go E))
      → begun go (mv ∷ mvs) ≡ []
      → (begun go (mv ∷ []) ≡ []) × (begun go mvs ≡ [])
  begun-nil (ticks c) mvs h = cc
  begun-nil (calls i) mvs h = (refl, h)
  begun-nil (returns i) mvs h = (refl, h)

  Moves-HasWork :
      {E : Type 0} {s t : Monitors go E} {mvs : List (Move go E)} (n : ℕ)
      → Moves go E s mvs t
      → begun go mvs ≡ []
      → HasWork go n s
      → (m : ℕ) × HasWork go m t × (length mvs + m ≡ n)
  Moves-HasWork n (no_moves s) none_begun w = (n, w, omega arith)
  Moves-HasWork n (then_move {s = s} {t = t} {mv = mv} {mvs = mvs} h more) none_begun w =
      let (first, rest) = begun-nil mv mvs none_begun in
      let (m, after, one) = move-HasWork go s t n mv h first w in
      let (k, last, others) = Moves-HasWork m more rest after in (k, last, omega arith)

  -- A goroutine that has not returned.
  unreturned :
      {E : Type 0} (ps : List (Phase go E))
      → (all_returned go ps ≡ true)
        ⊎ ((i : ℕ) × (p : Phase go E) × (get_elem? ps i ≡ some p) × (is_returned go p ≡ false))
  unreturned [] = inl refl
  unreturned (p ∷ ps) = elim (Bool-cases (is_returned go p)) [
    | inr e ↦ inr (0, p, refl, e)
    | inl e ↦ elim (unreturned ps) [
      | inl all ↦ inl (rw e all)
      | inr (i, q, at_i, f) ↦ inr (suc i, q, at_i, f)
    ]
  ]

  -- Some move that begins no check.
  abbrev pub GoesOn : {E : Type 0} → Monitors go E → Type 0
  GoesOn {E} t =
      (mv : Move go E) × (s : Monitors go E) × (move go t mv ≡ some s) × (begun go (mv ∷ []) ≡ [])

  by_call :
      {E : Type 0} (t : Monitors go E) (i : ℕ) (p : Phase go E)
      → at_rest go (some p) ≡ false
      → (at_rest go (some p) ≡ true) ⊎ ((s : Monitors go E) × (move go t (calls i) ≡ some s))
      → GoesOn t
  by_call t i p busy (inl rest) = cc
  by_call t i p busy (inr (s, e)) = (calls i, s, e, refl)

  goes_on :
      {E : Type 0} (t : Monitors go E) (i : ℕ) (u : MonitoredUnit go) (p : Phase go E)
      → get_elem? t.fleet.units i ≡ some u
      → get_elem? t.phases i ≡ some p
      → is_returned go p ≡ false
      → GoesOn t
  unfolding move
  goes_on t i u waiting at_u at_p h = (returns i, _, ap (leave_select go t i returned) at_p, refl)
  goes_on t i u returned at_u at_p h = cc
  goes_on t i u (before_observe c) at_u at_p h =
      by_call t i (before_observe c) refl (can_call go t i u (before_observe c) at_u at_p)
  goes_on t i u (before_update c ev) at_u at_p h =
      by_call t i (before_update c ev) refl (can_call go t i u (before_update c ev) at_u at_p)
  goes_on t i u (before_record_check c ev) at_u at_p h =
      by_call t i (before_record_check c ev) refl
        (can_call go t i u (before_record_check c ev) at_u at_p)
  goes_on t i u (before_record_speed c ev) at_u at_p h =
      by_call t i (before_record_speed c ev) refl
        (can_call go t i u (before_record_speed c ev) at_u at_p)
  goes_on t i u (before_log_snapshot c ev) at_u at_p h =
      by_call t i (before_log_snapshot c ev) refl
        (can_call go t i u (before_log_snapshot c ev) at_u at_p)
  goes_on t i u (before_dispatch c ev) at_u at_p h =
      by_call t i (before_dispatch c ev) refl (can_call go t i u (before_dispatch c ev) at_u at_p)

  -- The units' goroutines return once no ticker is taken any more, whatever their checks are at and in
  -- whatever order they move. From any state with a unit for each goroutine, in a series of moves that
  -- begin no check each move takes one from the number of those that are left, which is at most seven
  -- for each goroutine at the start of the series; and at its end all goroutines have returned, or there
  -- is a further move that begins no check.
  pub all_left_lem :
      {E : Type 0} {s t : Monitors go E} (mvs : List (Move go E))
      → length s.phases ≡ length s.fleet.units
      → Moves go E s mvs t
      → begun go mvs ≡ []
      → (length mvs + all_left go t.phases ≡ all_left go s.phases)
        × (all_left go s.phases ≤ 7 * length s.phases)
        × ((all_returned go t.phases ≡ true) ⊎ GoesOn t)
  all_left_lem {s = s} {t} mvs paired moves none_begun =
      let (m, w, count) =
        Moves-HasWork (all_left go s.phases) moves none_begun
          (record { paired = paired; left = refl }) in
      let left = w.left in
      (
        omega arith,
        all_left_le go s.phases,
        elim (unreturned t.phases) [
          | inl all ↦ inl all
          | inr (i, p, at_p, busy) ↦
              let (u, at_u) =
                get_elem?_lt t.fleet.units i
                  (subst (λ n. i < n) w.paired (get_elem?-lt t.phases i p at_p)) in
              inr (goes_on t i u p at_u at_p busy)
        ],
      )
    where
      get_elem?-lt :
          {A : Type 0} (xs : List A) (i : ℕ) (x : A) → get_elem? xs i ≡ some x → i < length xs
      get_elem?-lt [] i x h = cc
      get_elem?-lt (y ∷ xs) zero x h = omega arith
      get_elem?-lt (y ∷ xs) (suc i) x h = omega (arith, get_elem?-lt xs i x h)
