-- ===== src/Monitor/StateMachine/Availability.antt =====
-- The `availability` trigger (statemachine.go) against its specification by the last results.
use healthd.Common.{
  ℕ, suc, ◌≤◌, ◌<◌, ◌≡◌, refl, ap, ap₂, subst, ◌∙◌, inl, inr, Bool, false, List, [], ◌∷◌, ◌++◌,
  some, append-nil, append_assoc, length, recent, count_true, length-append, leb→le, sym, arith,
  leb, lt→ltb, ◌==◌, Bool-cases, if◌then◌else◌,
}
use healthd.Common.Int.{pos, to_ℕ}
use healthd.Platform.{Platform}
use healthd.Monitor.Window.{Window, new_window, full, add, percentage, availability}
use healthd.Monitor.Window.Refine.{Tracks, new_window-Tracks, add-Tracks}
use healthd.Monitor.StateMachine.{
  State, healthy, unhealthy, availability_trigger, Config, StateMachine, new_with_config,
  record_result, by_availability, by_window, transition_availability, observe, observe_all,
  add_result,
}
use healthd.Monitor.StateMachine.Fields.{results, observe-Keeps}

module _ (go : Platform) where
  open go use {Float, Time, lt_float, is_nan, ratio_number, le-lt_float}

  -- The state that the specification gives after the log of results.
  abbrev pub verdict : ℕ → Float → List Bool → State
  verdict n least log =
      if leb n (length log)
      then (if lt_float (percentage go (count_true (recent n log)) n) least
          then unhealthy
          else healthy)
      else healthy

  pub record Judges (n : ℕ) (least : Float) (m : StateMachine go) (log : List Bool) : Type 0 where
    pub mode : m.trigger ≡ availability_trigger
    pub bound : m.min_availability ≡ least
    pub window : Window
    pub has : m.window ≡ some window
    pub sized : window.size ≡ n
    pub tracks : Tracks window log
    pub stated : m.state ≡ verdict n least log

  availability-full :
      {w : Window} {log : List Bool}
      → Tracks w log
      → 0 < w.size
      → w.size ≤ length log
      → availability go w ≡ percentage go (count_true (recent w.size log)) w.size
  unfolding availability
  availability-full {w} {log} t p h =
      let e : w.len ≡ w.size = omega (arith, t.holds) in
      let q : (w.size == 0) ≡ false = ground arith in rw (e, t.sum_exact, q) refl

  -- What `full` says of a window that stands for a log.
  full-leb : {w : Window} {log : List Bool} → Tracks w log → full w ≡ leb w.size (length log)
  unfolding full
  full-leb {w} {log} t = rw t.holds.len_exact (ground arith)

  -- No value but NaN is neither below the minimum nor at least it.
  state-by_availability :
      (m : StateMachine go) (a : Float)
      → is_nan a ≡ false
      → is_nan m.min_availability ≡ false
      → (by_availability go m a).0.state
        ≡ (if lt_float a m.min_availability then unhealthy else healthy)
  unfolding by_availability
  state-by_availability m a p q = ground (arith, le-lt_float m.min_availability a)

  percentage_number : (k n : ℕ) → 0 < n → is_nan (percentage go k n) ≡ false
  percentage_number k n p = ratio_number (pos k) (pos n) (pos 100) (λ e. positive (ap to_ℕ e))
    where
      positive : n ≡ 0 → ⊥
      positive e = omega arith

  -- Before the window is full the state stays what it was, and from then on it is the verdict.
  state-by_window :
      (r : StateMachine go) {w : Window} {log : List Bool}
      → 0 < w.size
      → is_nan r.min_availability ≡ false
      → Tracks w log
      → (length log < w.size → r.state ≡ healthy)
      → (by_window go r (some w)).0.state ≡ verdict w.size r.min_availability log
  state-by_window r {w} {log} p q t early = elim (Bool-cases (leb w.size (length log))) [
    | inl y ↦
        let e : w.size ≤ length log = leb→le w.size (length log) y in
        let a = availability-full t p e in
        rw (full-leb t, y)
          (state-by_availability r (availability go w)
              (rw a (percentage_number (count_true (recent w.size log)) w.size p)) q
            ∙ ap (λ x. if lt_float x r.min_availability then unhealthy else healthy) a)
    | inr n ↦ rw (full-leb t, n) (early (ground arith))
  ]

  verdict_early :
      (n : ℕ) (least : Float) (log : List Bool) → length log < n → verdict n least log ≡ healthy
  verdict_early n least log h = let e : leb n (length log) ≡ false = ground arith in rw e

  observe-Judges :
      {n : ℕ} {least : Float} {m : StateMachine go} {log : List Bool} (b : Bool) (now : Time)
      → 0 < n
      → is_nan least ≡ false
      → Judges n least m log
      → Judges n least (observe go m b now).0 (log ++ b ∷ [])
  unfolding observe record_result transition_availability add
  observe-Judges {n} {least} {m} {log} b now p q j =
      let keeps = observe-Keeps go m b now in
      let r = record_result go m b now in
      let step : observe go m b now ≡ by_window go r (some (add j.window b)) = rw (j.mode, j.has) in
      let t = add-Tracks b j.tracks in
      record {
        mode = keeps.same_trigger ∙ j.mode;
        bound = keeps.same_min ∙ j.bound;
        window = add j.window b;
        has = keeps.same_window ∙ ap (λ w. add_result w b) j.has;
        sized = j.sized;
        tracks = t;
        stated =
            ap (λ s. s.0.state) step
            ∙ state-by_window r (omega (arith, j.sized)) (rw j.bound q) t (λ h.
              j.stated
              ∙ verdict_early n least log (omega (arith, h, j.sized, length-append log (b ∷ []))))
            ∙ ap₂ (λ k x. verdict k x (log ++ b ∷ [])) j.sized j.bound;
      }

  observe_all-Judges :
      {n : ℕ} {least : Float} {log : List Bool} (m : StateMachine go) (rs : List (Bool × Time))
      → 0 < n
      → is_nan least ≡ false
      → Judges n least m log
      → Judges n least (observe_all go m rs).0 (log ++ results go rs)
  unfolding observe_all
  observe_all-Judges m [] p q j = rw append-nil j
  observe_all-Judges {n} {least} {log} m ((b, now) ∷ rs) p q j =
      subst (Judges n least (observe_all go m ((b, now) ∷ rs)).0)
        (append_assoc log (b ∷ []) (results go rs))
        (observe_all-Judges {log = log ++ b ∷ []} (observe go m b now).0 rs p q
          (observe-Judges b now p q j))

  -- In the availability mode, with a window of n > 0 results and a minimum that is not NaN, a machine
  -- is healthy until n checks have come, and from then on it is unhealthy exactly if the percentage of
  -- successes among the last n is below the minimum.
  pub observe_all-verdict :
      (cfg : Config go) (n : ℕ) (rs : List (Bool × Time))
      → cfg.trigger ≡ availability_trigger
      → cfg.window_size ≡ pos (suc n)
      → is_nan cfg.min_availability ≡ false
      → (observe_all go (new_with_config go cfg) rs).0.state
        ≡ verdict (suc n) cfg.min_availability (results go rs)
  unfolding new_with_config new_window
  observe_all-verdict cfg n rs h e q =
      (observe_all-Judges {log = []} (new_with_config go cfg) rs (omega arith) q (record {
        mode = h;
        bound = refl;
        window = new_window (suc n);
        has = rw (e, lt→ltb 0 (suc n) (omega arith));
        sized = refl;
        tracks = new_window-Tracks (suc n) (omega arith);
        stated = sym (verdict_early (suc n) cfg.min_availability [] (omega arith));
      })).stated
