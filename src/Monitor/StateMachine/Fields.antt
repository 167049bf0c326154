-- ===== src/Monitor/StateMachine/Fields.antt =====
-- What Observe does to the fields that do not depend on the trigger (statemachine.go).
use healthd.Common.{
  ℕ, suc, lt→ltb, min, length, recent, count_true, ◌==◌, ◌≡◌, refl, ap, ◌∙◌, inl, inr, Bool-cases,
  Bool, true, false, List, [], ◌∷◌, Option, none, some, arith, if◌then◌else◌,
}
use healthd.Common.Int.{pos}
use healthd.Platform.{Platform}
use healthd.Monitor.Window.{Window, full, len, new_window, percentage, availability}
use healthd.Monitor.Window.Refine.{add_all, add_all-recent}
use healthd.Monitor.StateMachine.{
  Trigger, consecutive_trigger, availability_trigger, StateMachine, add_result, by_availability,
  by_window, transition, transition_consecutive, transition_availability, record_result, observe,
  observe_all, Config, new_with_config, availability as machine_availability,
}

module _ (go : Platform) where
  open go use {Float, Time, of_int, zero_time}

  -- A transition changes the state at most.
  pub record Keeps (m n : StateMachine go) : Type 0 where
    pub same_threshold : n.failure_threshold ≡ m.failure_threshold
    pub same_trigger : n.trigger ≡ m.trigger
    pub same_min : n.min_availability ≡ m.min_availability
    pub same_consecutive : n.consecutive ≡ m.consecutive
    pub same_window : n.window ≡ m.window
    pub same_last : n.last_success ≡ m.last_success

  by_availability-Keeps : (m : StateMachine go) (a : Float) → Keeps m (by_availability go m a).0
  unfolding by_availability
  by_availability-Keeps m a = ground arith

  by_window-Keeps : (m : StateMachine go) (w : Option Window) → Keeps m (by_window go m w).0
  by_window-Keeps m none = ground arith
  by_window-Keeps m (some w) = elim (Bool-cases (full w)) [
    | inl e ↦ rw e (by_availability-Keeps m (availability go w))
    | inr e ↦ rw e (ground arith)
  ]

  transition-Keeps :
      (t : Trigger) (m : StateMachine go) (b : Bool) → Keeps m (transition go t m b).0
  unfolding transition_consecutive transition_availability
  transition-Keeps consecutive_trigger m b = ground arith
  transition-Keeps availability_trigger m b = by_window-Keeps m m.window

  -- Observe is the bookkeeping of `record_result` and then, whatever the trigger, a change of state.
  pub observe-Keeps :
      (m : StateMachine go) (b : Bool) (now : Time)
      → Keeps (record_result go m b now) (observe go m b now).0
  unfolding observe
  observe-Keeps m b now = transition-Keeps m.trigger (record_result go m b now) b

  abbrev pub results : List (Bool × Time) → List Bool
  results [] = []
  results ((b, now) ∷ rs) = b ∷ results rs

  -- The instant of the last success among the checks, or `t` if there is none.
  abbrev pub last_success_of : Time → List (Bool × Time) → Time
  last_success_of t [] = t
  last_success_of t ((true, now) ∷ rs) = last_success_of now rs
  last_success_of t ((false, now) ∷ rs) = last_success_of t rs

  -- The window after a run of results.
  abbrev pub window_after : Option Window → List Bool → Option Window
  window_after none bs = none
  window_after (some w) bs = some (add_all w bs)

  window_after-nil : (w : Option Window) → w ≡ window_after w []
  window_after-nil none = refl
  window_after-nil (some w) = refl

  pub observe_all-window :
      (m : StateMachine go) (rs : List (Bool × Time))
      → (observe_all go m rs).0.window ≡ window_after m.window (results rs)
  unfolding observe_all record_result
  observe_all-window m [] = window_after-nil m.window
  observe_all-window m ((b, now) ∷ rs) =
      observe_all-window (observe go m b now).0 rs
      ∙ ap (λ w. window_after w (results rs)) (observe-Keeps m b now).same_window
      ∙ window_after-cons m.window b (results rs)
    where
      window_after-cons :
          (w : Option Window) (b : Bool) (bs : List Bool)
          → window_after (add_result w b) bs ≡ window_after w (b ∷ bs)
      window_after-cons none b bs = refl
      window_after-cons (some w) b bs = refl

  -- In both modes the machine keeps the instant of the last successful check of its run.
  pub observe_all-last_success :
      (m : StateMachine go) (rs : List (Bool × Time))
      → (observe_all go m rs).0.last_success ≡ last_success_of m.last_success rs
  unfolding observe_all record_result
  observe_all-last_success m [] = refl
  observe_all-last_success m ((true, now) ∷ rs) =
      observe_all-last_success (observe go m true now).0 rs
      ∙ ap (λ t. last_success_of t rs) (observe-Keeps m true now).same_last
  observe_all-last_success m ((false, now) ∷ rs) =
      observe_all-last_success (observe go m false now).0 rs
      ∙ ap (λ t. last_success_of t rs) (observe-Keeps m false now).same_last

  -- A machine configured with a window of n > 0 results tracks, in both trigger modes, the last n
  -- results of its run: it reports 100 before the first, and then the percentage of successes among
  -- the last n. Its last success is the instant of the last successful check, or the zero instant.
  pub observe_all-availability :
      (cfg : Config go) (n : ℕ) (rs : List (Bool × Time))
      → cfg.window_size ≡ pos (suc n)
      → let m = (observe_all go (new_with_config go cfg) rs).0 in
        (machine_availability go m ≡ (
          if min (suc n) (length (results rs)) == 0
          then of_int (pos 100)
          else percentage go
              (count_true (recent (suc n) (results rs)))
              (min (suc n) (length (results rs)))))
        × (m.last_success ≡ last_success_of zero_time rs)
  unfolding machine_availability availability new_with_config len
  observe_all-availability cfg n rs h =
      let m0 = new_with_config go cfg in
      let e : m0.window ≡ some (new_window (suc n)) = rw (h, lt→ltb 0 (suc n) (omega arith)) in
      let w : (observe_all go m0 rs).0.window ≡ some (add_all (new_window (suc n)) (results rs)) =
        observe_all-window m0 rs ∙ ap (λ v. window_after v (results rs)) e in
      let (_, count, sum, _) = add_all-recent (suc n) (results rs) (omega arith) in
      (rw (w, count, sum) refl, observe_all-last_success m0 rs)
