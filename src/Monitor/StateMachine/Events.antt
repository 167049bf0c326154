-- ===== src/Monitor/StateMachine/Events.antt =====
-- The events of a run of checks against the states of the machine (statemachine.go), in
-- both trigger modes.
use healthd.Common.{
  ◌≡◌, refl, ◌∙◌, ap, Bool, List, [], ◌∷◌, Option, none, some, arith, inl, inr, Bool-cases,
}
use healthd.Platform.{Platform}
use healthd.Monitor.Window.{Window, full, availability}
use healthd.Monitor.StateMachine.{
  Event, no_event, alert_unhealthy, recovery_healthy, State, healthy, unhealthy, Trigger,
  consecutive_trigger, availability_trigger, StateMachine, by_availability, by_window, transition,
  transition_consecutive, transition_availability, record_result, observe, observe_all,
}

-- The state that a listener is in who was in `s` and hears one event; `none` is an event that repeats
-- the state that he is in.
abbrev pub hear : State → Event → Option State
hear s no_event = some s
hear healthy alert_unhealthy = some unhealthy
hear healthy recovery_healthy = none
hear unhealthy alert_unhealthy = none
hear unhealthy recovery_healthy = some healthy

abbrev pub hear_in : Option State → Event → Option State
hear_in none ev = none
hear_in (some s) ev = hear s ev

abbrev pub hear_all : Option State → List Event → Option State
hear_all s [] = s
hear_all s (ev ∷ evs) = hear_all (hear_in s ev) evs

module _ (go : Platform) where
  open go use {Float, Time}

  abbrev Signals : State → StateMachine go × Event → Type 0
  Signals s r = hear s r.1 ≡ some r.0.state

  by_availability-Signals :
      (m : StateMachine go) (a : Float) → Signals m.state (by_availability go m a)
  unfolding by_availability
  by_availability-Signals m a = ground arith

  by_window-Signals : (m : StateMachine go) (w : Option Window) → Signals m.state (by_window go m w)
  by_window-Signals m none = refl
  by_window-Signals m (some w) = elim (Bool-cases (full w)) [
    | inl e ↦ rw e (by_availability-Signals m (availability go w))
    | inr e ↦ rw e refl
  ]

  transition-Signals :
      (t : Trigger) (m : StateMachine go) (b : Bool) → Signals m.state (transition go t m b)
  unfolding transition_consecutive transition_availability
  transition-Signals consecutive_trigger m b = ground arith
  transition-Signals availability_trigger m b = by_window-Signals m m.window

  -- One observation, in either mode: an alert is returned exactly on the way from healthy to unhealthy,
  -- a recovery exactly on the way back, and no event otherwise.
  pub observe-hear :
      (m : StateMachine go) (b : Bool) (now : Time)
      → let (m', ev) = observe go m b now in hear m.state ev ≡ some m'.state
  unfolding observe record_result
  observe-hear m b now = transition-Signals m.trigger (record_result go m b now) b

  -- Over any run of checks, in either mode, the events signal each change of state once: a listener
  -- who knows the first state and hears the events never hears a repeated alert or recovery, and
  -- knows the machine's state at the end.
  pub observe_all-hear :
      (m : StateMachine go) (rs : List (Bool × Time))
      → let (m', evs) = observe_all go m rs in hear_all (some m.state) evs ≡ some m'.state
  unfolding observe_all
  observe_all-hear m [] = refl
  observe_all-hear m ((b, now) ∷ rs) =
      let (m', ev) = observe go m b now in
      ap (λ s. hear_all s (observe_all go m' rs).1) (observe-hear m b now) ∙ observe_all-hear m' rs
