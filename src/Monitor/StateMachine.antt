-- ===== src/Monitor/StateMachine.antt =====
-- internal/monitor/statemachine.go: the alert state machine. Observe takes the instant that the clock
-- gives as an argument. A method that changes the machine returns the new one.
pub mod Fields
pub mod Events
pub mod Consecutive
pub mod Availability
use healthd.Common.{Bool, true, false, ◌&&◌, Option, none, some, List, [], ◌∷◌, if◌then◌else◌}
use healthd.Common.Int.{ℤ, pos, ltb_ℤ, leb_ℤ, to_ℕ, incr}
use healthd.Platform.{Platform}
use healthd.Monitor.Window.{
  Window, new_window, add as add_to_window, full, availability as availability_of_window,
}
use Prim.Native.String.{String}

-- `None` is `no_event`.
pub data Event : Type 0 where
  no_event alert_unhealthy recovery_healthy : Event

pub data State : Type 0 where
  healthy unhealthy : State

unfoldable pub state_string : State → String
state_string unhealthy = "UNHEALTHY"
state_string healthy = "HEALTHY"

pub data Trigger : Type 0 where
  consecutive_trigger availability_trigger : Trigger

-- `if ft < 1 { ft = 1 }`
abbrev pub clamp_threshold : ℤ → ℤ
clamp_threshold ft = if ltb_ℤ ft (pos 1) then pos 1 else ft

abbrev pub is_unhealthy : State → Bool
is_unhealthy healthy = false
is_unhealthy unhealthy = true

abbrev pub is_healthy : State → Bool
is_healthy healthy = true
is_healthy unhealthy = false

-- `if m.window != nil { m.window.Add(success) }`
abbrev pub add_result : Option Window → Bool → Option Window
add_result none success = none
add_result (some w) success = some (add_to_window w success)

module _ (go : Platform) where
  open go use {Float, of_int, lt_float, le_float, Time, zero_time}

  pub record Config : Type 0 where
    pub failure_threshold : ℤ
    pub window_size : ℤ
    pub trigger : Trigger
    pub min_availability : Float

  pub record StateMachine : Type 0 where
    pub failure_threshold : ℤ
    pub trigger : Trigger
    pub min_availability : Float
    pub state : State
    pub consecutive : ℤ
    pub window : Option Window
    pub last_success : Time

  unfoldable pub new_with_config : Config → StateMachine
  new_with_config cfg = record {
    failure_threshold = clamp_threshold cfg.failure_threshold;
    trigger = cfg.trigger;
    min_availability = cfg.min_availability;
    state = healthy;
    consecutive = pos 0;
    window =
        if ltb_ℤ (pos 0) cfg.window_size then some (new_window (to_ℕ cfg.window_size)) else none;
    last_success = zero_time;
  }

  -- `New`, with the zero values of the fields that it leaves out.
  unfoldable pub new : ℤ → StateMachine
  unfolding new_with_config
  new ft = new_with_config (record {
    failure_threshold = ft;
    window_size = pos 0;
    trigger = consecutive_trigger;
    min_availability = of_int (pos 0);
  })

  -- The counter, the window and the last success, updated in both modes.
  unfoldable pub record_result : StateMachine → Bool → Time → StateMachine
  record_result m success now = record m {
    consecutive = if success then pos 0 else incr m.consecutive;
    last_success = if success then now else m.last_success;
    window = add_result m.window success;
  }

  unfoldable pub transition_consecutive : StateMachine → Bool → StateMachine × Event
  transition_consecutive m success =
      if success
      then (if is_unhealthy m.state
          then (record m { state = healthy }, recovery_healthy)
          else (m, no_event))
      else (if is_healthy m.state && leb_ℤ m.failure_threshold m.consecutive
          then (record m { state = unhealthy }, alert_unhealthy)
          else (m, no_event))

  unfoldable pub by_availability : StateMachine → Float → StateMachine × Event
  by_availability m avail =
      if is_healthy m.state && lt_float avail m.min_availability
      then (record m { state = unhealthy }, alert_unhealthy)
      else (if is_unhealthy m.state && le_float m.min_availability avail
          then (record m { state = healthy }, recovery_healthy)
          else (m, no_event))

  -- The machine stays as it is until the window is full.
  abbrev pub by_window : StateMachine → Option Window → StateMachine × Event
  by_window m none = (m, no_event)
  by_window m (some w) =
      if full w then by_availability m (availability_of_window go w) else (m, no_event)

  unfoldable pub transition_availability : StateMachine → StateMachine × Event
  transition_availability m = by_window m m.window

  abbrev pub transition : Trigger → StateMachine → Bool → StateMachine × Event
  transition availability_trigger m success = transition_availability m
  transition consecutive_trigger m success = transition_consecutive m success

  unfoldable pub observe : StateMachine → Bool → Time → StateMachine × Event
  observe m success now = transition m.trigger (record_result m success now) success

  abbrev pub has_window : StateMachine → Bool
  has_window m = elim m.window [ none ↦ false | some w ↦ true ]

  -- `Availability` of the machine: 100 without a window.
  abbrev pub window_availability : Option Window → Float
  window_availability none = of_int (pos 100)
  window_availability (some w) = availability_of_window go w

  unfoldable pub availability : StateMachine → Float
  availability m = window_availability m.window

  -- A run of checks, each with its result and the instant of its observation, and the events.
  unfoldable pub observe_all : StateMachine → List (Bool × Time) → StateMachine × List Event
  observe_all m [] = (m, [])
  observe_all m ((b, now) ∷ rs) =
      let (m', ev) = observe m b now in let (m'', evs) = observe_all m' rs in (m'', ev ∷ evs)
