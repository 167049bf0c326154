-- ===== src/Monitor/StateMachine/Consecutive.antt =====
-- The `consecutive` trigger (statemachine.go) against its specification by the failures since the
-- last success.
use healthd.Common.{
  ℕ, suc, ◌+◌, ◌≤◌, ◌<◌, ◌≡◌, refl, ap₂, Bool, true, false, List, [], ◌∷◌, length, arith, leb, ◌==◌,
  if◌then◌else◌,
}
use healthd.Common.Int.{pos, max_int, to_ℕ}
use healthd.Platform.{Platform}
use healthd.Monitor.StateMachine.{
  Event, no_event, alert_unhealthy, recovery_healthy, State, healthy, unhealthy,
  consecutive_trigger, Config, StateMachine, clamp_threshold, new_with_config, record_result,
  transition_consecutive, observe, observe_all,
}
use healthd.Monitor.StateMachine.Fields.{results}

-- The failures since the last success, after a run that begins with `k` of them.
abbrev pub streak : ℕ → List Bool → ℕ
streak k [] = k
streak k (true ∷ bs) = streak 0 bs
streak k (false ∷ bs) = streak (suc k) bs

-- The state after `k` failures in a row.
abbrev pub state_of : ℕ → ℕ → State
state_of threshold k = if leb threshold k then unhealthy else healthy

-- The event of one check after `k` failures in a row.
abbrev pub event_of : ℕ → ℕ → Bool → Event
event_of threshold k true = if leb threshold k then recovery_healthy else no_event
event_of threshold k false = if suc k == threshold then alert_unhealthy else no_event

abbrev pub events_of : ℕ → ℕ → List Bool → List Event
events_of threshold k [] = []
events_of threshold k (true ∷ bs) = event_of threshold k true ∷ events_of threshold 0 bs
events_of threshold k (false ∷ bs) = event_of threshold k false ∷ events_of threshold (suc k) bs

module _ (go : Platform) where
  open go use {Time}

  -- The machine is in the consecutive mode after `k` failures in a row.
  pub record After (threshold k : ℕ) (m : StateMachine go) : Type 0 where
    pub mode : m.trigger ≡ consecutive_trigger
    pub limit : m.failure_threshold ≡ pos threshold
    pub positive : 0 < threshold
    pub counted : m.consecutive ≡ pos k
    pub stated : m.state ≡ state_of threshold k

  pub observe-After_success :
      {t k : ℕ} {m : StateMachine go} (now : Time)
      → After t k m
      → let (m', ev) = observe go m true now in After t 0 m' × (ev ≡ event_of t k true)
  unfolding observe record_result transition_consecutive
  observe-After_success {t} {k} {m} now a = ground arith

  pub observe-After_failure :
      {t k : ℕ} {m : StateMachine go} (now : Time)
      → k < max_int
      → After t k m
      → let (m', ev) = observe go m false now in After t (suc k) m' × (ev ≡ event_of t k false)
  unfolding observe record_result transition_consecutive
  observe-After_failure {t} {k} {m} now h a = ground arith

  pub observe_all-After :
      {t : ℕ} (k : ℕ) (m : StateMachine go) (rs : List (Bool × Time))
      → k + length rs ≤ max_int
      → After t k m
      → let (m', evs) = observe_all go m rs in
        After t (streak k (results go rs)) m' × (evs ≡ events_of t k (results go rs))
  unfolding observe_all
  observe_all-After k m [] h a = (a, refl)
  observe_all-After k m ((true, now) ∷ rs) h a =
      let (a', e) = observe-After_success now a in
      let (a'', es) = observe_all-After 0 (observe go m true now).0 rs (omega arith) a' in
      (a'', ap₂ ◌∷◌ e es)
  observe_all-After k m ((false, now) ∷ rs) h a =
      let (a', e) = observe-After_failure now (omega arith) a in
      let (a'', es) = observe_all-After (suc k) (observe go m false now).0 rs (omega arith) a' in
      (a'', ap₂ ◌∷◌ e es)

  new_with_config-After :
      (cfg : Config go)
      → cfg.trigger ≡ consecutive_trigger
      → After (to_ℕ (clamp_threshold cfg.failure_threshold)) 0 (new_with_config go cfg)
  unfolding new_with_config
  new_with_config-After cfg h = ground arith

  -- In the consecutive mode a machine configured with the threshold t, clamped to 1 at least, has after
  -- any run of checks the count of failures since the last success, is unhealthy exactly if that count
  -- has reached t, and has alerted at each check that made it t and recovered at each success that ended
  -- a streak of t or more. (The run is shorter than 2^63 checks, so that the counter does not wrap.)
  pub observe_all-streak :
      (cfg : Config go) (rs : List (Bool × Time))
      → cfg.trigger ≡ consecutive_trigger
      → length rs ≤ max_int
      → let t = to_ℕ (clamp_threshold cfg.failure_threshold) in
        let (m, evs) = observe_all go (new_with_config go cfg) rs in
        let k = streak 0 (results go rs) in
        (m.consecutive ≡ pos k) × (m.state ≡ state_of t k) × (evs ≡ events_of t 0 (results go rs))
  observe_all-streak cfg rs h fits =
      let (a, es) =
        observe_all-After 0 (new_with_config go cfg) rs (omega arith)
          (new_with_config-After cfg h) in
      (a.counted, a.stated, es)
