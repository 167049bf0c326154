-- ===== src/Monitor.antt =====
-- Package monitor (internal/monitor): the rolling window, the alert state machine, the bounded
-- history and the registry of units.
pub mod Window
pub mod StateMachine
pub mod History
pub mod Registry
