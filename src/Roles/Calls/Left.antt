-- ===== src/Roles/Calls/Left.antt =====
-- The calls that a runCheck (internal/roles) has left.
use healthd.Common.{ℕ}
use healthd.Platform.{Platform}
use healthd.Roles.Calls.{
  Phase, waiting, returned, before_observe, before_update, before_record_check, before_record_speed,
  before_log_snapshot, before_dispatch,
}

module _ (go : Platform) where
  abbrev pub calls_left : {E : Type 0} → Phase go E → ℕ
  calls_left waiting = 0
  calls_left returned = 0
  calls_left (before_observe c) = 6
  calls_left (before_update c ev) = 5
  calls_left (before_record_check c ev) = 4
  calls_left (before_record_speed c ev) = 3
  calls_left (before_log_snapshot c ev) = 2
  calls_left (before_dispatch c ev) = 1
