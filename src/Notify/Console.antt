-- ===== src/Notify/Console.antt =====
-- internal/notify/console.go. The logger is what it logs: `logged` is one call of LogAttrs.
use text.Mathlib.Text.{◌==◌}
use healthd.Common.{String, if◌then◌else◌}
use healthd.Common.Int.{ℤ}
use healthd.Platform.{Platform}
use healthd.Notify.Dispatcher.{Outcome, delivered}
use healthd.Notify.{Alert}

pub data Level : Type 0 where
  level_info level_warn : Level

module _ (go : Platform) where
  pub record LogLine : Type 0 where
    pub level : Level
    pub message : String
    pub role : String
    pub state : String
    pub timestamp : go.Time
    pub detail : String
    pub consecutive_failures : ℤ

  -- The line that is logged, and what Notify returns.
  unfoldable pub console_notify : Alert go → LogLine × Outcome
  console_notify alert = (
    record {
      level = if alert.state == "UNHEALTHY" then level_warn else level_info;
      message = "alert";
      role = alert.role;
      state = alert.state;
      timestamp = alert.timestamp;
      detail = alert.detail;
      consecutive_failures = alert.consecutive_failures;
    },
    delivered,
  )
