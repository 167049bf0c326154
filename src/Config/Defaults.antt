-- ===== src/Config/Defaults.antt =====
-- applyDefaults, applyParamDefaults and applyTriggerDefaults of internal/config/config.go.
pub mod Laws
use text.Mathlib.Text.{◌==◌}
use healthd.Common.{String, ◌&&◌, ◌||◌, List, [], ◌∷◌, if◌then◌else◌}
use healthd.Common.Int.{ℤ, pos, eqb_ℤ}
use healthd.Platform.{Platform}
use healthd.Config.Resolve.{or_int, or_string}
use healthd.Config.{
  channel_webhook, channel_smsgate, trigger_consecutive, default_window_size,
  default_summary_interval_s, Retry, Channel, MonitorParams, PingTarget, PingMonitor, UrlTarget,
  UrlMonitor, InternetCheck, SpeedCheck, Roles, Config,
}

-- The two fields that applyTriggerDefaults fills.
abbrev pub trigger_default : String → String
trigger_default t = or_string t trigger_consecutive

abbrev pub window_default : ℤ → ℤ
window_default n = or_int n (pos default_window_size)

abbrev pub channel_defaults : Channel → Channel
channel_defaults ch =
    if (ch.kind == channel_webhook || ch.kind == channel_smsgate) && eqb_ℤ ch.timeout_ms (pos 0)
    then record ch { timeout_ms = pos 5000 }
    else ch

abbrev pub channels_defaults : List (String × Channel) → List (String × Channel)
channels_defaults [] = []
channels_defaults ((n, ch) ∷ chs) = (n, channel_defaults ch) ∷ channels_defaults chs

abbrev pub retry_defaults : Retry → Retry
retry_defaults r = record {
  max_attempts = or_int r.max_attempts (pos 3);
  base_delay_ms = or_int r.base_delay_ms (pos 500);
}

module _ (go : Platform) where
  abbrev pub param_defaults : MonitorParams go → MonitorParams go
  param_defaults p = record p {
    failure_threshold = or_int p.failure_threshold (pos 1);
    trigger = trigger_default p.trigger;
    window_size = window_default p.window_size;
  }

  abbrev pub ping_defaults : List (PingTarget go) → List (PingTarget go)
  ping_defaults [] = []
  ping_defaults (t ∷ ts) = record t { params = param_defaults t.params } ∷ ping_defaults ts

  abbrev pub url_defaults : List (UrlTarget go) → List (UrlTarget go)
  url_defaults [] = []
  url_defaults (t ∷ ts) = record t { params = param_defaults t.params } ∷ url_defaults ts

  abbrev pub internet_defaults : InternetCheck go → InternetCheck go
  internet_defaults r = record r {
    failure_threshold = or_int r.failure_threshold (pos 1);
    trigger = trigger_default r.trigger;
    window_size = window_default r.window_size;
  }

  abbrev pub speed_defaults : SpeedCheck go → SpeedCheck go
  speed_defaults r = record r {
    binary = or_string r.binary "speedtest";
    failure_threshold = or_int r.failure_threshold (pos 1);
    trigger = trigger_default r.trigger;
    window_size = window_default r.window_size;
  }

  abbrev pub roles_defaults : Roles go → Roles go
  roles_defaults r = record r {
    ping_monitor = record (r.ping_monitor) { targets = ping_defaults r.ping_monitor.targets };
    url_monitor = record (r.url_monitor) { targets = url_defaults r.url_monitor.targets };
    internet_check = internet_defaults r.internet_check;
    speed_check = speed_defaults r.speed_check;
  }

  unfoldable pub apply_defaults : Config go → Config go
  apply_defaults c = record c {
    retry = retry_defaults c.retry;
    summary_interval_s = or_int c.summary_interval_s (pos default_summary_interval_s);
    channels = channels_defaults c.channels;
    roles = roles_defaults c.roles;
  }
