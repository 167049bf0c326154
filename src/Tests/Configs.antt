-- ===== src/Tests/Configs.antt =====
-- Concrete configurations for internal/config/config.go.
use healthd.Common.{List, String, ◌≡◌, refl, true, false, [], ◌∷◌, Option, none}
use healthd.Common.Int.{pos}
use healthd.Common.Assoc.{lookup}
use healthd.Platform.Exact.{exact, Fraction}
use healthd.Config.{MonitorParams, PingTarget, Channel, Config}
use healthd.Config.Error.{ok, is_ok, target}
use healthd.Config.Resolve.{ProfileRef, resolve_profile_refs, resolve_profiles}
use healthd.Config.Resolve.Refs.{AllBecome, resolve_profile_refs-ResolvesTo}
use healthd.Config.Defaults.{apply_defaults}
use healthd.Config.Validate.{validate}
use healthd.Config.Validate.Whole.{config_sound, validate_sound}
use healthd.Config.Load.{load}
use healthd.Config.Load.Loads.{Loads, load-Loads}
use healthd.Config.Load.Sound.{load_sound, load-windows, all_windowed, ping_params}

abbrev zero_float : Fraction
zero_float = record { num = pos 0; den = 1 }

abbrev unset : MonitorParams exact
unset = record {
  interval_s = pos 0;
  timeout_ms = pos 0;
  failure_threshold = pos 0;
  trigger = "";
  window_size = pos 0;
  min_availability = zero_float;
  notify = [];
  insecure_skip_verify = false;
}

abbrev fast : MonitorParams exact
fast = record unset { interval_s = pos 5; timeout_ms = pos 900; notify = "console" ∷ [] }

abbrev strict : MonitorParams exact
strict = record unset { interval_s = pos 60; failure_threshold = pos 4 }

abbrev console : Channel
console = record {
  kind = "console";
  url = "";
  smtp_host = "";
  port = pos 0;
  from = "";
  to = [];
  base_url = "";
  recipients = [];
  username = "";
  password_env = "";
  timeout_ms = pos 0;
}

abbrev hook : Channel
hook = record console { kind = "webhook"; url = "http://hooks.example/a" }

abbrev router : PingTarget exact
router = record {
  target = "192.0.2.1";
  profile = "";
  params = record unset { failure_threshold = pos 3 };
}

abbrev pub written : Config exact
written = record {
  retry = record { max_attempts = pos 0; base_delay_ms = pos 0 };
  summary_interval_s = pos 0;
  profiles = ("fast", fast) ∷ ("strict", strict) ∷ [];
  channels = ("console", console) ∷ ("hook", hook) ∷ [];
  roles = record {
    pong_server = record { enabled = false; listen = ""; read_timeout_ms = pos 0 };
    ping_monitor = record { enabled = true; default_profile = "fast"; targets = router ∷ [] };
    url_monitor = record { enabled = false; default_profile = ""; targets = [] };
    internet_check = record {
      enabled = false;
      sites = [];
      interval_s = pos 0;
      timeout_ms = pos 0;
      failure_threshold = pos 0;
      trigger = "";
      window_size = pos 0;
      min_availability = zero_float;
      notify = [];
      insecure_skip_verify = false;
    };
    speed_check = record {
      enabled = false;
      interval_s = pos 0;
      threshold_mbps = zero_float;
      binary = "";
      failure_threshold = pos 0;
      trigger = "";
      window_size = pos 0;
      min_availability = zero_float;
      notify = [];
    };
  };
}

abbrev pub resolved : Config exact
resolved = record written {
  roles = record (written.roles) {
    ping_monitor = record (written.roles.ping_monitor) {
      targets = record router { params = record fast { failure_threshold = pos 3 } } ∷ [];
    };
  };
}

abbrev pub parse_nothing : String → Option (String × String)
parse_nothing raw = none

pub written-loads : load exact parse_nothing written ≡ ok (apply_defaults exact resolved)
unfolding load apply_defaults lookup
written-loads = refl

load_sound_example :
    (r : Config exact) × (resolve_profiles exact written ≡ ok r)
    × (apply_defaults exact resolved ≡ apply_defaults exact r)
    × (config_sound exact parse_nothing (apply_defaults exact resolved) ≡ true)
    × (apply_defaults exact (apply_defaults exact resolved) ≡ apply_defaults exact resolved)
load_sound_example =
    load_sound exact parse_nothing written (apply_defaults exact resolved) written-loads

load-windows_example :
    (all_windowed exact parse_nothing
        (ping_params exact parse_nothing (apply_defaults exact resolved).roles.ping_monitor.targets)
      ≡ true)
    × (true ≡ true)
unfolding apply_defaults
load-windows_example =
    load-windows exact parse_nothing written (apply_defaults exact resolved) written-loads

validate_sound_example :
    is_ok (validate exact parse_nothing (apply_defaults exact resolved))
    ≡ config_sound exact parse_nothing (apply_defaults exact resolved)
validate_sound_example = validate_sound exact parse_nothing (apply_defaults exact resolved)

abbrev named_strict : ProfileRef exact
named_strict = record {
  who = target "ping_monitor" 0 "192.0.2.1";
  profile = "strict";
  params = unset;
}

resolve_profile_refs-ResolvesTo_example :
    (ps : List (MonitorParams exact)) × (resolve_profile_refs exact written.profiles "ping_monitor"
        "fast"
        (named_strict ∷ [])
      ≡ ok ps)
    × AllBecome exact written.profiles "fast" (named_strict ∷ []) ps
unfolding lookup
resolve_profile_refs-ResolvesTo_example =
    resolve_profile_refs-ResolvesTo exact written.profiles "ping_monitor" "fast" (named_strict ∷ [])

load-Loads_example : Loads exact parse_nothing written true (load exact parse_nothing written)
unfolding lookup
load-Loads_example = load-Loads exact parse_nothing written
