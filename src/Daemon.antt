-- ===== src/Daemon.antt =====
-- cmd/healthd/main.go, up to the start of the roles: buildChannels, monitorConfig, buildRoles and the
-- first half of run. A channel and a role are the arguments that their constructors get; the map of the
-- roles is a list in the order of the assignments. `getenv` is os.Getenv. The goroutines that run the
-- roles are in Daemon/Supervisor.antt.
pub mod Durations
pub mod Supervisor
pub mod Channels
pub mod Startup
use text.Mathlib.Text.{◌==◌}
use healthd.Common.{
  ℕ, String, Bool, true, false, ◌||◌, List, [], ◌∷◌, ◌++◌, Option, none, some, if◌then◌else◌,
}
use healthd.Common.Int.{ℤ, mul_int}
use healthd.Platform.{Platform}
use healthd.Config.{
  channel_console, channel_webhook, channel_email, channel_smsgate, trigger_availability, Channel,
  MonitorParams, PingTarget, UrlTarget, Config,
}
use healthd.Config.Error.{ConfigError, unknown_type, Result, ok, err, ◌>>=◌}
use healthd.Config.Load.{load}
use healthd.Monitor.StateMachine as Machine
use healthd.Monitor.StateMachine.{Trigger, consecutive_trigger, availability_trigger}
use healthd.Roles.Units.{RoleTarget, Fleet, new_fleet}
use healthd.Roles.MessageHandler.{Handler, ping_handler, summary_handler}

-- `time.Duration(n) * time.Millisecond` and `* time.Second`, in nanoseconds
abbrev pub milliseconds : ℤ → ℤ
milliseconds n = mul_int n 1000000

abbrev pub seconds : ℤ → ℤ
seconds n = mul_int n 1000000000

pub data BuiltChannel : Type 0 where
  console_channel : BuiltChannel
  webhook_channel : String → ℤ → BuiltChannel
  email_channel : String → ℤ → String → List String → String → String → BuiltChannel
  smsgate_channel : String → String → String → List String → ℤ → BuiltChannel

-- The `switch` on the type of the channel `name`.
unfoldable pub build_channel : (String → String) → String → Channel → Result BuiltChannel
build_channel getenv name ch =
    if ch.kind == channel_console
    then ok console_channel
    else (if ch.kind == channel_webhook
        then ok (webhook_channel ch.url (milliseconds ch.timeout_ms))
        else (if ch.kind == channel_email
            then ok (
                email_channel ch.smtp_host ch.port ch.from ch.to ch.username
                  (getenv ch.password_env))
            else (if ch.kind == channel_smsgate
                then ok (
                    smsgate_channel ch.base_url ch.username (getenv ch.password_env) ch.recipients
                      (milliseconds ch.timeout_ms))
                else err (unknown_type name ch.kind))))

unfoldable pub build_channels :
    (String → String) → List (String × Channel) → Result (List (String × BuiltChannel))
unfolding build_channel
build_channels getenv [] = ok []
build_channels getenv ((name, ch) ∷ chs) = do
  built ← build_channel getenv name ch
  rest ← build_channels getenv chs
  ok ((name, built) ∷ rest)

module _ (go : Platform) where
  open go use {Float}

  unfoldable pub monitor_config : String → ℤ → ℤ → Float → Machine.Config go
  monitor_config trigger window_size failure_threshold min_availability = record {
    failure_threshold = failure_threshold;
    window_size = window_size;
    trigger = if trigger == trigger_availability then availability_trigger else consecutive_trigger;
    min_availability = min_availability;
  }

  abbrev pub params_target : String → Bool → MonitorParams go → RoleTarget go
  params_target address insecure p = record {
    address = address;
    interval = seconds p.interval_s;
    timeout = milliseconds p.timeout_ms;
    channels = p.notify;
    mon = monitor_config p.trigger p.window_size p.failure_threshold p.min_availability;
    insecure = insecure;
  }

  -- A ping target has no InsecureSkipVerify.
  abbrev pub role_ping_targets : List (PingTarget go) → List (RoleTarget go)
  role_ping_targets [] = []
  role_ping_targets (t ∷ ts) = params_target t.target false t.params ∷ role_ping_targets ts

  abbrev pub role_url_targets : List (UrlTarget go) → List (RoleTarget go)
  role_url_targets [] = []
  role_url_targets (t ∷ ts) =
      params_target t.url t.params.insecure_skip_verify t.params ∷ role_url_targets ts

  pub data ActiveRole : Type 0 where
    tcp_listener : String → ℤ → List Handler → ActiveRole
    ping_monitor url_monitor : List (RoleTarget go) → ActiveRole
    internet_check : List String → ℤ → ℤ → Machine.Config go → List String → Bool → ActiveRole
    speed_check : String → ℤ → Float → Machine.Config go → List String → ActiveRole
    summary_reporter : ℤ → ActiveRole

  unfoldable pub is_monitoring : Config go → Bool
  is_monitoring c =
      c.roles.ping_monitor.enabled
      || (c.roles.url_monitor.enabled
          || (c.roles.internet_check.enabled || c.roles.speed_check.enabled))

  -- `if enabled { active[name] = role }`
  abbrev pub activate :
      Bool → String → ActiveRole → List (String × ActiveRole) → List (String × ActiveRole)
  activate true name r rest = (name, r) ∷ rest
  activate false name r rest = rest

  abbrev pub pong_handlers : Bool → List Handler
  pong_handlers monitoring =
      if monitoring then ping_handler ∷ summary_handler ∷ [] else ping_handler ∷ []

  unfoldable pub build_roles : Config go → List (String × ActiveRole)
  unfolding is_monitoring monitor_config
  build_roles c =
      let pong = c.roles.pong_server in
      let ic = c.roles.internet_check in
      let sc = c.roles.speed_check in
      activate pong.enabled "pong_server"
        (tcp_listener pong.listen (milliseconds pong.read_timeout_ms)
          (pong_handlers (is_monitoring c)))
        (activate c.roles.ping_monitor.enabled "ping_monitor"
          (ping_monitor (role_ping_targets c.roles.ping_monitor.targets))
          (activate c.roles.url_monitor.enabled "url_monitor"
            (url_monitor (role_url_targets c.roles.url_monitor.targets))
            (activate ic.enabled "internet_check"
              (internet_check ic.sites (seconds ic.interval_s) (milliseconds ic.timeout_ms)
                (monitor_config ic.trigger ic.window_size ic.failure_threshold ic.min_availability)
                ic.notify ic.insecure_skip_verify)
              (activate sc.enabled "speed_check"
                (speed_check sc.binary (seconds sc.interval_s) sc.threshold_mbps
                  (monitor_config sc.trigger sc.window_size sc.failure_threshold
                    sc.min_availability)
                  sc.notify)
                (activate (is_monitoring c) "summary_reporter"
                  (summary_reporter (seconds c.summary_interval_s)) [])))))

  -- The units of the roles that buildRoles constructs, and the registry that these share.
  abbrev pub when_enabled {ℓ} : {A : Type ℓ} → Bool → A → Option A
  when_enabled true a = some a
  when_enabled false a = none

  abbrev pub enabled_targets : Bool → List (RoleTarget go) → List (RoleTarget go)
  enabled_targets true ts = ts
  enabled_targets false ts = []

  unfoldable pub build_units : Config go → Fleet go
  unfolding new_fleet monitor_config
  build_units c =
      let ic = c.roles.internet_check in
      let sc = c.roles.speed_check in
      new_fleet go
        (enabled_targets c.roles.ping_monitor.enabled
          (role_ping_targets c.roles.ping_monitor.targets))
        (enabled_targets c.roles.url_monitor.enabled (role_url_targets c.roles.url_monitor.targets))
        (when_enabled ic.enabled (
          seconds ic.interval_s,
          milliseconds ic.timeout_ms,
          monitor_config ic.trigger ic.window_size ic.failure_threshold ic.min_availability,
          ic.notify,
        ))
        (when_enabled sc.enabled (
          seconds sc.interval_s,
          monitor_config sc.trigger sc.window_size sc.failure_threshold sc.min_availability,
          sc.notify,
        ))

  pub data Started : Type 0 where
    config_failed channels_failed : ConfigError → Started
    no_roles : Started
    started : List (String × BuiltChannel) → List (String × ActiveRole) → Started

  abbrev pub start_roles : List (String × BuiltChannel) → List (String × ActiveRole) → Started
  start_roles channels [] = no_roles
  start_roles channels (r ∷ rs) = started channels (r ∷ rs)

  abbrev pub start_channels : Result (List (String × BuiltChannel)) → Config go → Started
  start_channels (err e) c = channels_failed e
  start_channels (ok channels) c = start_roles channels (build_roles c)

  abbrev pub start_config : (String → String) → Result (Config go) → Started
  start_config getenv (err e) = config_failed e
  start_config getenv (ok c) = start_channels (build_channels getenv c.channels) c

  -- `run` up to the start of the roles, from the decoded configuration on.
  unfoldable pub start :
      (String → Option (String × String)) → (String → String) → Config go → Started
  unfolding load build_channels build_roles
  start parse_url getenv decoded = start_config getenv (load go parse_url decoded)
