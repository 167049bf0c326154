-- ===== src/Config.antt =====
-- Package config (internal/config/config.go): the data of a configuration and its loading. A Go map
-- is an association list, in the order in which a loop over the map visits it. The file and its JSON
-- are not modelled: Load begins with the decoded configuration.
pub mod Error
pub mod Resolve
pub mod Defaults
pub mod Validate
pub mod Load
use healthd.Common.{ℕ, String, Bool, List}
use healthd.Common.Int.{ℤ}
use healthd.Platform.{Platform}

abbrev pub channel_console : String
channel_console = "console"

abbrev pub channel_webhook : String
channel_webhook = "webhook"

abbrev pub channel_email : String
channel_email = "email"

abbrev pub channel_smsgate : String
channel_smsgate = "smsgate"

abbrev pub trigger_consecutive : String
trigger_consecutive = "consecutive"

abbrev pub trigger_availability : String
trigger_availability = "availability"

abbrev pub default_window_size : ℕ
default_window_size = 20

abbrev pub default_summary_interval_s : ℕ
default_summary_interval_s = 900

pub record Retry : Type 0 where
  pub max_attempts : ℤ
  pub base_delay_ms : ℤ

-- The field `Type` is `kind`.
pub record Channel : Type 0 where
  pub kind : String
  pub url : String
  pub smtp_host : String
  pub port : ℤ
  pub from : String
  pub to : List String
  pub base_url : String
  pub recipients : List String
  pub username : String
  pub password_env : String
  pub timeout_ms : ℤ

pub record PongServer : Type 0 where
  pub enabled : Bool
  pub listen : String
  pub read_timeout_ms : ℤ

module _ (go : Platform) where
  open go use {Float}

  -- A Profile is its MonitorParams.
  pub record MonitorParams : Type 0 where
    pub interval_s : ℤ
    pub timeout_ms : ℤ
    pub failure_threshold : ℤ
    pub trigger : String
    pub window_size : ℤ
    pub min_availability : Float
    pub notify : List String
    pub insecure_skip_verify : Bool

  pub record PingTarget : Type 0 where
    pub target : String
    pub profile : String
    pub params : MonitorParams

  pub record PingMonitor : Type 0 where
    pub enabled : Bool
    pub default_profile : String
    pub targets : List PingTarget

  pub record UrlTarget : Type 0 where
    pub url : String
    pub profile : String
    pub params : MonitorParams

  pub record UrlMonitor : Type 0 where
    pub enabled : Bool
    pub default_profile : String
    pub targets : List UrlTarget

  pub record InternetCheck : Type 0 where
    pub enabled : Bool
    pub sites : List String
    pub interval_s : ℤ
    pub timeout_ms : ℤ
    pub failure_threshold : ℤ
    pub trigger : String
    pub window_size : ℤ
    pub min_availability : Float
    pub notify : List String
    pub insecure_skip_verify : Bool

  pub record SpeedCheck : Type 0 where
    pub enabled : Bool
    pub interval_s : ℤ
    pub threshold_mbps : Float
    pub binary : String
    pub failure_threshold : ℤ
    pub trigger : String
    pub window_size : ℤ
    pub min_availability : Float
    pub notify : List String

  pub record Roles : Type 0 where
    pub pong_server : PongServer
    pub ping_monitor : PingMonitor
    pub url_monitor : UrlMonitor
    pub internet_check : InternetCheck
    pub speed_check : SpeedCheck

  pub record Config : Type 0 where
    pub retry : Retry
    pub summary_interval_s : ℤ
    pub profiles : List (String × MonitorParams)
    pub channels : List (String × Channel)
    pub roles : Roles
