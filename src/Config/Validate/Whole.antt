-- ===== src/Config/Validate/Whole.antt =====
-- Validate (internal/config/config.go) against the condition that it decides.
use text.Mathlib.Text.{◌==◌}
use healthd.Common.{String, ◌≡◌, refl, Bool, true, false, not, ◌&&◌, List, Option}
use healthd.Common.Int.{pos, ltb_ℤ}
use healthd.Platform.{Platform}
use healthd.Config.{
  Channel, PongServer, PingMonitor, UrlMonitor, InternetCheck, SpeedCheck, Roles, Config,
}
use healthd.Config.Error.{Result, is_ok, is_ok->>, is_ok-reject, when}
use healthd.Config.Validate.{
  validate_pong, validate_ping, validate_url, validate_internet, validate_speed, validate,
}
use healthd.Config.Validate.Channels.{
  is_filled, not-is_empty, all_valid, validate_channels-all_valid, all_present,
  check_notify-all_present,
}
use healthd.Config.Validate.Targets.{
  trigger_valid, validate_trigger-valid, positive-not, ping_targets_sound, url_targets_sound,
  validate_ping_targets_sound, validate_url_targets_sound,
}

-- What is required of an enabled role.
abbrev pub implies : Bool → Bool → Bool
implies true b = b
implies false b = true

is_ok-when : (b : Bool) (m : Result (Unit {0})) → is_ok (when b m) ≡ implies b (is_ok m)
is_ok-when true m = refl
is_ok-when false m = refl

module _ (go : Platform) (parse_url : String → Option (String × String)) where
  open go use {of_int, le_float}

  abbrev pub pong_sound : PongServer → Bool
  pong_sound r = implies r.enabled (not (r.listen == "") && ltb_ℤ (pos 0) r.read_timeout_ms)

  abbrev pub ping_sound : List (String × Channel) → PingMonitor go → Bool
  ping_sound channels r =
      implies r.enabled (is_filled r.targets && ping_targets_sound go parse_url channels r.targets)

  abbrev pub url_sound : List (String × Channel) → UrlMonitor go → Bool
  url_sound channels r =
      implies r.enabled (is_filled r.targets && url_targets_sound go parse_url channels r.targets)

  abbrev pub internet_sound : List (String × Channel) → InternetCheck go → Bool
  internet_sound channels r = implies r.enabled (
      is_filled r.sites
      && (ltb_ℤ (pos 0) r.interval_s
          && (ltb_ℤ (pos 0) r.timeout_ms
              && (not (ltb_ℤ r.failure_threshold (pos 1))
                  && (trigger_valid go parse_url r.trigger r.window_size r.min_availability
                      && all_present channels r.notify)))))

  abbrev pub speed_sound : List (String × Channel) → SpeedCheck go → Bool
  speed_sound channels r = implies r.enabled (
      not (le_float r.threshold_mbps (of_int (pos 0)))
      && (ltb_ℤ (pos 0) r.interval_s
          && (not (ltb_ℤ r.failure_threshold (pos 1))
              && (trigger_valid go parse_url r.trigger r.window_size r.min_availability
                  && all_present channels r.notify))))

  abbrev pub roles_sound : List (String × Channel) → Roles go → Bool
  roles_sound channels r =
      pong_sound r.pong_server
      && (ping_sound channels r.ping_monitor
          && (url_sound channels r.url_monitor
              && (internet_sound channels r.internet_check && speed_sound channels r.speed_check)))

  abbrev pub config_sound : Config go → Bool
  config_sound c =
      not (ltb_ℤ c.retry.max_attempts (pos 1))
      && (not (ltb_ℤ c.retry.base_delay_ms (pos 0))
          && (ltb_ℤ (pos 0) c.summary_interval_s
              && (all_valid c.channels && roles_sound c.channels c.roles)))

  validate_pong_sound : (r : PongServer) → is_ok (validate_pong r) ≡ pong_sound r
  unfolding validate_pong
  validate_pong_sound r = simp (is_ok-when, is_ok->>, is_ok-reject, positive-not) refl

  validate_ping_sound :
      (channels : List (String × Channel)) (r : PingMonitor go)
      → is_ok (validate_ping go parse_url channels r) ≡ ping_sound channels r
  unfolding validate_ping
  validate_ping_sound channels r =
      simp (is_ok-when, is_ok->>, is_ok-reject, not-is_empty, validate_ping_targets_sound) refl

  validate_url_sound :
      (channels : List (String × Channel)) (r : UrlMonitor go)
      → is_ok (validate_url go parse_url channels r) ≡ url_sound channels r
  unfolding validate_url
  validate_url_sound channels r =
      simp (is_ok-when, is_ok->>, is_ok-reject, not-is_empty, validate_url_targets_sound) refl

  validate_internet_sound :
      (channels : List (String × Channel)) (r : InternetCheck go)
      → is_ok (validate_internet go parse_url channels r) ≡ internet_sound channels r
  unfolding validate_internet
  validate_internet_sound channels r =
      simp
        (
          is_ok-when, is_ok->>, is_ok-reject, not-is_empty, positive-not, validate_trigger-valid,
          check_notify-all_present,
        )
        refl

  validate_speed_sound :
      (channels : List (String × Channel)) (r : SpeedCheck go)
      → is_ok (validate_speed go parse_url channels r) ≡ speed_sound channels r
  unfolding validate_speed
  validate_speed_sound channels r =
      simp
        (
          is_ok-when, is_ok->>, is_ok-reject, positive-not, validate_trigger-valid,
          check_notify-all_present,
        )
        refl

  -- Validate accepts a configuration exactly if it is sound: at least one attempt, no negative delay, a
  -- positive summary interval, each channel of a known type with what that type needs, and for each
  -- enabled role its required fields, positive times, a threshold of 1 at least, a known trigger with a
  -- fitting window and minimum, and only channels that exist.
  pub validate_sound : (c : Config go) → is_ok (validate go parse_url c) ≡ config_sound c
  unfolding validate
  validate_sound c =
      simp
        (
          is_ok->>, is_ok-reject, positive-not, validate_channels-all_valid, validate_pong_sound,
          validate_ping_sound, validate_url_sound, validate_internet_sound, validate_speed_sound,
        )
        refl
