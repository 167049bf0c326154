-- ===== src/Config/Validate.antt =====
-- Validate and its helpers of internal/config/config.go. `parse_url` is url.Parse: the scheme and the
-- host of a text, or none if it is refused.
pub mod Channels
pub mod Targets
pub mod Whole
use text.Mathlib.Text.{◌==◌}
use healthd.Common.{
  ℕ, suc, String, Bool, true, false, not, ◌&&◌, ◌||◌, List, [], ◌∷◌, Option, none, some, is_present,
  if◌then◌else◌,
}
use healthd.Common.Int.{ℤ, pos, ltb_ℤ, leb_ℤ}
use healthd.Common.Assoc.{lookup}
use healthd.Platform.{Platform}
use healthd.Config.Error.{
  Who, role, target, ConfigError, max_attempts_below_1, base_delay_negative,
  summary_interval_not_positive, url_required, smtp_host_required, port_not_positive, from_required,
  to_empty, password_env_required, base_url_required, username_required, recipients_empty,
  channel_timeout_not_positive, type_required, unknown_type, listen_required,
  read_timeout_not_positive, targets_empty, address_required, interval_not_positive,
  timeout_not_positive, failure_threshold_below_1, sites_empty, threshold_not_positive,
  window_negative, window_not_positive, min_availability_out_of_range, unknown_trigger,
  undefined_channel, invalid_url, url_scheme, url_host, Result, ok, err, ◌>>◌, reject, when,
}
use healthd.Config.{
  channel_console, channel_webhook, channel_email, channel_smsgate, trigger_consecutive,
  trigger_availability, Channel, PongServer, PingTarget, PingMonitor, UrlTarget, UrlMonitor,
  InternetCheck, SpeedCheck, Roles, Config,
}

-- `len(xs) == 0`
abbrev pub is_empty {ℓ} : {A : Type ℓ} → List A → Bool
is_empty [] = true
is_empty (x ∷ xs) = false

-- `n <= 0`
abbrev pub not_positive : ℤ → Bool
not_positive n = leb_ℤ n (pos 0)

unfoldable pub validate_webhook : String → Channel → Result (Unit {0})
validate_webhook n ch = do
  reject (ch.url == "") (url_required n)
  reject (not_positive ch.timeout_ms) (channel_timeout_not_positive n)

unfoldable pub validate_email : String → Channel → Result (Unit {0})
validate_email n ch = do
  reject (ch.smtp_host == "") (smtp_host_required n)
  reject (not_positive ch.port) (port_not_positive n)
  reject (ch.from == "") (from_required n)
  reject (is_empty ch.to) (to_empty n)
  reject (ch.password_env == "") (password_env_required n)

unfoldable pub validate_smsgate : String → Channel → Result (Unit {0})
validate_smsgate n ch = do
  reject (ch.base_url == "") (base_url_required n)
  reject (ch.username == "") (username_required n)
  reject (ch.password_env == "") (password_env_required n)
  reject (is_empty ch.recipients) (recipients_empty n)
  reject (not_positive ch.timeout_ms) (channel_timeout_not_positive n)

unfoldable pub validate_channel : String → Channel → Result (Unit {0})
unfolding validate_webhook validate_email validate_smsgate
validate_channel n ch =
    if ch.kind == channel_console
    then ok tt
    else (if ch.kind == channel_webhook
        then validate_webhook n ch
        else (if ch.kind == channel_email
            then validate_email n ch
            else (if ch.kind == channel_smsgate
                then validate_smsgate n ch
                else (if ch.kind == ""
                    then err (type_required n)
                    else err (unknown_type n ch.kind)))))

unfoldable pub validate_channels : List (String × Channel) → Result (Unit {0})
unfolding validate_channel
validate_channels [] = ok tt
validate_channels ((n, ch) ∷ chs) = do validate_channel n ch; validate_channels chs

-- Every name that a role lists is the name of a channel.
unfoldable pub check_notify : List (String × Channel) → Who → List String → Result (Unit {0})
unfolding lookup
check_notify channels who [] = ok tt
check_notify channels who (n ∷ ns) =
    if is_present (lookup n channels)
    then check_notify channels who ns
    else err (undefined_channel who n)

abbrev pub check_url : Who → Option (String × String) → Result (Unit {0})
check_url who none = err (invalid_url who)
check_url who (some (scheme, host)) = do
  reject (not (scheme == "http") && not (scheme == "https")) (url_scheme who)
  reject (host == "") (url_host who)

unfoldable pub validate_http_url :
    (String → Option (String × String)) → Who → String → Result (Unit {0})
validate_http_url parse_url who raw = check_url who (parse_url raw)

unfoldable pub validate_pong : PongServer → Result (Unit {0})
validate_pong r = when r.enabled (do
  reject (r.listen == "") listen_required
  reject (not_positive r.read_timeout_ms) read_timeout_not_positive)

module _ (go : Platform) (parse_url : String → Option (String × String)) where
  open go use {Float, of_int, lt_float, le_float}

  unfoldable pub validate_trigger : Who → String → ℤ → Float → Result (Unit {0})
  validate_trigger who trigger window_size min_availability =
      if trigger == "" || trigger == trigger_consecutive
      then reject (ltb_ℤ window_size (pos 0)) (window_negative who)
      else (if trigger == trigger_availability
          then (do
            reject (not_positive window_size) (window_not_positive who)
            reject
                (le_float min_availability (of_int (pos 0))
                  || lt_float (of_int (pos 100)) min_availability)
                (min_availability_out_of_range who))
          else err (unknown_trigger who trigger))

  unfoldable pub validate_ping_target :
      List (String × Channel) → Who → PingTarget go → Result (Unit {0})
  unfolding validate_trigger check_notify
  validate_ping_target channels who t = do
    reject (t.target == "") (address_required who)
    reject (not_positive t.params.interval_s) (interval_not_positive who)
    reject (not_positive t.params.timeout_ms) (timeout_not_positive who)
    reject (ltb_ℤ t.params.failure_threshold (pos 1)) (failure_threshold_below_1 who)
    validate_trigger who t.params.trigger t.params.window_size t.params.min_availability
    check_notify channels who t.params.notify

  unfoldable pub validate_ping_targets :
      List (String × Channel) → ℕ → List (PingTarget go) → Result (Unit {0})
  unfolding validate_ping_target
  validate_ping_targets channels i [] = ok tt
  validate_ping_targets channels i (t ∷ ts) = do
    validate_ping_target channels (target "ping_monitor" i t.target) t
    validate_ping_targets channels (suc i) ts

  unfoldable pub validate_ping : List (String × Channel) → PingMonitor go → Result (Unit {0})
  unfolding validate_ping_targets
  validate_ping channels r = when r.enabled (do
    reject (is_empty r.targets) (targets_empty "ping_monitor")
    validate_ping_targets channels 0 r.targets)

  unfoldable pub validate_url_target :
      List (String × Channel) → Who → UrlTarget go → Result (Unit {0})
  unfolding validate_http_url validate_trigger check_notify
  validate_url_target channels who t = do
    reject (t.url == "") (address_required who)
    validate_http_url parse_url who t.url
    reject (not_positive t.params.interval_s) (interval_not_positive who)
    reject (not_positive t.params.timeout_ms) (timeout_not_positive who)
    reject (ltb_ℤ t.params.failure_threshold (pos 1)) (failure_threshold_below_1 who)
    validate_trigger who t.params.trigger t.params.window_size t.params.min_availability
    check_notify channels who t.params.notify

  unfoldable pub validate_url_targets :
      List (String × Channel) → ℕ → List (UrlTarget go) → Result (Unit {0})
  unfolding validate_url_target
  validate_url_targets channels i [] = ok tt
  validate_url_targets channels i (t ∷ ts) = do
    validate_url_target channels (target "url_monitor" i t.url) t
    validate_url_targets channels (suc i) ts

  unfoldable pub validate_url : List (String × Channel) → UrlMonitor go → Result (Unit {0})
  unfolding validate_url_targets
  validate_url channels r = when r.enabled (do
    reject (is_empty r.targets) (targets_empty "url_monitor")
    validate_url_targets channels 0 r.targets)

  unfoldable pub validate_internet : List (String × Channel) → InternetCheck go → Result (Unit {0})
  unfolding validate_trigger check_notify
  validate_internet channels r =
      let who = role "internet_check" in
      when r.enabled (do
        reject (is_empty r.sites) (sites_empty who)
        reject (not_positive r.interval_s) (interval_not_positive who)
        reject (not_positive r.timeout_ms) (timeout_not_positive who)
        reject (ltb_ℤ r.failure_threshold (pos 1)) (failure_threshold_below_1 who)
        validate_trigger who r.trigger r.window_size r.min_availability
        check_notify channels who r.notify)

  unfoldable pub validate_speed : List (String × Channel) → SpeedCheck go → Result (Unit {0})
  unfolding validate_trigger check_notify
  validate_speed channels r =
      let who = role "speed_check" in
      when r.enabled (do
        reject (le_float r.threshold_mbps (of_int (pos 0))) (threshold_not_positive who)
        reject (not_positive r.interval_s) (interval_not_positive who)
        reject (ltb_ℤ r.failure_threshold (pos 1)) (failure_threshold_below_1 who)
        validate_trigger who r.trigger r.window_size r.min_availability
        check_notify channels who r.notify)

  unfoldable pub validate_roles : List (String × Channel) → Roles go → Result (Unit {0})
  unfolding validate_pong validate_ping validate_url validate_internet validate_speed
  validate_roles channels r = do
    validate_pong r.pong_server
    validate_ping channels r.ping_monitor
    validate_url channels r.url_monitor
    validate_internet channels r.internet_check
    validate_speed channels r.speed_check

  unfoldable pub validate : Config go → Result (Unit {0})
  unfolding validate_channels validate_roles
  validate c = do
    reject (ltb_ℤ c.retry.max_attempts (pos 1)) max_attempts_below_1
    reject (ltb_ℤ c.retry.base_delay_ms (pos 0)) base_delay_negative
    reject (not_positive c.summary_interval_s) summary_interval_not_positive
    validate_channels c.channels
    validate_roles c.channels c.roles
