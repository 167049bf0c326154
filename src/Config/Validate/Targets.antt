-- ===== src/Config/Validate/Targets.antt =====
-- What a validation that passes says of the units of the monitoring roles (validateRoles,
-- validateTrigger of internal/config/config.go).
use text.Mathlib.Text.{◌==◌}
use healthd.Common.{
  ℕ, suc, String, ◌≡◌, refl, ap₂, ◌∙◌, Bool, true, false, not, ◌&&◌, ◌||◌, List, [], ◌∷◌, Option,
  none, some, inl, inr, arith, Bool-cases, if◌then◌else◌,
}
use healthd.Common.Int.{ℤ, pos, ltb_ℤ}
use healthd.Platform.{Platform}
use healthd.Config.{
  Channel, PingTarget, UrlTarget, trigger_consecutive, trigger_availability, MonitorParams,
}
use healthd.Config.Error.{Who, target, is_ok, is_ok->>, is_ok-reject}
use healthd.Config.Validate.{
  validate_trigger, validate_ping_target, validate_ping_targets, validate_url_target,
  validate_url_targets, validate_http_url, check_url, not_positive,
}
use healthd.Config.Validate.Channels.{all_present, check_notify-all_present}

abbrev pub url_valid : Option (String × String) → Bool
url_valid none = false
url_valid (some (scheme, host)) = (scheme == "http" || scheme == "https") && not (host == "")

module _ (go : Platform) (parse_url : String → Option (String × String)) where
  open go use {Float, of_int, lt_float, le_float}

  -- The condition that validateTrigger puts on the trigger of a unit.
  abbrev pub trigger_valid : String → ℤ → Float → Bool
  trigger_valid trigger window_size least =
      if trigger == "" || trigger == trigger_consecutive
      then not (ltb_ℤ window_size (pos 0))
      else (trigger == trigger_availability
          && (ltb_ℤ (pos 0) window_size
              && (not (le_float least (of_int (pos 0)))
                  && not (lt_float (of_int (pos 100)) least))))

  pub positive-not : (z : ℤ) → not (not_positive z) ≡ ltb_ℤ (pos 0) z
  positive-not z = ground arith

  not-or : (a b : Bool) → not (a || b) ≡ (not a && not b)
  not-or a b = ground arith

  pub validate_trigger-valid :
      (who : Who) (t : String) (n : ℤ) (x : Float)
      → is_ok (validate_trigger go parse_url who t n x) ≡ trigger_valid t n x
  unfolding validate_trigger
  validate_trigger-valid who t n x = elim (Bool-cases (t == "" || t == trigger_consecutive)) [
    | inl a ↦ rw (a, is_ok-reject) refl
    | inr a ↦ elim (Bool-cases (t == trigger_availability)) [
      | inl b ↦ rw (a, b) (simp (is_ok->>, is_ok-reject, positive-not, not-or) refl)
      | inr b ↦ rw (a, b) refl
    ]
  ]

  -- A unit that a role can run: positive times, a threshold of 1 at least, a valid trigger, and
  -- channels that exist.
  abbrev pub params_sound : List (String × Channel) → MonitorParams go → Bool
  params_sound channels p =
      ltb_ℤ (pos 0) p.interval_s
      && (ltb_ℤ (pos 0) p.timeout_ms
          && (not (ltb_ℤ p.failure_threshold (pos 1))
              && (trigger_valid p.trigger p.window_size p.min_availability
                  && all_present channels p.notify)))

  abbrev pub ping_targets_sound : List (String × Channel) → List (PingTarget go) → Bool
  ping_targets_sound channels [] = true
  ping_targets_sound channels (t ∷ ts) =
      (not (t.target == "") && params_sound channels t.params) && ping_targets_sound channels ts

  abbrev pub url_targets_sound : List (String × Channel) → List (UrlTarget go) → Bool
  url_targets_sound channels [] = true
  url_targets_sound channels (t ∷ ts) =
      (not (t.url == "") && (url_valid (parse_url t.url) && params_sound channels t.params))
      && url_targets_sound channels ts

  validate_ping_target_sound :
      (channels : List (String × Channel)) (who : Who) (t : PingTarget go)
      → is_ok (validate_ping_target go parse_url channels who t)
        ≡ (not (t.target == "") && params_sound channels t.params)
  unfolding validate_ping_target
  validate_ping_target_sound channels who t =
      simp (is_ok->>, is_ok-reject, positive-not, validate_trigger-valid, check_notify-all_present)
        refl

  pub validate_ping_targets_sound :
      (channels : List (String × Channel)) (i : ℕ) (ts : List (PingTarget go))
      → is_ok (validate_ping_targets go parse_url channels i ts) ≡ ping_targets_sound channels ts
  unfolding validate_ping_targets
  validate_ping_targets_sound channels i [] = refl
  validate_ping_targets_sound channels i (t ∷ ts) =
      is_ok->> _ _
      ∙ ap₂ ◌&&◌ (validate_ping_target_sound channels (target "ping_monitor" i t.target) t)
          (validate_ping_targets_sound channels (suc i) ts)

  not-nor : (a b : Bool) → not (not a && not b) ≡ (a || b)
  not-nor a b = ground arith

  check_url-valid :
      (who : Who) (o : Option (String × String)) → is_ok (check_url who o) ≡ url_valid o
  check_url-valid who none = refl
  check_url-valid who (some (scheme, host)) = simp (is_ok->>, is_ok-reject, not-nor) refl

  validate_http_url-valid :
      (who : Who) (raw : String)
      → is_ok (validate_http_url parse_url who raw) ≡ url_valid (parse_url raw)
  unfolding validate_http_url
  validate_http_url-valid who raw = check_url-valid who (parse_url raw)

  validate_url_target_sound :
      (channels : List (String × Channel)) (who : Who) (t : UrlTarget go)
      → is_ok (validate_url_target go parse_url channels who t)
        ≡ (not (t.url == "") && (url_valid (parse_url t.url) && params_sound channels t.params))
  unfolding validate_url_target
  validate_url_target_sound channels who t =
      simp
        (
          is_ok->>, is_ok-reject, positive-not, validate_http_url-valid, validate_trigger-valid,
          check_notify-all_present,
        )
        refl

  pub validate_url_targets_sound :
      (channels : List (String × Channel)) (i : ℕ) (ts : List (UrlTarget go))
      → is_ok (validate_url_targets go parse_url channels i ts) ≡ url_targets_sound channels ts
  unfolding validate_url_targets
  validate_url_targets_sound channels i [] = refl
  validate_url_targets_sound channels i (t ∷ ts) =
      is_ok->> _ _
      ∙ ap₂ ◌&&◌ (validate_url_target_sound channels (target "url_monitor" i t.url) t)
          (validate_url_targets_sound channels (suc i) ts)
