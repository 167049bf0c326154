-- ===== src/Config/Load/Sound.antt =====
-- What a configuration that Load returns satisfies (internal/config/config.go).
use text.Mathlib.Text.{◌==◌}
use healthd.Common.{
  String, ◌≡◌, refl, sym, ap, ◌∙◌, Bool, true, false, not, ◌&&◌, ◌||◌, List, [], ◌∷◌, Option, arith,
  inl, inr, Bool-cases,
}
use healthd.Common.Int.{ℤ, pos, ltb_ℤ}
use healthd.Platform.{Platform}
use healthd.Config.{
  Config, Channel, PingTarget, UrlTarget, MonitorParams, trigger_consecutive, trigger_availability,
}
use healthd.Config.Error.{ok, is_ok, >>-eq-ok, >>=-eq-ok}
use healthd.Config.Resolve.{resolve_profiles}
use healthd.Config.Defaults.{
  apply_defaults, ping_defaults, url_defaults, param_defaults, trigger_default, window_default,
}
use healthd.Config.Defaults.Laws.{apply_defaults_idem}
use healthd.Config.Validate.{validate}
use healthd.Config.Validate.Targets.{
  trigger_valid, params_sound, ping_targets_sound, url_targets_sound, url_valid,
}
use healthd.Config.Validate.Channels.{is_filled, all_valid, all_present}
use healthd.Config.Validate.Whole.{
  implies, pong_sound, ping_sound, url_sound, internet_sound, speed_sound, config_sound,
  validate_sound,
}
use healthd.Config.Load.{load}

both_true : (a b : Bool) → (a && b) ≡ true → (a ≡ true) × (b ≡ true)
both_true a b h = ground arith

fourth_true : (a b c d e : Bool) → (a && (b && (c && (d && e)))) ≡ true → d ≡ true
fourth_true a b c d e h = ground arith

roles_true :
    (a b c d e f g h : Bool)
    → (a && (b && (c && (d && (e && (f && (g && h))))))) ≡ true
    → (f ≡ true) × (g ≡ true)
roles_true a b c d e f g h p = ground arith

implies_map :
    (e a x y : Bool) → (x ≡ true → y ≡ true) → implies e (a && x) ≡ true → implies e y ≡ true
implies_map true a x y f h = f (both_true a x h).1
implies_map false a x y f h = refl

not_negative :
    (n : ℤ)
    → not (ltb_ℤ (window_default n) (pos 0)) ≡ true
    → ltb_ℤ (pos 0) (window_default n) ≡ true
not_negative n h = ground arith

module _ (go : Platform) (parse_url : String → Option (String × String)) where
  -- A configuration that Load returns is the decoded one with its profiles resolved and its defaults
  -- applied; it is sound, and applying the defaults again does not change it.
  pub load_sound :
      (c c' : Config go)
      → load go parse_url c ≡ ok c'
      → (r : Config go) × (resolve_profiles go c ≡ ok r)
        × (c' ≡ apply_defaults go r)
        × (config_sound go parse_url c' ≡ true)
        × (apply_defaults go c' ≡ c')
  unfolding load
  load_sound c c' h =
      let (r, resolved, rest) = >>=-eq-ok (resolve_profiles go c) _ h in
      let (valid, same) =
        >>-eq-ok (validate go parse_url (apply_defaults go r)) (ok (apply_defaults go r)) rest in
      let e : apply_defaults go r ≡ c' = cc in
      (
        r,
        resolved,
        sym e,
        ap (config_sound go parse_url) (sym e)
            ∙ sym (validate_sound go parse_url (apply_defaults go r))
            ∙ ap is_ok valid,
        ap (apply_defaults go) (sym e) ∙ apply_defaults_idem go r ∙ e,
      )

  window_positive :
      (t : String) (n : ℤ) (x : go.Float)
      → trigger_valid go parse_url t (window_default n) x ≡ true
      → ltb_ℤ (pos 0) (window_default n) ≡ true
  window_positive t n x h = elim (Bool-cases (t == "" || t == trigger_consecutive)) [
    | inl a ↦ not_negative n (rw a at h)
    | inr a ↦
        let (_, rest) = both_true (t == trigger_availability) _ (rw a at h) in
        (both_true (ltb_ℤ (pos 0) (window_default n)) _ rest).0
  ]

  -- Every unit of the list has a window of at least one result.
  abbrev pub all_windowed : List (MonitorParams go) → Bool
  all_windowed [] = true
  all_windowed (p ∷ ps) = ltb_ℤ (pos 0) p.window_size && all_windowed ps

  abbrev pub ping_params : List (PingTarget go) → List (MonitorParams go)
  ping_params [] = []
  ping_params (t ∷ ts) = t.params ∷ ping_params ts

  abbrev pub url_params : List (UrlTarget go) → List (MonitorParams go)
  url_params [] = []
  url_params (t ∷ ts) = t.params ∷ url_params ts

  param_windowed :
      (channels : List (String × Channel)) (p : MonitorParams go)
      → params_sound go parse_url channels (param_defaults go p) ≡ true
      → ltb_ℤ (pos 0) (window_default p.window_size) ≡ true
  param_windowed channels p h =
      let q = param_defaults go p in
      window_positive (trigger_default p.trigger) p.window_size p.min_availability (
        fourth_true (ltb_ℤ (pos 0) q.interval_s) (ltb_ℤ (pos 0) q.timeout_ms)
          (not (ltb_ℤ q.failure_threshold (pos 1)))
          (trigger_valid go parse_url q.trigger q.window_size q.min_availability)
          (all_present channels q.notify) h)

  ping_windowed :
      (channels : List (String × Channel)) (ts : List (PingTarget go))
      → ping_targets_sound go parse_url channels (ping_defaults go ts) ≡ true
      → all_windowed (ping_params (ping_defaults go ts)) ≡ true
  ping_windowed channels [] h = refl
  ping_windowed channels (t ∷ ts) h =
      let p = params_sound go parse_url channels (param_defaults go t.params) in
      let (first, rest) =
        both_true (not (t.target == "") && p)
          (ping_targets_sound go parse_url channels (ping_defaults go ts)) h in
      rw (param_windowed channels t.params (both_true (not (t.target == "")) p first).1)
        (ping_windowed channels ts rest)

  url_windowed :
      (channels : List (String × Channel)) (ts : List (UrlTarget go))
      → url_targets_sound go parse_url channels (url_defaults go ts) ≡ true
      → all_windowed (url_params (url_defaults go ts)) ≡ true
  url_windowed channels [] h = refl
  url_windowed channels (t ∷ ts) h =
      let p = params_sound go parse_url channels (param_defaults go t.params) in
      let (first, rest) =
        both_true (not (t.url == "") && (url_valid (parse_url t.url) && p))
          (url_targets_sound go parse_url channels (url_defaults go ts)) h in
      let sound = (both_true (not (t.url == "")) (url_valid (parse_url t.url) && p) first).1 in
      rw (param_windowed channels t.params (both_true (url_valid (parse_url t.url)) p sound).1)
        (url_windowed channels ts rest)

  defaults_windowed :
      (r : Config go)
      → let d = apply_defaults go r in
        config_sound go parse_url d ≡ true
        → (implies d.roles.ping_monitor.enabled
              (all_windowed (ping_params d.roles.ping_monitor.targets))
            ≡ true)
          × (implies d.roles.url_monitor.enabled
                (all_windowed (url_params d.roles.url_monitor.targets))
              ≡ true)
  unfolding apply_defaults
  defaults_windowed r h =
      let d = apply_defaults go r in
      let (ping, url) =
        roles_true (not (ltb_ℤ d.retry.max_attempts (pos 1)))
          (not (ltb_ℤ d.retry.base_delay_ms (pos 0))) (ltb_ℤ (pos 0) d.summary_interval_s)
          (all_valid d.channels) (pong_sound go parse_url d.roles.pong_server)
          (ping_sound go parse_url d.channels d.roles.ping_monitor)
          (url_sound go parse_url d.channels d.roles.url_monitor)
          (internet_sound go parse_url d.channels d.roles.internet_check
            && speed_sound go parse_url d.channels d.roles.speed_check)
          h in
      (
        implies_map d.roles.ping_monitor.enabled (is_filled d.roles.ping_monitor.targets)
            (ping_targets_sound go parse_url d.channels d.roles.ping_monitor.targets) _
            (ping_windowed d.channels r.roles.ping_monitor.targets) ping,
        implies_map d.roles.url_monitor.enabled (is_filled d.roles.url_monitor.targets)
            (url_targets_sound go parse_url d.channels d.roles.url_monitor.targets) _
            (url_windowed d.channels r.roles.url_monitor.targets) url,
      )

  -- Every target of an enabled ping_monitor or url_monitor of a loaded configuration has a window of at
  -- least one result, so that its availability is tracked in both trigger modes.
  pub load-windows :
      (c c' : Config go)
      → load go parse_url c ≡ ok c'
      → (implies c'.roles.ping_monitor.enabled
            (all_windowed (ping_params c'.roles.ping_monitor.targets))
          ≡ true)
        × (implies c'.roles.url_monitor.enabled
              (all_windowed (url_params c'.roles.url_monitor.targets))
            ≡ true)
  load-windows c c' h =
      let (r, _, e, sound, _) = load_sound c c' h in rw e (defaults_windowed r (rw e at sound))
