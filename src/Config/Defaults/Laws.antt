-- ===== src/Config/Defaults/Laws.antt =====
-- applyDefaults (internal/config/config.go) applied twice.
use text.Mathlib.Text.{◌==◌}
use healthd.Common.{
  String, ◌≡◌, refl, sym, ap, ap₂, ◌∙◌, ◌&&◌, ◌||◌, List, [], ◌∷◌, is_present, inl, inr, Bool-cases,
}
use healthd.Common.Int.{ℤ, pos, eqb_ℤ}
use healthd.Common.Assoc.{lookup}
use healthd.Platform.{Platform}
use healthd.Config.{
  Channel, PingTarget, UrlTarget, Config, MonitorParams, trigger_consecutive, channel_webhook,
  channel_smsgate,
}
use healthd.Config.Resolve.{or_int, or_string}
use healthd.Config.Defaults.{
  channel_defaults, channels_defaults, param_defaults, ping_defaults, url_defaults, apply_defaults,
}

or_int_twice : (x d : ℤ) → or_int (or_int x d) d ≡ or_int x d
or_int_twice x d = elim (Bool-cases (eqb_ℤ x (pos 0))) [
  | inl e ↦ rw e (again d)
  | inr e ↦ rw (e, e) refl
]
  where
    again : (d : ℤ) → or_int d d ≡ d
    again d = elim (Bool-cases (eqb_ℤ d (pos 0))) [ inl e ↦ rw e refl | inr e ↦ rw e refl ]

or_string_twice : (x d : String) → or_string (or_string x d) d ≡ or_string x d
or_string_twice x d = elim (Bool-cases (x == "")) [
  | inl e ↦ rw e (again d)
  | inr e ↦ rw (e, e) refl
]
  where
    again : (d : String) → or_string d d ≡ d
    again d = elim (Bool-cases (d == "")) [ inl e ↦ rw e refl | inr e ↦ rw e refl ]

channel_defaults_set :
    (ch : Channel)
    → channel_defaults (record ch { timeout_ms = pos 5000 }) ≡ record ch { timeout_ms = pos 5000 }
channel_defaults_set ch =
    elim (Bool-cases (ch.kind == channel_webhook || ch.kind == channel_smsgate)) [
      | inl e ↦ rw e refl
      | inr e ↦ rw e refl
    ]

channel_defaults_twice :
    (ch : Channel) → channel_defaults (channel_defaults ch) ≡ channel_defaults ch
channel_defaults_twice ch =
    elim (Bool-cases
      ((ch.kind == channel_webhook || ch.kind == channel_smsgate) && eqb_ℤ ch.timeout_ms (pos 0))) [
        | inl e ↦
            let filled : channel_defaults ch ≡ record ch { timeout_ms = pos 5000 } = rw e refl in
            ap channel_defaults filled ∙ channel_defaults_set ch ∙ sym filled
        | inr e ↦ let kept : channel_defaults ch ≡ ch = rw e refl in ap channel_defaults kept
      ]

channels_defaults_twice :
    (chs : List (String × Channel))
    → channels_defaults (channels_defaults chs) ≡ channels_defaults chs
channels_defaults_twice [] = refl
channels_defaults_twice ((n, ch) ∷ chs) =
    ap₂ (λ c l. (n, c) ∷ l) (channel_defaults_twice ch) (channels_defaults_twice chs)

-- Filling in defaults neither adds nor removes a channel.
pub lookup-channels_defaults :
    (n : String) (chs : List (String × Channel))
    → is_present (lookup n (channels_defaults chs)) ≡ is_present (lookup n chs)
unfolding lookup
lookup-channels_defaults n [] = refl
lookup-channels_defaults n ((k, ch) ∷ chs) = elim (Bool-cases (k == n)) [
  | inl e ↦ rw e refl
  | inr e ↦ rw e (lookup-channels_defaults n chs)
]

module _ (go : Platform) where
  param_defaults_twice :
      (p : MonitorParams go) → param_defaults go (param_defaults go p) ≡ param_defaults go p
  param_defaults_twice p = λ i. record p {
    failure_threshold = or_int_twice p.failure_threshold (pos 1) i;
    trigger = or_string_twice p.trigger trigger_consecutive i;
    window_size = or_int_twice p.window_size (pos 20) i;
  }

  ping_defaults_twice :
      (ts : List (PingTarget go)) → ping_defaults go (ping_defaults go ts) ≡ ping_defaults go ts
  ping_defaults_twice [] = refl
  ping_defaults_twice (t ∷ ts) =
      ap₂ (λ p l. record t { params = p } ∷ l) (param_defaults_twice t.params)
        (ping_defaults_twice ts)

  url_defaults_twice :
      (ts : List (UrlTarget go)) → url_defaults go (url_defaults go ts) ≡ url_defaults go ts
  url_defaults_twice [] = refl
  url_defaults_twice (t ∷ ts) =
      ap₂ (λ p l. record t { params = p } ∷ l) (param_defaults_twice t.params)
        (url_defaults_twice ts)

  -- Applying the defaults a second time changes nothing: every default is a set value, and a set value
  -- is never changed.
  pub apply_defaults_idem :
      (c : Config go) → apply_defaults go (apply_defaults go c) ≡ apply_defaults go c
  unfolding apply_defaults
  apply_defaults_idem c =
      let r = c.roles in
      let ic = r.internet_check in
      let sc = r.speed_check in
      λ i. record c {
        retry = record {
          max_attempts = or_int_twice c.retry.max_attempts (pos 3) i;
          base_delay_ms = or_int_twice c.retry.base_delay_ms (pos 500) i;
        };
        summary_interval_s = or_int_twice c.summary_interval_s (pos 900) i;
        channels = channels_defaults_twice c.channels i;
        roles = record r {
          ping_monitor = record (r.ping_monitor) {
            targets = ping_defaults_twice r.ping_monitor.targets i;
          };
          url_monitor = record (r.url_monitor) {
            targets = url_defaults_twice r.url_monitor.targets i;
          };
          internet_check = record ic {
            failure_threshold = or_int_twice ic.failure_threshold (pos 1) i;
            trigger = or_string_twice ic.trigger trigger_consecutive i;
            window_size = or_int_twice ic.window_size (pos 20) i;
          };
          speed_check = record sc {
            binary = or_string_twice sc.binary "speedtest" i;
            failure_threshold = or_int_twice sc.failure_threshold (pos 1) i;
            trigger = or_string_twice sc.trigger trigger_consecutive i;
            window_size = or_int_twice sc.window_size (pos 20) i;
          };
        };
      }
