-- ===== src/Daemon/Startup.antt =====
-- What a configuration that Load accepts makes of buildChannels and buildRoles (cmd/healthd/main.go).
use text.Mathlib.Text.{◌==◌}
use healthd.Common.{
  String, ◌≡◌, refl, sym, ap, ◌∙◌, Bool, true, false, not, ◌&&◌, ◌||◌, List, [], ◌∷◌, Option, some,
  inl, inr, Bool-cases, is_present, arith, if◌then◌else◌,
}
use healthd.Common.Int.{pos, ltb_ℤ}
use healthd.Common.Assoc.{lookup}
use healthd.Platform.{Platform}
use healthd.Config.{
  Config, Channel, channel_console, channel_webhook, channel_email, channel_smsgate,
}
use healthd.Config.Error.{ConfigError, Result, ok, err, is_ok}
use healthd.Config.Validate.{validate_channels}
use healthd.Config.Validate.Channels.{
  is_known, all_known, all_known_of_valid, all_valid, validate_channels-all_valid,
}
use healthd.Config.Validate.Whole.{config_sound, roles_sound}
use healthd.Config.Load.{load}
use healthd.Config.Load.Sound.{load_sound}
use healthd.Roles.MessageDispatcher.Replies.{handlers_of}
use healthd.Daemon.{
  milliseconds, tcp_listener, activate, pong_handlers, is_monitoring, BuiltChannel, build_channel,
  build_channels, build_roles, ActiveRole, start, start_roles, start_channels, start_config,
}

one_of_four :
    (a b c d : Bool) (w x y z : BuiltChannel) (e : ConfigError)
    → (a || b || c || d) ≡ true
    → (built : BuiltChannel) × (◌≡◌ {A = Result BuiltChannel}
        (if a
          then ok w
          else (if b then ok x else (if c then ok y else (if d then ok z else err e))))
        (ok built))
one_of_four true b c d w x y z e h = (w, refl)
one_of_four false true c d w x y z e h = (x, refl)
one_of_four false false true d w x y z e h = (y, refl)
one_of_four false false false true w x y z e h = (z, refl)
one_of_four false false false false w x y z e h = cc

build_channel-known :
    (getenv : String → String) (n : String) (ch : Channel)
    → is_known ch.kind ≡ true
    → (b : BuiltChannel) × (build_channel getenv n ch ≡ ok b)
unfolding build_channel
build_channel-known getenv n ch h =
    one_of_four (ch.kind == channel_console) (ch.kind == channel_webhook) (ch.kind == channel_email)
      (ch.kind == channel_smsgate) _ _ _ _ _ h

cons_present :
    (k n : String) (b : BuiltChannel) (ch : Channel) (built : List (String × BuiltChannel))
    (chs : List (String × Channel))
    → is_present (lookup n built) ≡ is_present (lookup n chs)
    → is_present (lookup n ((k, b) ∷ built)) ≡ is_present (lookup n ((k, ch) ∷ chs))
unfolding lookup
cons_present k n b ch built chs h = elim (Bool-cases (k == n)) [
  | inl q ↦ rw q refl
  | inr q ↦ rw q h
]

cons_built :
    (getenv : String → String) (k : String) (ch : Channel) (chs : List (String × Channel))
    (b : BuiltChannel) (built : List (String × BuiltChannel))
    → build_channel getenv k ch ≡ ok b
    → build_channels getenv chs ≡ ok built
    → build_channels getenv ((k, ch) ∷ chs) ≡ ok ((k, b) ∷ built)
unfolding build_channels
cons_built getenv k ch chs b built e e' = rw (e, e') refl

-- Every channel of a known type is built, under its own name.
build_channels-known :
    (getenv : String → String) (chs : List (String × Channel))
    → all_known chs ≡ true
    → (built : List (String × BuiltChannel)) × (build_channels getenv chs ≡ ok built)
      × ((n : String) → is_present (lookup n built) ≡ is_present (lookup n chs))
unfolding build_channels lookup
build_channels-known getenv [] h = ([], refl, λ n. refl)
build_channels-known getenv ((k, ch) ∷ chs) h =
    let (b, e) = build_channel-known getenv k ch (ground arith) in
    let (rest, e', same) = build_channels-known getenv chs (ground arith) in
    (
      (k, b) ∷ rest,
      cons_built getenv k ch chs b rest e e',
      λ n. cons_present k n b ch rest chs (same n),
    )

ok_of_is_ok : (m : Result (Unit {0})) → is_ok m ≡ true → m ≡ ok tt
ok_of_is_ok (ok u) h = refl
ok_of_is_ok (err e) h = cc

fourth_of_five : (a b c d e : Bool) → (a && (b && (c && (d && e)))) ≡ true → d ≡ true
fourth_of_five a b c d e h = ground arith

module _ (go : Platform) (parse_url : String → Option (String × String)) where
  channels_sound :
      (c : Config go) → config_sound go parse_url c ≡ true → all_valid c.channels ≡ true
  channels_sound c h =
      fourth_of_five (not (ltb_ℤ c.retry.max_attempts (pos 1)))
        (not (ltb_ℤ c.retry.base_delay_ms (pos 0))) (ltb_ℤ (pos 0) c.summary_interval_s)
        (all_valid c.channels) (roles_sound go parse_url c.channels c.roles) h

  -- Once Load returns, buildChannels does not fail: it builds a channel for each name of the
  -- configuration and for no other, and the daemon starts its roles unless none is enabled.
  pub start-load :
      (getenv : String → String) (c c' : Config go)
      → load go parse_url c ≡ ok c'
      → (built : List (String × BuiltChannel)) × (start go parse_url getenv c
          ≡ start_roles go built (build_roles go c'))
        × ((n : String) → is_present (lookup n built) ≡ is_present (lookup n c'.channels))
  unfolding start
  start-load getenv c c' h =
      let (_, _, _, sound, _) = load_sound go parse_url c c' h in
      let valid : validate_channels c'.channels ≡ ok tt =
        ok_of_is_ok (validate_channels c'.channels)
          (validate_channels-all_valid c'.channels ∙ channels_sound c' sound) in
      let (built, e, same) =
        build_channels-known getenv c'.channels (all_known_of_valid c'.channels valid) in
      (built, ap (start_config go getenv) h ∙ ap (λ m. start_channels go m c') e, same)

module _ (go : Platform) where
  skip_role :
      (b : Bool) (name asked : String) (r : ActiveRole go) (rest : List (String × ActiveRole go))
      → (name == asked) ≡ false
      → lookup asked (activate go b name r rest) ≡ lookup asked rest
  unfolding lookup
  skip_role true name asked r rest h = rw h refl
  skip_role false name asked r rest h = refl

  reporter_present :
      (b : Bool) (r : ActiveRole go)
      → is_present (lookup "summary_reporter" (activate go b "summary_reporter" r [])) ≡ b
  unfolding lookup
  reporter_present true r = refl
  reporter_present false r = refl

  reporter-build_roles :
      (c : Config go)
      → is_present (lookup "summary_reporter" (build_roles go c)) ≡ is_monitoring go c
  unfolding build_roles
  reporter-build_roles c =
      ap is_present (
        skip_role c.roles.pong_server.enabled "pong_server" "summary_reporter" _ _ refl
        ∙ skip_role c.roles.ping_monitor.enabled "ping_monitor" "summary_reporter" _ _ refl
        ∙ skip_role c.roles.url_monitor.enabled "url_monitor" "summary_reporter" _ _ refl
        ∙ skip_role c.roles.internet_check.enabled "internet_check" "summary_reporter" _ _ refl
        ∙ skip_role c.roles.speed_check.enabled "speed_check" "summary_reporter" _ _ refl)
      ∙ reporter_present (is_monitoring go c) _

  handlers-pong : (b : Bool) → pong_handlers go b ≡ handlers_of b
  handlers-pong true = refl
  handlers-pong false = refl

  first_role :
      (c : Config go)
      → c.roles.pong_server.enabled ≡ true
      → lookup "pong_server" (build_roles go c)
        ≡ some (
            tcp_listener c.roles.pong_server.listen
              (milliseconds c.roles.pong_server.read_timeout_ms)
              (pong_handlers go (is_monitoring go c)))
  unfolding build_roles lookup
  first_role c h = rw h refl

  -- An enabled TCP listener gets the configured address and timeout, and its handlers answer
  -- get-summary exactly if the daemon also has a summary reporter.
  pub build_roles-handlers :
      (c : Config go)
      → c.roles.pong_server.enabled ≡ true
      → let roles = build_roles go c in
        lookup "pong_server" roles
        ≡ some (
            tcp_listener c.roles.pong_server.listen
              (milliseconds c.roles.pong_server.read_timeout_ms)
              (handlers_of (is_present (lookup "summary_reporter" roles))))
  build_roles-handlers c h =
      first_role c h
      ∙ ap
          (λ hs. some (
            tcp_listener c.roles.pong_server.listen
              (milliseconds c.roles.pong_server.read_timeout_ms) hs))
          (handlers-pong (is_monitoring go c) ∙ ap handlers_of (sym (reporter-build_roles c)))
