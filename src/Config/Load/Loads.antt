-- ===== src/Config/Load/Loads.antt =====
-- Which configurations Load accepts, and what it makes of them (internal/config/config.go).
use healthd.Common.{String, ◌≡◌, refl, Bool, true, false, Option}
use healthd.Platform.{Platform}
use healthd.Config.{Config}
use healthd.Config.Error.{Result, ok, err, is_ok, ◌>>=◌, ◌>>◌}
use healthd.Config.Resolve.{resolve_profiles}
use healthd.Config.Resolve.Refs.{ResolvesTo}
use healthd.Config.Resolve.Targets.{resolvable, ConfigBecomes, resolve_profiles-ResolvesTo}
use healthd.Config.Defaults.{apply_defaults}
use healthd.Config.Validate.{validate}
use healthd.Config.Validate.Whole.{config_sound, validate_sound}
use healthd.Config.Load.{load}

module _ (go : Platform) (parse_url : String → Option (String × String)) where
  -- The two outcomes of Load, by whether the profiles that are used are defined.
  abbrev pub Loads : Config go → Bool → Result (Config go) → Type 0
  Loads c true m =
      (r : Config go) × ConfigBecomes go c r
      × ResolvesTo (config_sound go parse_url (apply_defaults go r))
          (λ c'. c' ≡ apply_defaults go r) m
  Loads c false m = is_ok m ≡ false

  accepts :
      (b : Bool) (m : Result (Unit {0})) (d : Config go)
      → is_ok m ≡ b
      → ResolvesTo b (λ c'. c' ≡ d) (m >> ok d)
  accepts true (ok u) d h = (d, refl, refl)
  accepts true (err e) d h = cc
  accepts false (ok u) d h = cc
  accepts false (err e) d h = tt

  -- A configuration is loaded exactly if every profile that an enabled ping_monitor or url_monitor or
  -- one of its targets names is defined, and the configuration is sound once each target has its unset
  -- parameters from its one profile and the defaults are applied. It is then that configuration, which
  -- differs from the decoded one in the targets of these roles and the defaults only.
  pub load-Loads : (c : Config go) → Loads c (resolvable go c) (load go parse_url c)
  unfolding load
  load-Loads c =
      by_resolved (resolvable go c) (resolve_profiles go c) (resolve_profiles-ResolvesTo go c)
    where
      by_resolved :
          (b : Bool) (m : Result (Config go))
          → ResolvesTo b (ConfigBecomes go c) m
          → Loads c b
              (m >>= λ r. validate go parse_url (apply_defaults go r) >> ok (apply_defaults go r))
      by_resolved true m (r, e, becomes) =
          let d = apply_defaults go r in
          (
            r,
            becomes,
            rw e (
                accepts (config_sound go parse_url d) (validate go parse_url d) d
                  (validate_sound go parse_url d)),
          )
      by_resolved false (ok r) h = absurd h
      by_resolved false (err e) h = refl
