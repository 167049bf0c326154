-- ===== src/Config/Resolve.antt =====
-- Profiles: inheritFrom, resolveProfiles and resolveProfileRefs of internal/config/config.go. The
-- pointers of a profileRef are modelled by returning the resolved parameters in the order of the
-- targets. (After an error Load drops the configuration, so what it has changed by then is not seen.)
pub mod Inherit
pub mod Fills
pub mod Refs
pub mod Targets
use text.Mathlib.Text.{◌==◌}
use healthd.Common.{
  ℕ, suc, String, Bool, ◌||◌, List, [], ◌∷◌, Option, none, some, is_present, if◌then◌else◌,
}
use healthd.Common.Int.{ℤ, pos, eqb_ℤ}
use healthd.Common.Assoc.{lookup}
use healthd.Platform.{Platform}
use healthd.Config.Error.{
  ConfigError, Who, target, undefined_default_profile, undefined_profile, Result, ok, err, ◌>>=◌,
}
use healthd.Config.{Config, Roles, MonitorParams, PingTarget, PingMonitor, UrlTarget, UrlMonitor}

-- `if x == 0 { x = y }`, and the same for the other types
abbrev pub or_int : ℤ → ℤ → ℤ
or_int x y = if eqb_ℤ x (pos 0) then y else x

abbrev pub or_string : String → String → String
or_string x y = if x == "" then y else x

abbrev pub or_list : List String → List String → List String
or_list [] y = y
or_list (n ∷ ns) y = n ∷ ns

module _ (go : Platform) where
  open go use {Float, of_int, eq_float}

  abbrev pub or_float : Float → Float → Float
  or_float x y = if eq_float x (of_int (pos 0)) then y else x

  unfoldable pub inherit_from : MonitorParams go → MonitorParams go → MonitorParams go
  inherit_from p src = record {
    interval_s = or_int p.interval_s src.interval_s;
    timeout_ms = or_int p.timeout_ms src.timeout_ms;
    failure_threshold = or_int p.failure_threshold src.failure_threshold;
    trigger = or_string p.trigger src.trigger;
    window_size = or_int p.window_size src.window_size;
    min_availability = or_float p.min_availability src.min_availability;
    notify = or_list p.notify src.notify;
    insecure_skip_verify = p.insecure_skip_verify || src.insecure_skip_verify;
  }

  pub record ProfileRef : Type 0 where
    pub who : Who
    pub profile : String
    pub params : MonitorParams go

  abbrev pub Profiles : Type 0
  Profiles = List (String × MonitorParams go)

  -- One round of the loop: the parameters after it, or the error.
  abbrev pub inherit_found :
      ProfileRef → String → Option (MonitorParams go) → Result (MonitorParams go)
  inherit_found r name none = err (undefined_profile r.who name)
  inherit_found r name (some p) = ok (inherit_from r.params p)

  unfoldable pub resolve_ref : Profiles → String → ProfileRef → Result (MonitorParams go)
  unfolding inherit_from lookup
  resolve_ref profiles default_profile r =
      let name = or_string r.profile default_profile in
      if name == "" then ok r.params else inherit_found r name (lookup name profiles)

  unfoldable pub resolve_refs :
      Profiles → String → List ProfileRef → Result (List (MonitorParams go))
  unfolding resolve_ref
  resolve_refs profiles default_profile [] = ok []
  resolve_refs profiles default_profile (r ∷ rs) = do
    p ← resolve_ref profiles default_profile r
    ps ← resolve_refs profiles default_profile rs
    ok (p ∷ ps)

  unfoldable pub resolve_profile_refs :
      Profiles → String → String → List ProfileRef → Result (List (MonitorParams go))
  unfolding resolve_refs
  resolve_profile_refs profiles role_name default_profile refs =
      if default_profile == ""
      then resolve_refs profiles default_profile refs
      else (if is_present (lookup default_profile profiles)
          then resolve_refs profiles default_profile refs
          else err (undefined_default_profile role_name default_profile))

  abbrev pub ping_refs : ℕ → List (PingTarget go) → List ProfileRef
  ping_refs i [] = []
  ping_refs i (t ∷ ts) =
      record { who = target "ping_monitor" i t.target; profile = t.profile; params = t.params }
      ∷ ping_refs (suc i) ts

  abbrev pub url_refs : ℕ → List (UrlTarget go) → List ProfileRef
  url_refs i [] = []
  url_refs i (t ∷ ts) =
      record { who = target "url_monitor" i t.url; profile = t.profile; params = t.params }
      ∷ url_refs (suc i) ts

  -- The targets with the parameters that their references were resolved to.
  abbrev pub put_ping : List (PingTarget go) → List (MonitorParams go) → List (PingTarget go)
  put_ping [] ps = []
  put_ping (t ∷ ts) [] = t ∷ ts
  put_ping (t ∷ ts) (p ∷ ps) = record t { params = p } ∷ put_ping ts ps

  abbrev pub put_url : List (UrlTarget go) → List (MonitorParams go) → List (UrlTarget go)
  put_url [] ps = []
  put_url (t ∷ ts) [] = t ∷ ts
  put_url (t ∷ ts) (p ∷ ps) = record t { params = p } ∷ put_url ts ps

  unfoldable pub resolve_ping : Profiles → PingMonitor go → Result (PingMonitor go)
  unfolding resolve_profile_refs
  resolve_ping profiles pm =
      if pm.enabled
      then (do
        ps ←
            resolve_profile_refs profiles "ping_monitor" pm.default_profile (ping_refs 0 pm.targets)
        ok (record pm { targets = put_ping pm.targets ps }))
      else ok pm

  unfoldable pub resolve_url : Profiles → UrlMonitor go → Result (UrlMonitor go)
  unfolding resolve_profile_refs
  resolve_url profiles um =
      if um.enabled
      then (do
        ps ← resolve_profile_refs profiles "url_monitor" um.default_profile (url_refs 0 um.targets)
        ok (record um { targets = put_url um.targets ps }))
      else ok um

  unfoldable pub resolve_profiles : Config go → Result (Config go)
  unfolding resolve_ping resolve_url
  resolve_profiles c = do
    pm ← resolve_ping c.profiles c.roles.ping_monitor
    um ← resolve_url c.profiles c.roles.url_monitor
    ok (record c { roles = record (c.roles) { ping_monitor = pm; url_monitor = um } })
