-- ===== src/Config/Resolve/Targets.antt =====
-- resolveProfiles (internal/config/config.go) on the targets of a configuration.
use text.Mathlib.Text.{◌==◌}
use healthd.Common.{
  ℕ, suc, String, ◌≡◌, refl, sym, ap, subst, Bool, true, false, not, ◌&&◌, ◌||◌, List, [], ◌∷◌,
  if◌then◌else◌,
}
use healthd.Platform.{Platform}
use healthd.Config.{Config, PingTarget, PingMonitor, UrlTarget, UrlMonitor}
use healthd.Config.Error.{Result, ok, err, target, ◌>>=◌}
use healthd.Config.Resolve.{
  Profiles, ProfileRef, ping_refs, url_refs, put_ping, put_url, resolve_profile_refs, resolve_ping,
  resolve_url, resolve_profiles,
}
use healthd.Config.Resolve.Refs.{
  ResolvesTo, is_defined, all_defined, Becomes, AllBecome, resolve_profile_refs-ResolvesTo,
}

if_enabled :
    {A B : Type 0} (enabled d : Bool) {P : A → Type 0} (Q : B → Type 0) {f : A → B} {x : B}
    (m : Result A)
    → ResolvesTo d P m
    → ((p : A) → enabled ≡ true → P p → Q (f p))
    → (enabled ≡ false → Q x)
    → ResolvesTo (not enabled || d) Q (if enabled then (m >>= λ p. ok (f p)) else ok x)
if_enabled false d Q {x = x} m h on off = (x, refl, off refl)
if_enabled true true Q {f = f} m (p, q, h) on off = (f p, rw q refl, on p refl h)
if_enabled true false Q (ok p) h on off = absurd h
if_enabled true false Q (err e) h on off = tt

module _ (go : Platform) (profiles : Profiles go) where
  abbrev ping_ref : ℕ → PingTarget go → ProfileRef go
  ping_ref i t = record {
    who = target "ping_monitor" i t.target;
    profile = t.profile;
    params = t.params;
  }

  abbrev url_ref : ℕ → UrlTarget go → ProfileRef go
  url_ref i t = record {
    who = target "url_monitor" i t.url;
    profile = t.profile;
    params = t.params;
  }

  -- The profile of each target is empty or defined.
  abbrev pub ping_defined : String → List (PingTarget go) → Bool
  ping_defined default_profile [] = true
  ping_defined default_profile (t ∷ ts) =
      is_defined go profiles (if t.profile == "" then default_profile else t.profile)
      && ping_defined default_profile ts

  abbrev pub url_defined : String → List (UrlTarget go) → Bool
  url_defined default_profile [] = true
  url_defined default_profile (t ∷ ts) =
      is_defined go profiles (if t.profile == "" then default_profile else t.profile)
      && url_defined default_profile ts

  -- Each target stays in its place with its address, and its parameters become the resolved ones.
  abbrev pub PingTargetsBecome : String → List (PingTarget go) → List (PingTarget go) → Type 0
  PingTargetsBecome default_profile [] [] = Unit {0}
  PingTargetsBecome default_profile (t ∷ ts) (t' ∷ ts') =
      (t'.target ≡ t.target)
      × (t'.profile ≡ t.profile)
      × Becomes go profiles default_profile (ping_ref 0 t) t'.params
      × PingTargetsBecome default_profile ts ts'
  PingTargetsBecome default_profile _ _ = ⊥

  abbrev pub UrlTargetsBecome : String → List (UrlTarget go) → List (UrlTarget go) → Type 0
  UrlTargetsBecome default_profile [] [] = Unit {0}
  UrlTargetsBecome default_profile (t ∷ ts) (t' ∷ ts') =
      (t'.url ≡ t.url)
      × (t'.profile ≡ t.profile)
      × Becomes go profiles default_profile (url_ref 0 t) t'.params
      × UrlTargetsBecome default_profile ts ts'
  UrlTargetsBecome default_profile _ _ = ⊥

  all_defined-ping_refs :
      (default_profile : String) (i : ℕ) (ts : List (PingTarget go))
      → all_defined go profiles default_profile (ping_refs go i ts)
        ≡ ping_defined default_profile ts
  all_defined-ping_refs default_profile i [] = refl
  all_defined-ping_refs default_profile i (t ∷ ts) =
      ap (λ b. is_defined go profiles (if t.profile == "" then default_profile else t.profile) && b)
        (all_defined-ping_refs default_profile (suc i) ts)

  all_defined-url_refs :
      (default_profile : String) (i : ℕ) (ts : List (UrlTarget go))
      → all_defined go profiles default_profile (url_refs go i ts) ≡ url_defined default_profile ts
  all_defined-url_refs default_profile i [] = refl
  all_defined-url_refs default_profile i (t ∷ ts) =
      ap (λ b. is_defined go profiles (if t.profile == "" then default_profile else t.profile) && b)
        (all_defined-url_refs default_profile (suc i) ts)

  put_ping-TargetsBecome :
      (default_profile : String) (i : ℕ) (ts : List (PingTarget go)) (ps : List _)
      → AllBecome go profiles default_profile (ping_refs go i ts) ps
      → PingTargetsBecome default_profile ts (put_ping go ts ps)
  put_ping-TargetsBecome default_profile i [] [] h = tt
  put_ping-TargetsBecome default_profile i [] (p ∷ ps) h = absurd h
  put_ping-TargetsBecome default_profile i (t ∷ ts) [] h = absurd h
  put_ping-TargetsBecome default_profile i (t ∷ ts) (p ∷ ps) (first, rest) =
      (refl, refl, first, put_ping-TargetsBecome default_profile (suc i) ts ps rest)

  put_url-TargetsBecome :
      (default_profile : String) (i : ℕ) (ts : List (UrlTarget go)) (ps : List _)
      → AllBecome go profiles default_profile (url_refs go i ts) ps
      → UrlTargetsBecome default_profile ts (put_url go ts ps)
  put_url-TargetsBecome default_profile i [] [] h = tt
  put_url-TargetsBecome default_profile i [] (p ∷ ps) h = absurd h
  put_url-TargetsBecome default_profile i (t ∷ ts) [] h = absurd h
  put_url-TargetsBecome default_profile i (t ∷ ts) (p ∷ ps) (first, rest) =
      (refl, refl, first, put_url-TargetsBecome default_profile (suc i) ts ps rest)

  -- The default profile and each target's profile are empty or defined, if the role is enabled.
  abbrev pub ping_resolvable : PingMonitor go → Bool
  ping_resolvable pm =
      not pm.enabled
      || (is_defined go profiles pm.default_profile && ping_defined pm.default_profile pm.targets)

  abbrev pub url_resolvable : UrlMonitor go → Bool
  url_resolvable um =
      not um.enabled
      || (is_defined go profiles um.default_profile && url_defined um.default_profile um.targets)

  -- An enabled role has its targets resolved, and any other is left as it is.
  abbrev pub PingBecomes : PingMonitor go → PingMonitor go → Type 0
  PingBecomes pm pm' =
      (pm'.enabled ≡ pm.enabled)
      × (pm'.default_profile ≡ pm.default_profile)
      × (if pm.enabled
          then PingTargetsBecome pm.default_profile pm.targets pm'.targets
          else (pm'.targets ≡ pm.targets))

  abbrev pub UrlBecomes : UrlMonitor go → UrlMonitor go → Type 0
  UrlBecomes um um' =
      (um'.enabled ≡ um.enabled)
      × (um'.default_profile ≡ um.default_profile)
      × (if um.enabled
          then UrlTargetsBecome um.default_profile um.targets um'.targets
          else (um'.targets ≡ um.targets))

  resolve_ping-ResolvesTo :
      (pm : PingMonitor go)
      → ResolvesTo (ping_resolvable pm) (PingBecomes pm) (resolve_ping go profiles pm)
  unfolding resolve_ping
  resolve_ping-ResolvesTo pm =
      let d = pm.default_profile in
      let refs = ping_refs go 0 pm.targets in
      if_enabled pm.enabled (is_defined go profiles d && ping_defined d pm.targets) (PingBecomes pm)
        (resolve_profile_refs go profiles "ping_monitor" d refs)
        (subst
          (λ b.
            ResolvesTo (is_defined go profiles d && b) (AllBecome go profiles d refs)
              (resolve_profile_refs go profiles "ping_monitor" d refs))
          (all_defined-ping_refs d 0 pm.targets)
          (resolve_profile_refs-ResolvesTo go profiles "ping_monitor" d refs))
        (λ ps on resolved. (
          refl,
          refl,
          subst
              (λ b.
                if b
                then PingTargetsBecome d pm.targets (put_ping go pm.targets ps)
                else (put_ping go pm.targets ps ≡ pm.targets))
              (sym on) (put_ping-TargetsBecome d 0 pm.targets ps resolved),
        ))
        (λ off. (
          refl,
          refl,
          subst
              (λ b.
                if b then PingTargetsBecome d pm.targets pm.targets else (pm.targets ≡ pm.targets))
              (sym off) refl,
        ))

  resolve_url-ResolvesTo :
      (um : UrlMonitor go)
      → ResolvesTo (url_resolvable um) (UrlBecomes um) (resolve_url go profiles um)
  unfolding resolve_url
  resolve_url-ResolvesTo um =
      let d = um.default_profile in
      let refs = url_refs go 0 um.targets in
      if_enabled um.enabled (is_defined go profiles d && url_defined d um.targets) (UrlBecomes um)
        (resolve_profile_refs go profiles "url_monitor" d refs)
        (subst
          (λ b.
            ResolvesTo (is_defined go profiles d && b) (AllBecome go profiles d refs)
              (resolve_profile_refs go profiles "url_monitor" d refs))
          (all_defined-url_refs d 0 um.targets)
          (resolve_profile_refs-ResolvesTo go profiles "url_monitor" d refs))
        (λ ps on resolved. (
          refl,
          refl,
          subst
              (λ b.
                if b
                then UrlTargetsBecome d um.targets (put_url go um.targets ps)
                else (put_url go um.targets ps ≡ um.targets))
              (sym on) (put_url-TargetsBecome d 0 um.targets ps resolved),
        ))
        (λ off. (
          refl,
          refl,
          subst
              (λ b.
                if b then UrlTargetsBecome d um.targets um.targets else (um.targets ≡ um.targets))
              (sym off) refl,
        ))

module _ (go : Platform) (c : Config go) where
  -- The names of profiles that the enabled roles and their targets use are defined.
  abbrev pub resolvable : Bool
  resolvable =
      ping_resolvable go c.profiles c.roles.ping_monitor
      && url_resolvable go c.profiles c.roles.url_monitor

  -- The two roles with targets are resolved, and all else is as it was.
  abbrev pub ConfigBecomes : Config go → Type 0
  ConfigBecomes r =
      PingBecomes go c.profiles c.roles.ping_monitor r.roles.ping_monitor
      × UrlBecomes go c.profiles c.roles.url_monitor r.roles.url_monitor
      × (r ≡ record c {
        roles = record (c.roles) {
          ping_monitor = r.roles.ping_monitor;
          url_monitor = r.roles.url_monitor;
        };
      })

  pub resolve_profiles-ResolvesTo : ResolvesTo resolvable ConfigBecomes (resolve_profiles go c)
  unfolding resolve_profiles
  resolve_profiles-ResolvesTo =
      both (ping_resolvable go c.profiles c.roles.ping_monitor)
        (url_resolvable go c.profiles c.roles.url_monitor)
        (resolve_ping go c.profiles c.roles.ping_monitor)
        (resolve_url go c.profiles c.roles.url_monitor)
        (resolve_ping-ResolvesTo go c.profiles c.roles.ping_monitor)
        (resolve_url-ResolvesTo go c.profiles c.roles.url_monitor)
    where
      both :
          (a b : Bool) (m : Result (PingMonitor go)) (n : Result (UrlMonitor go))
          → ResolvesTo a (PingBecomes go c.profiles c.roles.ping_monitor) m
          → ResolvesTo b (UrlBecomes go c.profiles c.roles.url_monitor) n
          → ResolvesTo (a && b) ConfigBecomes (do
            pm ← m
            um ← n
            ok (record c { roles = record (c.roles) { ping_monitor = pm; url_monitor = um } }))
      both true true m n (pm, p, f) (um, q, g) = (_, rw (p, q) refl, (f, g, refl))
      both true false m (ok u) h k = absurd k
      both true false m (err e) (pm, p, f) k = rw p tt
      both false b (ok pm) n h k = absurd h
      both false b (err e) n h k = tt
