-- ===== src/Config/Resolve/Refs.antt =====
-- resolveProfileRefs (internal/config/config.go) against its specification.
use text.Mathlib.Text.{◌==◌}
use healthd.Common.{
  String, ◌≡◌, ◌⊎◌, refl, sym, subst, ap, ◌∙◌, inl, inr, Bool-cases, arith, Bool, true, false, ◌&&◌,
  List, [], ◌∷◌, Option, none, some, is_present, if◌then◌else◌,
}
use healthd.Common.Assoc.{lookup, insert, lookup-insert}
use healthd.Platform.{Platform}
use healthd.Config.Resolve.Fills.{Fills, inherit_from-Fills}
use healthd.Config.{MonitorParams}
use healthd.Config.Error.{Result, ok, err, ◌>>=◌, undefined_default_profile}
use healthd.Config.Resolve.{
  Profiles, ProfileRef, inherit_from, inherit_found, resolve_ref, resolve_refs,
  resolve_profile_refs,
}

-- The two outcomes of a resolution: the parameters if `defined`, and else an error.
abbrev Resolves : {A : Type 0} → Bool → A → Result A → Type 0
Resolves true a r = r ≡ ok a
Resolves false a (ok b) = ⊥
Resolves false a (err e) = Unit {0}

-- The same for values with a property.
abbrev pub ResolvesTo : {A : Type 0} → Bool → (A → Type 0) → Result A → Type 0
ResolvesTo {A} true P r = (a : A) × (r ≡ ok a) × P a
ResolvesTo false P (ok b) = ⊥
ResolvesTo false P (err e) = Unit {0}

Resolves-cons :
    {A : Type 0} (d d' : Bool) (a : A) (l : List A) (m : Result A) (m' : Result (List A))
    → Resolves d a m
    → Resolves d' l m'
    → Resolves (d && d') (a ∷ l) (m >>= λ p. m' >>= λ ps. ok (p ∷ ps))
Resolves-cons true true a l m m' h h' = rw (h, h') refl
Resolves-cons true false a l m (err e) h h' = rw h tt
Resolves-cons true false a l m (ok b) h h' = absurd h'
Resolves-cons false true a l (err e) m' h h' = tt
Resolves-cons false false a l (err e) m' h h' = tt
Resolves-cons false d' a l (ok b) m' h h' = absurd h

module _ (go : Platform) (profiles : Profiles go) where
  -- A name is defined if it is empty or a profile has it.
  abbrev pub is_defined : String → Bool
  is_defined name = if name == "" then true else is_present (lookup name profiles)

  -- The profile that a target names, or else the role's default.
  abbrev pub profile_of : String → ProfileRef go → String
  profile_of default_profile r = if r.profile == "" then default_profile else r.profile

  abbrev inherit_chosen : MonitorParams go → Option (MonitorParams go) → MonitorParams go
  inherit_chosen p none = p
  inherit_chosen p (some q) = inherit_from go p q

  -- What a target's parameters are resolved to: those of the one profile that it names, or else of
  -- the default, fill its unset fields.
  abbrev chosen : String → ProfileRef go → MonitorParams go
  chosen default_profile r =
      let name = profile_of default_profile r in
      if name == "" then r.params else inherit_chosen r.params (lookup name profiles)

  abbrev pub all_defined : String → List (ProfileRef go) → Bool
  all_defined default_profile [] = true
  all_defined default_profile (r ∷ rs) =
      is_defined (profile_of default_profile r) && all_defined default_profile rs

  abbrev chosen_all : String → List (ProfileRef go) → List (MonitorParams go)
  chosen_all default_profile [] = []
  chosen_all default_profile (r ∷ rs) = chosen default_profile r ∷ chosen_all default_profile rs

  resolve_ref-Resolves :
      (default_profile : String) (r : ProfileRef go)
      → Resolves
          (is_defined (profile_of default_profile r))
          (chosen default_profile r)
          (resolve_ref go profiles default_profile r)
  unfolding resolve_ref
  resolve_ref-Resolves default_profile r =
      let name = profile_of default_profile r in by_name name (name == "") (lookup name profiles)
    where
      by_name :
          (name : String) (b : Bool) (o : Option (MonitorParams go))
          → Resolves
              (if b then true else is_present o)
              (if b then r.params else inherit_chosen r.params o)
              (if b then ok r.params else inherit_found go r name o)
      by_name name true o = refl
      by_name name false none = tt
      by_name name false (some q) = refl

  resolve_refs-Resolves :
      (default_profile : String) (rs : List (ProfileRef go))
      → Resolves
          (all_defined default_profile rs)
          (chosen_all default_profile rs)
          (resolve_refs go profiles default_profile rs)
  unfolding resolve_refs
  resolve_refs-Resolves default_profile [] = refl
  resolve_refs-Resolves default_profile (r ∷ rs) =
      Resolves-cons (is_defined (profile_of default_profile r)) (all_defined default_profile rs)
        (chosen default_profile r) (chosen_all default_profile rs)
        (resolve_ref go profiles default_profile r) (resolve_refs go profiles default_profile rs)
        (resolve_ref-Resolves default_profile r) (resolve_refs-Resolves default_profile rs)

  resolve_profile_refs-chosen :
      (role_name default_profile : String) (rs : List (ProfileRef go))
      → Resolves
          (is_defined default_profile && all_defined default_profile rs)
          (chosen_all default_profile rs)
          (resolve_profile_refs go profiles role_name default_profile rs)
  unfolding resolve_profile_refs
  resolve_profile_refs-chosen role_name default_profile rs =
      by_default (default_profile == "") (is_present (lookup default_profile profiles))
        (all_defined default_profile rs) (resolve_refs-Resolves default_profile rs)
    where
      by_default :
          (b p d : Bool)
          → Resolves d (chosen_all default_profile rs) (resolve_refs go profiles default_profile rs)
          → Resolves ((if b then true else p) && d) (chosen_all default_profile rs) (
              if b
              then resolve_refs go profiles default_profile rs
              else (if p
                  then resolve_refs go profiles default_profile rs
                  else err (undefined_default_profile role_name default_profile)))
      by_default true p true h = h
      by_default true p false h = h
      by_default false true true h = h
      by_default false true false h = h
      by_default false false true h = tt
      by_default false false false h = tt

  -- What a target's parameters become: they stay as they are where no profile is named, and else they
  -- are filled from the one profile.
  abbrev pub Becomes : String → ProfileRef go → MonitorParams go → Type 0
  Becomes default_profile r p =
      let name = profile_of default_profile r in
      (((name == "") ≡ true) × (p ≡ r.params))
      ⊎ (((name == "") ≡ false)
          × ((q : MonitorParams go) × (lookup name profiles ≡ some q) × Fills go r.params q p))

  abbrev pub AllBecome : String → List (ProfileRef go) → List (MonitorParams go) → Type 0
  AllBecome default_profile [] [] = Unit {0}
  AllBecome default_profile (r ∷ rs) (p ∷ ps) =
      Becomes default_profile r p × AllBecome default_profile rs ps
  AllBecome default_profile _ _ = ⊥

  chosen-Becomes :
      (default_profile : String) (r : ProfileRef go)
      → is_defined (profile_of default_profile r) ≡ true
      → Becomes default_profile r (chosen default_profile r)
  chosen-Becomes default_profile r h =
      let name = profile_of default_profile r in
      elim (Bool-cases (name == "")) [
        | inl e ↦
            inl (
              e,
              ap (λ b. if b then r.params else inherit_chosen r.params (lookup name profiles)) e,
            )
        | inr e ↦
            let (q, found) =
              present (lookup name profiles)
                (sym (ap (λ b. if b then true else is_present (lookup name profiles)) e) ∙ h) in
            let same : chosen default_profile r ≡ inherit_from go r.params q =
              ap (λ b. if b then r.params else inherit_chosen r.params (lookup name profiles)) e
              ∙ ap (inherit_chosen r.params) found in
            inr (
              e,
              (q, found, subst (Fills go r.params q) (sym same) (inherit_from-Fills go r.params q)),
            )
      ]
    where
      present :
          (o : Option (MonitorParams go))
          → is_present o ≡ true
          → (q : MonitorParams go) × (o ≡ some q)
      present none p = cc
      present (some q) p = (q, refl)

  chosen_all-AllBecome :
      (default_profile : String) (rs : List (ProfileRef go))
      → all_defined default_profile rs ≡ true
      → AllBecome default_profile rs (chosen_all default_profile rs)
  chosen_all-AllBecome default_profile [] h = tt
  chosen_all-AllBecome default_profile (r ∷ rs) h =
      let (first, rest) =
        both (is_defined (profile_of default_profile r)) (all_defined default_profile rs) h in
      (chosen-Becomes default_profile r first, chosen_all-AllBecome default_profile rs rest)
    where
      both : (a b : Bool) → (a && b) ≡ true → (a ≡ true) × (b ≡ true)
      both a b h = ground arith

  -- The resolution of a role's targets succeeds exactly if the default profile and the profile that
  -- each target names (or gets by default) are empty or defined, and then it gives every target
  -- parameters of its own: each field keeps the target's value where that is set, and has the value of
  -- the one profile where it is not; without a profile nothing changes.
  pub resolve_profile_refs-ResolvesTo :
      (role_name default_profile : String) (rs : List (ProfileRef go))
      → ResolvesTo
          (is_defined default_profile && all_defined default_profile rs)
          (AllBecome default_profile rs)
          (resolve_profile_refs go profiles role_name default_profile rs)
  resolve_profile_refs-ResolvesTo role_name default_profile rs =
      by_defined (is_defined default_profile) (all_defined default_profile rs)
        (resolve_profile_refs go profiles role_name default_profile rs)
        (chosen_all-AllBecome default_profile rs)
        (resolve_profile_refs-chosen role_name default_profile rs)
    where
      by_defined :
          (a b : Bool) (m : Result (List (MonitorParams go)))
          → (b ≡ true → AllBecome default_profile rs (chosen_all default_profile rs))
          → Resolves (a && b) (chosen_all default_profile rs) m
          → ResolvesTo (a && b) (AllBecome default_profile rs) m
      by_defined true true m f h = (chosen_all default_profile rs, h, f refl)
      by_defined true false (ok x) f h = absurd h
      by_defined true false (err e) f h = tt
      by_defined false b (ok x) f h = absurd h
      by_defined false b (err e) f h = tt

-- A target that names a profile, another one than the role's default profile, is resolved in the
-- same way whatever the default profile sets.
pub resolve_ref-default_unused :
    (go : Platform) (profiles : Profiles go) (default_profile : String) (r : ProfileRef go)
    (other : MonitorParams go)
    → (r.profile == "") ≡ false
    → (default_profile == r.profile) ≡ false
    → resolve_ref go (insert default_profile other profiles) default_profile r
      ≡ resolve_ref go profiles default_profile r
unfolding resolve_ref
resolve_ref-default_unused go profiles default_profile r other named distinct =
    rw (named, lookup-insert default_profile r.profile other profiles, distinct) refl
