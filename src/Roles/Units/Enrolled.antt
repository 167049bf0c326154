-- ===== src/Roles/Units/Enrolled.antt =====
-- The registry and the units that the constructors of the roles leave (ping_monitor.go, url_monitor.go,
-- internet_check.go, speed_check.go).
use text.Mathlib.Text.{◌==◌ as str_eq}
use healthd.Common.{
  String, ◌<>◌, ◌≡◌, refl, sym, subst, ap, ◌∙◌, true, List, [], ◌∷◌, ◌++◌, Option, none, some, inl,
  inr, Bool-cases, append-nil, append_assoc,
}
use healthd.Common.Int.{ℤ}
use healthd.Common.Assoc.{contains}
use healthd.Platform.{Platform}
use healthd.Monitor.StateMachine as Machine
use healthd.Monitor.Registry.{Registry, new_registry, register}
use healthd.Monitor.Registry.Spec.{Op, register_op, apply, run, fresh_view, view_step, view_of}
use healthd.Roles.Units.{
  unit_of, RoleTarget, MonitoredUnit, Fleet, new_monitors, new_internet_check, new_speed_check,
  add_monitors, add_internet_check, add_speed_check, new_fleet,
}
use healthd.Roles.Units.Own.{Named}

module _ (go : Platform) where
  abbrev pub target_names : String → List (RoleTarget go) → List String
  target_names prefix [] = []
  target_names prefix (t ∷ ts) = (prefix <> t.address) ∷ target_names prefix ts

  abbrev pub name_if : {A : Type 0} → Option A → String → List String
  name_if none n = []
  name_if (some a) n = n ∷ []

  abbrev pub registers : List String → List (Op go)
  registers [] = []
  registers (n ∷ ns) = register_op n ∷ registers ns

  -- The fleet's units carry the names, which are registered in this order.
  pub record Enrolled (names : List String) (f : Fleet go) : Type 0 where
    pub named : Named go f.units names
    pub has : f.registry ≡ some (run go (new_registry go) (registers names))

  run-registers_snoc :
      (r : Registry go) (ns : List String) (n : String)
      → run go r (registers (ns ++ n ∷ [])) ≡ apply go (run go r (registers ns)) (register_op n)
  unfolding run
  run-registers_snoc r [] n = refl
  run-registers_snoc r (m ∷ ns) n = run-registers_snoc (apply go r (register_op m)) ns n

  Named-snoc :
      (us : List (MonitoredUnit go)) (ns : List String) (u : MonitoredUnit go) (n : String)
      → Named go us ns
      → u.handle ≡ some (record { name = n })
      → Named go (us ++ u ∷ []) (ns ++ n ∷ [])
  Named-snoc [] [] u n h e = (e, tt)
  Named-snoc (v ∷ us) (m ∷ ns) u n h e = (h.0, Named-snoc us ns u n h.1 e)
  Named-snoc [] (m ∷ ns) u n h e = absurd h
  Named-snoc (v ∷ us) [] u n h e = absurd h

  -- One registration.
  Enrolled-snoc :
      {names : List String} {f : Fleet go} (n : String) (u : MonitoredUnit go)
      → Enrolled names f
      → u.handle ≡ (register go f.registry n).1
      → Enrolled
          (names ++ n ∷ [])
          (record { units = f.units ++ u ∷ []; registry = (register go f.registry n).0 })
  unfolding register
  Enrolled-snoc {names} {f} n u h e = record {
    named = Named-snoc f.units names u n h.named (e ∙ ap (λ r. (register go r n).1) h.has);
    has =
        ap (λ r. (register go r n).0) h.has
        ∙ ap some (sym (run-registers_snoc (new_registry go) names n ∙ unfold apply in refl));
  }

  -- The loop of NewPingMonitor and NewURLMonitor.
  Enrolled-monitors :
      (prefix : String) (ts : List (RoleTarget go)) (names : List String) (f : Fleet go)
      → Enrolled names f
      → Enrolled
          (names ++ target_names prefix ts)
          (add_monitors go (new_monitors go prefix ts f.registry) f.units)
  unfolding new_monitors
  Enrolled-monitors prefix [] names f h = rw (append-nil names, append-nil f.units) h
  Enrolled-monitors prefix (t ∷ ts) names f h =
      let n = prefix <> t.address in
      let (r', handle) = register go f.registry n in
      let u = unit_of go t.interval t.timeout t.channels t.mon handle in
      let (r'', us) = new_monitors go prefix ts r' in
      let later = Enrolled-monitors prefix ts (names ++ n ∷ []) _ (Enrolled-snoc n u h refl) in
      subst
        (λ us'.
          Enrolled (names ++ n ∷ target_names prefix ts) (record { units = us'; registry = r'' }))
        (append_assoc f.units (u ∷ []) us)
        (subst (λ ns. Enrolled ns (record { units = (f.units ++ u ∷ []) ++ us; registry = r'' }))
          (append_assoc names (n ∷ []) (target_names prefix ts)) later)

  Enrolled-internet :
      {names : List String} {f : Fleet go} (c : Option (ℤ × ℤ × Machine.Config go × List String))
      → Enrolled names f
      → Enrolled (names ++ name_if c "internet_check") (add_internet_check go c f)
  unfolding new_internet_check
  Enrolled-internet none h = rw append-nil h
  Enrolled-internet {f = f} (some (interval, timeout, mon, channels)) h =
      Enrolled-snoc "internet_check" _ h refl

  Enrolled-speed :
      {names : List String} {f : Fleet go} (c : Option (ℤ × Machine.Config go × List String))
      → Enrolled names f
      → Enrolled (names ++ name_if c "speed_check") (add_speed_check go c f)
  unfolding new_speed_check
  Enrolled-speed none h = rw append-nil h
  Enrolled-speed {f = f} (some (interval, mon, channels)) h = Enrolled-snoc "speed_check" _ h refl

  -- The names of the units, in the order in which they are registered.
  abbrev pub fleet_names :
      List (RoleTarget go)
      → List (RoleTarget go)
      → Option (ℤ × ℤ × Machine.Config go × List String)
      → Option (ℤ × Machine.Config go × List String)
      → List String
  fleet_names pings urls internet speed =
      ((target_names "ping_monitor:" pings ++ target_names "url_monitor:" urls)
        ++ name_if internet "internet_check")
      ++ name_if speed "speed_check"

  pub new_fleet-Enrolled :
      (pings urls : List (RoleTarget go))
      (internet : Option (ℤ × ℤ × Machine.Config go × List String))
      (speed : Option (ℤ × Machine.Config go × List String))
      → Enrolled (fleet_names pings urls internet speed) (new_fleet go pings urls internet speed)
  unfolding new_fleet run
  new_fleet-Enrolled pings urls internet speed =
      let empty : Enrolled [] (record { units = []; registry = some (new_registry go) }) = record {
        named = tt;
        has = refl;
      } in
      Enrolled-speed speed (
        Enrolled-internet internet (
          Enrolled-monitors "url_monitor:" urls _ _
            (Enrolled-monitors "ping_monitor:" pings _ _ empty)))

  again :
      (name n : String)
      → view_step go name (register_op n) (some (fresh_view go name)) ≡ some (fresh_view go name)
  again name n = elim (Bool-cases (str_eq n name)) [ inl e ↦ rw e refl | inr e ↦ rw e refl ]

  view_of-registers_held :
      (name : String) (ns : List String)
      → view_of go name (some (fresh_view go name)) (registers ns) ≡ some (fresh_view go name)
  view_of-registers_held name [] = refl
  view_of-registers_held name (n ∷ ns) =
      ap (λ v. view_of go name v (registers ns)) (again name n) ∙ view_of-registers_held name ns

  -- What the registrations leave of one name.
  pub view_of-registers :
      (name : String) (ns : List String)
      → contains name ns ≡ true
      → view_of go name none (registers ns) ≡ some (fresh_view go name)
  view_of-registers name [] h = cc
  view_of-registers name (n ∷ ns) h = elim (Bool-cases (str_eq n name)) [
    | inl e ↦
        let first : view_step go name (register_op n) none ≡ some (fresh_view go name) =
          rw e refl in
        ap (λ v. view_of go name v (registers ns)) first ∙ view_of-registers_held name ns
    | inr e ↦
        let first : view_step go name (register_op n) none ≡ none = rw e refl in
        ap (λ v. view_of go name v (registers ns)) first ∙ view_of-registers name ns (rw e at h)
  ]
