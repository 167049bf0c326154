-- ===== src/Daemon/Supervisor/Shutdown.antt =====
-- What the second half of `run` of cmd/healthd/main.go returns.
use healthd.Common.{
  refl, ◌⊎◌, not, ◌||◌, is_present, ℕ, zero, suc, String, ◌≡◌, sym, subst, ap, ◌∙◌, true, List, [],
  ◌∷◌, Option, none, some, map, get_elem?, inl, inr,
}
use healthd.Daemon.Supervisor.{
  RunError, failed, run_returns, Phase, running, failing, cancelling, stopped, returned, Supervisor,
  Event, records, supervise, first_error, record_error, move, step, Runs, start, then, all_stopped,
  on_records,
}
use healthd.Daemon.Supervisor.Follows.{
  recorded, Follows, ended, blamed, brought_down, signalled, noticed, finished, step-Follows,
}
use healthd.Daemon.Supervisor.Origins.{fatal_of, fatal_of_failed, left_with}
use healthd.Daemon.Supervisor.Returns.{
  role_name, returned-LeftWith, supervise-Returned, supervise-names,
}
use healthd.Daemon.Supervisor.Valid.{IsValid, Sound, supervise-IsValid}
use healthd.Daemon.Supervisor.Invariant.{run-IsValid}

all_stopped-get_elem? :
    (roles : List (String × Phase)) (i : ℕ) (name : String) (p : Phase)
    → all_stopped roles ≡ true
    → get_elem? roles i ≡ some (name, p)
    → (o : Option String) × (p ≡ stopped o)
unfolding all_stopped
all_stopped-get_elem? [] i name p all h = cc
all_stopped-get_elem? ((a, stopped o) ∷ roles) zero name p all h = (o, cc)
all_stopped-get_elem? ((a, stopped o) ∷ roles) (suc i) name p all h =
    all_stopped-get_elem? roles i name p all h
all_stopped-get_elem? ((a, running) ∷ roles) i name p all h = cc
all_stopped-get_elem? ((a, failing e) ∷ roles) i name p all h = cc
all_stopped-get_elem? ((a, cancelling e) ∷ roles) i name p all h = cc

first_error-some :
    (o : Option (String × String)) (x y : String × String) → o ≡ some x → first_error o y ≡ some x
unfolding first_error
first_error-some none x y h = cc
first_error-some (some z) x y h = h

Follows-fatal_err :
    {s t : Supervisor} (x : String × String)
    → Follows s t
    → s.fatal_err ≡ some x
    → t.fatal_err ≡ some x
Follows-fatal_err {s} {t} x (ended i name r at_i e) h = ap (λ u. u.fatal_err) e ∙ h
Follows-fatal_err {s} {t} x (blamed i name f at_i e) h =
    ap (λ u. u.fatal_err) e ∙ first_error-some s.fatal_err x (name, f) h
Follows-fatal_err {s} {t} x (brought_down i name f at_i e) h = ap (λ u. u.fatal_err) e ∙ h
Follows-fatal_err {s} {t} x (signalled c e) h = ap (λ u. u.fatal_err) e ∙ h
Follows-fatal_err {s} {t} x (noticed m c e) h = ap (λ u. u.fatal_err) e ∙ h
Follows-fatal_err {s} {t} x (finished m all e) h = ap (λ u. u.fatal_err) e ∙ h

Runs-fatal_err :
    {s t : Supervisor} {es : List Event} (x : String × String)
    → Runs s es t
    → s.fatal_err ≡ some x
    → t.fatal_err ≡ some x
Runs-fatal_err x (start s) h = h
Runs-fatal_err x (then {e = e} st more) h =
    Runs-fatal_err x more (Follows-fatal_err x (step-Follows e st) h)

-- What a run returns explains its roles: it is none, or the error with which one of them has stopped.
abbrev pub Explained : Option (String × String) → List (String × Phase) → Type 0
Explained r roles =
    (r ≡ none)
    ⊎ ((name : String) × (e : String) × (i : ℕ) × (r ≡ some (name, e))
        × (get_elem? roles i ≡ some (name, stopped (some e))))

returned-Explained :
    (s : Supervisor) (r : Option (String × String))
    → IsValid s
    → r ≡ s.fatal_err
    → all_stopped s.roles ≡ true
    → Explained r s.roles
returned-Explained s none v same all = inl refl
returned-Explained s (some (name, e)) v same all =
    let b = v.origin name e (sym same) in
    let (o, q) = all_stopped-get_elem? s.roles b.place name b.phase all b.stands in
    let erred : stopped o ≡ stopped (some e) = ap stopped (sym (ap recorded q) ∙ b.erred) in
    inr (name, e, b.place, refl, b.stands ∙ ap (λ p. some (name, p)) (q ∙ erred))

returned-kept :
    (s : Supervisor) (r : Option (String × String)) (i : ℕ) (name : String) (o : Option String)
    → IsValid s
    → r ≡ s.fatal_err
    → get_elem? s.roles i ≡ some (name, stopped o)
    → (not (is_present o) || is_present r) ≡ true
returned-kept s r i name none v same at_i = refl
returned-kept s none i name (some x) v same at_i =
    absurd (v.kept i name x (stopped (some x)) at_i refl (sym same))
returned-kept s (some y) i name (some x) v same at_i = refl

role_named :
    (roles : List (String × Phase)) (i : ℕ) (n : String)
    → get_elem? (map role_name roles) i ≡ some n
    → (p : Phase) × (get_elem? roles i ≡ some (n, p))
role_named [] i n h = cc
role_named ((m, p) ∷ roles) zero n h = let same : m ≡ n = cc in (p, ap (λ k. some (k, p)) same)
role_named ((m, p) ∷ roles) (suc i) n h = role_named roles i n h

name_of_role :
    (roles : List (String × Phase)) (i : ℕ) (n : String) (p : Phase)
    → get_elem? roles i ≡ some (n, p)
    → get_elem? (map role_name roles) i ≡ some n
name_of_role [] i n p h = cc
name_of_role ((m, q) ∷ roles) zero n p h = let same : m ≡ n = cc in ap some same
name_of_role ((m, q) ∷ roles) (suc i) n p h = name_of_role roles i n p h

-- What the run returns is the fatal error of a Run of one of its roles, or none.
abbrev pub ComesFrom : List String → List Event → Option (String × String) → Type 0
ComesFrom names es r =
    (r ≡ none)
    ⊎ ((name : String) × (e : String) × (i : ℕ) × (k : ℕ) × (r ≡ some (name, e))
        × (get_elem? names i ≡ some name)
        × (get_elem? es k ≡ some (run_returns i (some (failed e)))))

Explained-ComesFrom :
    (names : List String) {es : List Event} {s : Supervisor} (r : Option (String × String))
    → Runs (supervise names) es s
    → Explained r s.roles
    → ComesFrom names es r
Explained-ComesFrom names r runs (inl e) = inl e
Explained-ComesFrom names {es} {s} r runs (inr (name, e, i, same, at_i)) =
    let w =
      supervise-Returned names runs
        (record { phase = stopped (some e); stands = at_i; goes_by = refl }) in
    inr (
      name,
      e,
      i,
      w.place,
      same,
      ap (λ l. get_elem? l i) (sym (supervise-names names runs))
          ∙ name_of_role s.roles i name (stopped (some e)) at_i,
      w.happens ∙ ap (λ x. some (run_returns i x)) (fatal_of_failed w.result e w.fatal),
    )

-- A role whose Run returned a fatal error is not forgotten.
fatal_kept :
    {es : List Event} {s : Supervisor} (names : List String) (r : Option (String × String))
    (k i : ℕ) (x : Option RunError)
    → Runs (supervise names) es s
    → r ≡ s.fatal_err
    → all_stopped s.roles ≡ true
    → get_elem? es k ≡ some (run_returns i x)
    → (not (is_present (fatal_of x)) || is_present r) ≡ true
fatal_kept {s = s} names r k i x runs same all at_k =
    let v = run-IsValid runs (supervise-IsValid names) in
    let (n, w) = returned-LeftWith k i x runs at_k in
    let (o, q) = all_stopped-get_elem? s.roles i n w.phase all w.stands in
    let both : some o ≡ some (fatal_of x) = sym (ap left_with q) ∙ w.goes_by in
    subst (λ f. (not (is_present f) || is_present r) ≡ true) (some_inj both)
      (returned-kept s r i n o v same (w.stands ∙ ap (λ p. some (n, p)) q))
  where
    some_inj : {a b : Option String} → ◌≡◌ {A = Option (Option String)} (some a) (some b) → a ≡ b
    some_inj h = cc

-- A run that has returned had its context cancelled, and the Run of each of its roles has returned. What
-- the run returns is none, or an error that the Run of a role returned, with the name of that role, which
-- is not the cancellation of the context; and it is an error if any Run returned such a one.
pub run-returned :
    (names : List String) {es : List Event} {s : Supervisor} (r : Option (String × String)) (i : ℕ)
    (name : String) (k j : ℕ) (x : Option RunError)
    → Runs (supervise names) es s
    → s.main ≡ returned r
    → get_elem? names i ≡ some name
    → get_elem? es k ≡ some (run_returns j x)
    → (s.cancelled ≡ true)
      × ((l : ℕ) × (y : Option RunError) × (get_elem? es l ≡ some (run_returns i y)))
      × ComesFrom names es r
      × ((not (is_present (fatal_of x)) || is_present r) ≡ true)
run-returned names {es} {s} r i name k j x runs m at_i at_k =
    let v = run-IsValid runs (supervise-IsValid names) in
    let (c, same, all) : Sound s.fatal_err s.cancelled s.roles (returned r) =
      subst (Sound s.fatal_err s.cancelled s.roles) m v.sound in
    let (p, at_s) =
      role_named s.roles i name (ap (λ l. get_elem? l i) (supervise-names names runs) ∙ at_i) in
    let (o, q) = all_stopped-get_elem? s.roles i name p all at_s in
    let own =
      supervise-Returned names runs
        (record { phase = p; stands = at_s; goes_by = ap left_with q }) in
    (
      c,
      (own.place, own.result, own.happens),
      Explained-ComesFrom names r runs (returned-Explained s r v same all),
      fatal_kept names r k j x runs same all at_k,
    )

-- The error that a role records when none is recorded yet is the one that the run returns, if it comes
-- to return.
pub records_first :
    (names : List String) {es fs : List Event} {s t u : Supervisor} (i : ℕ) (name e : String)
    (r : Option (String × String))
    → Runs (supervise names) es s
    → s.fatal_err ≡ none
    → get_elem? s.roles i ≡ some (name, failing e)
    → step s (records i) ≡ some t
    → Runs t fs u
    → u.main ≡ returned r
    → r ≡ some (name, e)
unfolding step first_error
records_first names {es} {fs} {s} {t} {u} i name e r before clear at_i st after m =
    let moved : some t ≡ on_records s i (some (name, failing e)) =
      sym st ∙ ap (on_records s i) at_i in
    let same : t ≡ record_error (move s i name (cancelling e)) name e = cc in
    let found : t.fatal_err ≡ some (name, e) =
      ap (λ x. x.fatal_err) same ∙ ap (λ o. first_error o (name, e)) clear in
    let v =
      run-IsValid (then {e = records i} st after) (run-IsValid before (supervise-IsValid names)) in
    let (c, same, all) : Sound u.fatal_err u.cancelled u.roles (returned r) =
      subst (Sound u.fatal_err u.cancelled u.roles) m v.sound in
    same ∙ Runs-fatal_err (name, e) after found
