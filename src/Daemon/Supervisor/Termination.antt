-- ===== src/Daemon/Supervisor/Termination.antt =====
-- How long the second half of `run` of cmd/healthd/main.go goes on.
use healthd.Common.{
  ℕ, zero, suc, ◌+◌, ◌*◌, ◌<◌, ◌≤◌, String, ◌≡◌, ◌≢◌, ◌⊎◌, refl, sym, subst, ap, ◌∙◌, Bool, true,
  false, List, [], ◌∷◌, Option, none, some, get_elem?, set, map, length, inl, inr, Bool-cases,
  arith,
}
use healthd.Daemon.Supervisor.{
  RunError, canceled, failed, Phase, running, failing, cancelling, stopped, MainPhase, waiting,
  stopping, returned, Supervisor, Event, run_returns, records, cancels, context_done, all_done,
  supervise, start_role, after_run, step, Runs, start, then, all_stopped, to_main, on_run_returns,
  on_records, on_cancels, on_context_done, on_all_done, when_set,
}
use healthd.Daemon.Supervisor.Follows.{
  Follows, ended, blamed, brought_down, signalled, noticed, finished, step-Follows,
}

-- The steps that a goroutine has before it at most.
abbrev phase_steps : Phase → ℕ
phase_steps running = 3
phase_steps (failing e) = 2
phase_steps (cancelling e) = 1
phase_steps (stopped e) = 0

abbrev role_steps : List (String × Phase) → ℕ
role_steps [] = 0
role_steps ((name, p) ∷ roles) = phase_steps p + role_steps roles

abbrev main_steps : MainPhase → ℕ
main_steps waiting = 2
main_steps stopping = 1
main_steps (returned r) = 0

abbrev signals_left : Bool → ℕ
signals_left false = 1
signals_left true = 0

abbrev steps_left : Supervisor → ℕ
steps_left s = role_steps s.roles + main_steps s.main + signals_left s.cancelled

role_steps-start : (names : List String) → role_steps (map start_role names) ≡ 3 * length names
role_steps-start [] = refl
role_steps-start (n ∷ names) = omega (arith, role_steps-start names)

role_steps-set :
    (roles : List (String × Phase)) (i : ℕ) (name : String) (p q : Phase)
    → get_elem? roles i ≡ some (name, p)
    → role_steps (set roles i (name, q)) + phase_steps p ≡ role_steps roles + phase_steps q
role_steps-set [] i name p q h = cc
role_steps-set ((a, x) ∷ roles) zero name p q h =
    let same : phase_steps x ≡ phase_steps p = cc in omega (arith, same)
role_steps-set ((a, x) ∷ roles) (suc i) name p q h =
    omega (arith, role_steps-set roles i name p q h)

phase_steps-after_run : (r : Option RunError) → phase_steps (after_run r) ≤ 2
unfolding after_run
phase_steps-after_run none = omega arith
phase_steps-after_run (some canceled) = omega arith
phase_steps-after_run (some (failed e)) = omega arith

signals_left-le : (c : Bool) → signals_left c ≤ 1
signals_left-le true = omega arith
signals_left-le false = omega arith

Follows-steps_left : {s t : Supervisor} → Follows s t → steps_left t < steps_left s
Follows-steps_left {s} {t} (ended i name r at_i e) =
    let h = role_steps-set s.roles i name running (after_run r) at_i in
    let k = phase_steps-after_run r in
    subst (λ x. steps_left x < steps_left s) (sym e) (omega (arith, h, k))
Follows-steps_left {s} {t} (blamed i name f at_i e) =
    let h = role_steps-set s.roles i name (failing f) (cancelling f) at_i in
    subst (λ x. steps_left x < steps_left s) (sym e) (omega (arith, h))
Follows-steps_left {s} {t} (brought_down i name f at_i e) =
    let h = role_steps-set s.roles i name (cancelling f) (stopped (some f)) at_i in
    subst (λ x. steps_left x < steps_left s) (sym e) (omega (arith, h))
Follows-steps_left {s} {t} (signalled c e) =
    let h : signals_left s.cancelled ≡ 1 = ap signals_left c in
    subst (λ x. steps_left x < steps_left s) (sym e) (omega (arith, h))
Follows-steps_left {s} {t} (noticed m c e) =
    let h : main_steps s.main ≡ 2 = ap main_steps m in
    subst (λ x. steps_left x < steps_left s) (sym e) (omega (arith, h))
Follows-steps_left {s} {t} (finished m all e) =
    let h : main_steps s.main ≡ 1 = ap main_steps m in
    subst (λ x. steps_left x < steps_left s) (sym e) (omega (arith, h))

Runs-steps_left :
    {s t : Supervisor} {es : List Event} → Runs s es t → length es + steps_left t ≤ steps_left s
Runs-steps_left (start s) = omega arith
Runs-steps_left (then {e = e} st more) =
    omega (arith, Follows-steps_left (step-Follows e st), Runs-steps_left more)

-- A step that is possible.
abbrev pub CanStep : Supervisor → Type 0
CanStep s = (e : Event) × (t : Supervisor) × (step s e ≡ some t)

busy-CanStep :
    (s : Supervisor) (i : ℕ) (name : String) (p : Phase)
    → get_elem? s.roles i ≡ some (name, p)
    → ((o : Option String) → p ≢ stopped o)
    → CanStep s
unfolding step
busy-CanStep s i name running at_i h = (run_returns i none, _, ap (on_run_returns s i none) at_i)
busy-CanStep s i name (failing e) at_i h = (records i, _, ap (on_records s i) at_i)
busy-CanStep s i name (cancelling e) at_i h = (cancels i, _, ap (on_cancels s i) at_i)
busy-CanStep s i name (stopped o) at_i h = absurd (h o refl)

abbrev Busy : List (String × Phase) → Type 0
Busy roles =
    (i : ℕ) × (name : String) × (p : Phase) × (get_elem? roles i ≡ some (name, p))
    × ((o : Option String) → p ≢ stopped o)

later : (roles : List (String × Phase)) (x : String × Phase) → Busy roles → Busy (x ∷ roles)
later roles x (i, name, p, at_i, h) = (suc i, name, p, at_i, h)

all_stopped-Busy : (roles : List (String × Phase)) → all_stopped roles ≡ false → Busy roles
unfolding all_stopped
all_stopped-Busy [] h = cc
all_stopped-Busy ((a, running) ∷ roles) h = (0, a, running, refl, λ o. cc)
all_stopped-Busy ((a, failing e) ∷ roles) h = (0, a, failing e, refl, λ o. cc)
all_stopped-Busy ((a, cancelling e) ∷ roles) h = (0, a, cancelling e, refl, λ o. cc)
all_stopped-Busy ((a, stopped o) ∷ roles) h = later roles (a, stopped o) (all_stopped-Busy roles h)

progress :
    (s : Supervisor) (m : MainPhase)
    → s.main ≡ m
    → s.cancelled ≡ true
    → ((r : Option (String × String)) × (s.main ≡ returned r)) ⊎ CanStep s
unfolding step
progress s waiting at_m c =
    inr (context_done, _, ap (on_context_done s) at_m ∙ ap (λ b. when_set b (to_main s stopping)) c)
progress s stopping at_m c = elim (Bool-cases (all_stopped s.roles)) [
  | inl all ↦ inr (
    all_done,
    _,
    ap (on_all_done s) at_m ∙ ap (λ b. when_set b (to_main s (returned s.fatal_err))) all,
  )
  | inr busy ↦
      let (i, name, p, at_i, h) = all_stopped-Busy s.roles busy in
      inr (busy-CanStep s i name p at_i h)
]
progress s (returned r) at_m c = inl (r, at_m)

-- However the goroutines of `n` roles are scheduled, a run takes at most 3 n + 3 steps; and at each of
-- its states the context is not cancelled yet, or it has returned, or it can take a step, where the `Run`
-- of a role that still runs can return.
pub run_ends :
    (names : List String) {es : List Event} {s : Supervisor}
    → Runs (supervise names) es s
    → (length es ≤ 3 * length names + 3)
      × ((s.cancelled ≡ false)
          ⊎ (((r : Option (String × String)) × (s.main ≡ returned r)) ⊎ CanStep s))
unfolding supervise
run_ends names {es} {s} runs = (
  omega (arith, Runs-steps_left runs, role_steps-start names),
  elim (Bool-cases s.cancelled) [ inl c ↦ inr (progress s s.main refl c) | inr off ↦ inl off ],
)
