-- ===== src/Daemon/Supervisor/Origins.antt =====
-- What the goroutine of a role (cmd/healthd/main.go) goes by after the role's Run has returned, against
-- what Run returned.
use healthd.Common.{
  ℕ, String, ◌≡◌, ◌≢◌, refl, ap, Bool, true, false, Option, none, some, get_elem?, set, arith, ◌==◌,
}
use healthd.Daemon.Supervisor.{
  RunError, canceled, failed, Phase, running, failing, cancelling, stopped, MainPhase, waiting,
  stopping, returned, Supervisor, Event, run_returns, records, cancels, signal, context_done,
  all_done, after_run, on_run_returns, on_records, on_cancels, on_signal, on_context_done,
  on_all_done, when_set, all_stopped, to_main, step,
}

-- The error for which a role brings the daemon down: one that Run returned, and that does not say that
-- the context was cancelled.
abbrev pub fatal_of : Option RunError → Option String
fatal_of none = none
fatal_of (some canceled) = none
fatal_of (some (failed e)) = some e

pub fatal_of_failed : (x : Option RunError) (e : String) → fatal_of x ≡ some e → x ≡ some (failed e)
fatal_of_failed none e h = cc
fatal_of_failed (some canceled) e h = cc
fatal_of_failed (some (failed f)) e h = let same : f ≡ e = cc in ap (λ g. some (failed g)) same

-- The fatal error that the goroutine goes by, once Run has returned.
abbrev pub left_with : Phase → Option (Option String)
left_with running = none
left_with (failing e) = some (some e)
left_with (cancelling e) = some (some e)
left_with (stopped o) = some o

pub left_with-after_run : (x : Option RunError) → left_with (after_run x) ≡ some (fatal_of x)
unfolding after_run
left_with-after_run none = refl
left_with-after_run (some canceled) = refl
left_with-after_run (some (failed e)) = refl

-- What a step changes of the roles.
pub data Changes (ev : Event) (s t : Supervisor) : Type 0 where
  ran :
      (i : ℕ) (name : String) (x : Option RunError)
      → ev ≡ run_returns i x
      → get_elem? s.roles i ≡ some (name, running)
      → t.roles ≡ set s.roles i (name, after_run x)
      → Changes ev s t
  went :
      (i : ℕ) (name : String) (p q : Phase) (o : Option String)
      → get_elem? s.roles i ≡ some (name, p)
      → left_with p ≡ some o
      → left_with q ≡ some o
      → t.roles ≡ set s.roles i (name, q)
      → Changes ev s t
  kept : t.roles ≡ s.roles → Changes ev s t

pub run_returns-Changes :
    (s t : Supervisor) (i : ℕ) (x : Option RunError) (o : Option (String × Phase))
    → get_elem? s.roles i ≡ o
    → on_run_returns s i x o ≡ some t
    → (name : String) × (get_elem? s.roles i ≡ some (name, running))
      × (t.roles ≡ set s.roles i (name, after_run x))
run_returns-Changes s t i x (some (name, running)) at_i h = (name, at_i, cc)
run_returns-Changes s t i x (some (name, failing e)) at_i h = cc
run_returns-Changes s t i x (some (name, cancelling e)) at_i h = cc
run_returns-Changes s t i x (some (name, stopped e)) at_i h = cc
run_returns-Changes s t i x none at_i h = cc

records-Changes :
    {ev : Event} (s t : Supervisor) (i : ℕ) (o : Option (String × Phase))
    → get_elem? s.roles i ≡ o
    → on_records s i o ≡ some t
    → Changes ev s t
records-Changes s t i (some (name, failing e)) at_i h =
    went i name (failing e) (cancelling e) (some e) at_i refl refl cc
records-Changes s t i (some (name, running)) at_i h = cc
records-Changes s t i (some (name, cancelling e)) at_i h = cc
records-Changes s t i (some (name, stopped e)) at_i h = cc
records-Changes s t i none at_i h = cc

cancels-Changes :
    {ev : Event} (s t : Supervisor) (i : ℕ) (o : Option (String × Phase))
    → get_elem? s.roles i ≡ o
    → on_cancels s i o ≡ some t
    → Changes ev s t
cancels-Changes s t i (some (name, cancelling e)) at_i h =
    went i name (cancelling e) (stopped (some e)) (some e) at_i refl refl cc
cancels-Changes s t i (some (name, running)) at_i h = cc
cancels-Changes s t i (some (name, failing e)) at_i h = cc
cancels-Changes s t i (some (name, stopped e)) at_i h = cc
cancels-Changes s t i none at_i h = cc

signal-roles : (s t : Supervisor) (c : Bool) → on_signal s c ≡ some t → t.roles ≡ s.roles
signal-roles s t true h = cc
signal-roles s t false h = cc

when_set-roles : (s t : Supervisor) (b : Bool) → when_set b s ≡ some t → t.roles ≡ s.roles
when_set-roles s t true h = cc
when_set-roles s t false h = cc

context_done-roles :
    (s t : Supervisor) (m : MainPhase) → on_context_done s m ≡ some t → t.roles ≡ s.roles
context_done-roles s t waiting h = when_set-roles (to_main s stopping) t s.cancelled h
context_done-roles s t stopping h = cc
context_done-roles s t (returned r) h = cc

all_done-roles : (s t : Supervisor) (m : MainPhase) → on_all_done s m ≡ some t → t.roles ≡ s.roles
all_done-roles s t stopping h =
    when_set-roles (to_main s (returned s.fatal_err)) t (all_stopped s.roles) h
all_done-roles s t waiting h = cc
all_done-roles s t (returned r) h = cc

pub step-Changes : {s t : Supervisor} (ev : Event) → step s ev ≡ some t → Changes ev s t
unfolding step
step-Changes {s} {t} (run_returns i x) h =
    let (name, at_i, e) = run_returns-Changes s t i x (get_elem? s.roles i) refl h in
    ran i name x refl at_i e
step-Changes {s} {t} (records i) h = records-Changes s t i (get_elem? s.roles i) refl h
step-Changes {s} {t} (cancels i) h = cancels-Changes s t i (get_elem? s.roles i) refl h
step-Changes {s} {t} signal h = kept (signal-roles s t s.cancelled h)
step-Changes {s} {t} context_done h = kept (context_done-roles s t s.main h)
step-Changes {s} {t} all_done h = kept (all_done-roles s t s.main h)

pub equal : {a b : ℕ} → (a == b) ≡ true → a ≡ b
equal h = ground arith

pub unequal : {a b : ℕ} → (a == b) ≡ false → a ≢ b
unequal h e = ground arith
