-- ===== src/Daemon/Supervisor/Follows.antt =====
-- The steps of the second half of `run` of cmd/healthd/main.go, as a relation with what each requires.
use healthd.Common.{ℕ, String, ◌≡◌, refl, Bool, true, false, Option, none, some, get_elem?}
use healthd.Daemon.Supervisor.{
  RunError, Phase, running, failing, cancelling, stopped, MainPhase, waiting, stopping, returned,
  Supervisor, Event, run_returns, records, cancels, signal, context_done, all_done, after_run, move,
  record_error, cancel, to_main, on_run_returns, on_records, on_cancels, all_stopped,
  on_context_done, on_all_done, on_signal, step,
}

-- The fatal error that a role has recorded.
abbrev pub recorded : Phase → Option String
recorded running = none
recorded (failing e) = none
recorded (cancelling e) = some e
recorded (stopped e) = e

-- The ways in which a state is followed by another.
pub data Follows (s t : Supervisor) : Type 0 where
  ended :
      (i : ℕ) (name : String) (r : Option RunError)
      → get_elem? s.roles i ≡ some (name, running)
      → t ≡ move s i name (after_run r)
      → Follows s t
  blamed :
      (i : ℕ) (name e : String)
      → get_elem? s.roles i ≡ some (name, failing e)
      → t ≡ record_error (move s i name (cancelling e)) name e
      → Follows s t
  brought_down :
      (i : ℕ) (name e : String)
      → get_elem? s.roles i ≡ some (name, cancelling e)
      → t ≡ cancel (move s i name (stopped (some e)))
      → Follows s t
  signalled : s.cancelled ≡ false → t ≡ cancel s → Follows s t
  noticed : s.main ≡ waiting → s.cancelled ≡ true → t ≡ to_main s stopping → Follows s t
  finished :
      s.main ≡ stopping
      → all_stopped s.roles ≡ true
      → t ≡ to_main s (returned s.fatal_err)
      → Follows s t

some_of {ℓ} : {A : Type ℓ} {x y : A} → some x ≡ some y → y ≡ x
some_of e = cc

run_returns_lem :
    (s t : Supervisor) (i : ℕ) (r : Option RunError) (o : Option (String × Phase))
    → get_elem? s.roles i ≡ o
    → on_run_returns s i r o ≡ some t
    → Follows s t
run_returns_lem s t i r (some (name, running)) at_i h = ended i name r at_i (some_of h)
run_returns_lem s t i r (some (name, failing e)) at_i h = cc
run_returns_lem s t i r (some (name, cancelling e)) at_i h = cc
run_returns_lem s t i r (some (name, stopped e)) at_i h = cc
run_returns_lem s t i r none at_i h = cc

records_lem :
    (s t : Supervisor) (i : ℕ) (o : Option (String × Phase))
    → get_elem? s.roles i ≡ o
    → on_records s i o ≡ some t
    → Follows s t
records_lem s t i (some (name, failing e)) at_i h = blamed i name e at_i (some_of h)
records_lem s t i (some (name, running)) at_i h = cc
records_lem s t i (some (name, cancelling e)) at_i h = cc
records_lem s t i (some (name, stopped e)) at_i h = cc
records_lem s t i none at_i h = cc

cancels_lem :
    (s t : Supervisor) (i : ℕ) (o : Option (String × Phase))
    → get_elem? s.roles i ≡ o
    → on_cancels s i o ≡ some t
    → Follows s t
cancels_lem s t i (some (name, cancelling e)) at_i h = brought_down i name e at_i (some_of h)
cancels_lem s t i (some (name, running)) at_i h = cc
cancels_lem s t i (some (name, failing e)) at_i h = cc
cancels_lem s t i (some (name, stopped e)) at_i h = cc
cancels_lem s t i none at_i h = cc

context_done_lem :
    (s t : Supervisor) (m : MainPhase) (c : Bool)
    → s.main ≡ m
    → s.cancelled ≡ c
    → on_context_done s m ≡ some t
    → Follows s t
context_done_lem s t waiting true at_m at_c h = noticed at_m at_c cc
context_done_lem s t waiting false at_m at_c h = cc
context_done_lem s t stopping c at_m at_c h = cc
context_done_lem s t (returned r) c at_m at_c h = cc

all_done_lem :
    (s t : Supervisor) (m : MainPhase) (c : Bool)
    → s.main ≡ m
    → all_stopped s.roles ≡ c
    → on_all_done s m ≡ some t
    → Follows s t
all_done_lem s t stopping true at_m at_c h = finished at_m at_c cc
all_done_lem s t stopping false at_m at_c h = cc
all_done_lem s t waiting c at_m at_c h = cc
all_done_lem s t (returned r) c at_m at_c h = cc

signal_lem : (s t : Supervisor) (c : Bool) → s.cancelled ≡ c → on_signal s c ≡ some t → Follows s t
signal_lem s t false at_c h = signalled at_c (some_of h)
signal_lem s t true at_c h = cc

pub step-Follows : {s t : Supervisor} (e : Event) → step s e ≡ some t → Follows s t
unfolding step
step-Follows {s} {t} (run_returns i r) h = run_returns_lem s t i r (get_elem? s.roles i) refl h
step-Follows {s} {t} (records i) h = records_lem s t i (get_elem? s.roles i) refl h
step-Follows {s} {t} (cancels i) h = cancels_lem s t i (get_elem? s.roles i) refl h
step-Follows {s} {t} signal h = signal_lem s t s.cancelled refl h
step-Follows {s} {t} context_done h = context_done_lem s t s.main s.cancelled refl refl h
step-Follows {s} {t} all_done h = all_done_lem s t s.main (all_stopped s.roles) refl refl h
