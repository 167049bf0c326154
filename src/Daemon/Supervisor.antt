-- ===== src/Daemon/Supervisor.antt =====
-- The second half of `run` of cmd/healthd/main.go: the goroutine of each role, the first fatal error, the
-- cancellation and the wait for the roles. An event is one step of one goroutine or a signal, and an
-- order of events is an interleaving; what `Run` of a role returns is part of its event.
pub mod Follows
pub mod Valid
pub mod Invariant
pub mod Termination
pub mod Origins
pub mod Returns
pub mod Shutdown
use healthd.Common.{
  ℕ, ◌≡◌, String, Bool, true, false, List, [], ◌∷◌, Option, none, some, map, get_elem?, set,
}

-- An error of a role's Run: one that `errors.Is(err, context.Canceled)` holds of, or another.
pub data RunError : Type 0 where
  canceled : RunError
  failed : String → RunError

-- Where the goroutine of a role stands: in `Run`, before the lock, before `cancel()`, or at its end
-- with the fatal error that it had.
pub data Phase : Type 0 where
  running : Phase
  failing : String → Phase
  cancelling : String → Phase
  stopped : Option String → Phase

-- Where `run` stands: at `<-ctx.Done()`, at `wg.Wait()`, or at its end with the error that it returns.
pub data MainPhase : Type 0 where
  waiting : MainPhase
  stopping : MainPhase
  returned : Option (String × String) → MainPhase

pub record Supervisor : Type 0 where
  pub roles : List (String × Phase)
  pub fatal_err : Option (String × String)
  pub cancelled : Bool
  pub main : MainPhase

pub data Event : Type 0 where
  run_returns : ℕ → Option RunError → Event
  records : ℕ → Event
  cancels : ℕ → Event
  signal : Event
  context_done : Event
  all_done : Event

abbrev pub start_role : String → String × Phase
start_role name = (name, running)

-- The state when every goroutine has been started.
unfoldable pub supervise : List String → Supervisor
supervise names = record {
  roles = map start_role names;
  fatal_err = none;
  cancelled = false;
  main = waiting;
}

-- `err != nil && !errors.Is(err, context.Canceled)`
unfoldable pub after_run : Option RunError → Phase
after_run none = stopped none
after_run (some canceled) = stopped none
after_run (some (failed e)) = failing e

-- Only the first error is kept.
unfoldable pub first_error : Option (String × String) → String × String → Option (String × String)
first_error none x = some x
first_error (some y) x = some y

abbrev pub move : Supervisor → ℕ → String → Phase → Supervisor
move s i name p = record {
  roles = set s.roles i (name, p);
  fatal_err = s.fatal_err;
  cancelled = s.cancelled;
  main = s.main;
}

abbrev pub record_error : Supervisor → String → String → Supervisor
record_error s name e = record {
  roles = s.roles;
  fatal_err = first_error s.fatal_err (name, e);
  cancelled = s.cancelled;
  main = s.main;
}

abbrev pub cancel : Supervisor → Supervisor
cancel s = record { roles = s.roles; fatal_err = s.fatal_err; cancelled = true; main = s.main }

abbrev pub to_main : Supervisor → MainPhase → Supervisor
to_main s m = record { roles = s.roles; fatal_err = s.fatal_err; cancelled = s.cancelled; main = m }

-- The steps of a goroutine; none where it does not stand at that step.
abbrev pub on_run_returns :
    Supervisor → ℕ → Option RunError → Option (String × Phase) → Option Supervisor
on_run_returns s i r (some (name, running)) = some (move s i name (after_run r))
on_run_returns s i r (some (name, failing e)) = none
on_run_returns s i r (some (name, cancelling e)) = none
on_run_returns s i r (some (name, stopped e)) = none
on_run_returns s i r none = none

abbrev pub on_records : Supervisor → ℕ → Option (String × Phase) → Option Supervisor
on_records s i (some (name, failing e)) = some (record_error (move s i name (cancelling e)) name e)
on_records s i (some (name, running)) = none
on_records s i (some (name, cancelling e)) = none
on_records s i (some (name, stopped e)) = none
on_records s i none = none

abbrev pub on_cancels : Supervisor → ℕ → Option (String × Phase) → Option Supervisor
on_cancels s i (some (name, cancelling e)) = some (cancel (move s i name (stopped (some e))))
on_cancels s i (some (name, running)) = none
on_cancels s i (some (name, failing e)) = none
on_cancels s i (some (name, stopped e)) = none
on_cancels s i none = none

-- `wg.Wait()` goes on when every role has called `wg.Done()`.
unfoldable pub all_stopped : List (String × Phase) → Bool
all_stopped [] = true
all_stopped ((name, stopped e) ∷ roles) = all_stopped roles
all_stopped ((name, running) ∷ roles) = false
all_stopped ((name, failing e) ∷ roles) = false
all_stopped ((name, cancelling e) ∷ roles) = false

abbrev pub when_set : Bool → Supervisor → Option Supervisor
when_set true s = some s
when_set false s = none

abbrev pub on_context_done : Supervisor → MainPhase → Option Supervisor
on_context_done s waiting = when_set s.cancelled (to_main s stopping)
on_context_done s stopping = none
on_context_done s (returned r) = none

abbrev pub on_all_done : Supervisor → MainPhase → Option Supervisor
on_all_done s stopping = when_set (all_stopped s.roles) (to_main s (returned s.fatal_err))
on_all_done s waiting = none
on_all_done s (returned r) = none

-- A signal counts once: the context is cancelled by the first.
abbrev pub on_signal : Supervisor → Bool → Option Supervisor
on_signal s true = none
on_signal s false = some (cancel s)

unfoldable pub step : Supervisor → Event → Option Supervisor
unfolding after_run first_error all_stopped
step s (run_returns i r) = on_run_returns s i r (get_elem? s.roles i)
step s (records i) = on_records s i (get_elem? s.roles i)
step s (cancels i) = on_cancels s i (get_elem? s.roles i)
step s signal = on_signal s s.cancelled
step s context_done = on_context_done s s.main
step s all_done = on_all_done s s.main

-- A run takes the steps of its events in turn.
pub data Runs : Supervisor → List Event → Supervisor → Type 0 where
  start : (s : Supervisor) → Runs s [] s
  then :
      {s t u : Supervisor} {e : Event} {es : List Event}
      → step s e ≡ some t
      → Runs t es u
      → Runs s (e ∷ es) u
