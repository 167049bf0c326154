-- ===== src/Tests/Shutdowns.antt =====
-- Concrete runs of the second half of `run` of cmd/healthd/main.go.
use healthd.Common.{
  ℕ, get_elem?, false, not, ◌||◌, is_present, ◌≤◌, ◌*◌, ◌+◌, String, ◌≡◌, ◌⊎◌, refl, Bool, true,
  List, [], ◌∷◌, Option, none, some, length,
}
use healthd.Daemon.Supervisor.{
  RunError, after_run, first_error, all_stopped, failed, canceled, Phase, failing, stopped,
  MainPhase, returned, Supervisor, Event, run_returns, records, cancels, context_done, all_done,
  supervise, step, Runs, start, then,
}
use healthd.Daemon.Supervisor.Shutdown.{ComesFrom, run-returned, records_first}
use healthd.Daemon.Supervisor.Origins.{fatal_of}
use healthd.Daemon.Supervisor.Termination.{CanStep, run_ends}

abbrev role_names : List String
role_names = "ping_monitor" ∷ "tcp_listener" ∷ []

abbrev bind_error : String × String
bind_error = ("tcp_listener", "address in use")

-- The listener cannot bind.
abbrev before_record : List Event
before_record = run_returns 1 (some (failed "address in use")) ∷ []

abbrev after_record : List Event
after_record = cancels 1 ∷ context_done ∷ run_returns 0 (some canceled) ∷ all_done ∷ []

abbrev failed_bind : Supervisor
failed_bind = record {
  roles = ("ping_monitor", Phase.running) ∷ ("tcp_listener", failing "address in use") ∷ [];
  fatal_err = none;
  cancelled = Bool.false;
  main = MainPhase.waiting;
}

abbrev recorded_bind : Supervisor
recorded_bind = record failed_bind {
  roles =
      ("ping_monitor", Phase.running) ∷ ("tcp_listener", Phase.cancelling "address in use") ∷ [];
  fatal_err = some bind_error;
}

abbrev ended : Supervisor
ended = record {
  roles = ("ping_monitor", stopped none) ∷ ("tcp_listener", stopped (some "address in use")) ∷ [];
  fatal_err = some bind_error;
  cancelled = true;
  main = returned (some bind_error);
}

abbrev to_failed_bind : Runs (supervise role_names) before_record failed_bind
unfolding supervise step after_run
to_failed_bind = then refl (start failed_bind)

abbrev to_ended : Runs recorded_bind after_record ended
unfolding step after_run all_stopped
to_ended = then refl (then refl (then refl (then refl (start ended))))

abbrev whole_run :
    Runs
      (supervise role_names)
      (run_returns 1 (some (failed "address in use")) ∷ records 1 ∷ after_record)
      ended
unfolding supervise step after_run first_error
whole_run = then refl (then refl to_ended)

abbrev whole : List Event
whole = run_returns 1 (some (failed "address in use")) ∷ records 1 ∷ after_record

run-returned_example :
    (ended.cancelled ≡ true)
    × ((l : ℕ) × (y : Option RunError) × (get_elem? whole l ≡ some (run_returns 0 y)))
    × ComesFrom role_names whole (some bind_error)
    × ((not (is_present (fatal_of (some (failed "address in use"))))
          || is_present (some bind_error))
        ≡ true)
run-returned_example =
    run-returned role_names (some bind_error) 0 "ping_monitor" 0 1 (some (failed "address in use"))
      whole_run refl refl refl

records_first_example : some bind_error ≡ some ("tcp_listener", "address in use")
unfolding step first_error
records_first_example =
    records_first role_names 1 "tcp_listener" "address in use" (some bind_error) to_failed_bind refl
      refl refl to_ended refl

run_ends_example :
    (length (run_returns 1 (some (failed "address in use")) ∷ records 1 ∷ after_record)
      ≤ 3 * length role_names + 3)
    × ((ended.cancelled ≡ false)
        ⊎ (((r : Option (String × String)) × (ended.main ≡ returned r)) ⊎ CanStep ended))
run_ends_example = run_ends role_names whole_run
