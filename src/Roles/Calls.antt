-- ===== src/Roles/Calls.antt =====
-- The checks of all units, call by call: run and runCheck of internal/roles/ping_monitor.go and
-- url_monitor.go, Run and runCheck of internet_check.go and speed_check.go, and dispatchEvent of
-- roles.go. A runCheck is a goroutine's own work on the unit's machine and a series of calls of the
-- shared registry and the notifier. The mutex makes each call one step, and the calls of the units'
-- goroutines interleave in any order. Loops.antt is the same with a whole check as one step.
pub mod Ops
pub mod Outcome
pub mod Sent
pub mod Pending
pub mod Settled
pub mod Follow
pub mod Isolation
pub mod Alerts
pub mod Left
pub mod Completes
pub mod Registered
pub mod Summaries
pub mod Lines
pub mod Work
pub mod Drains
use healthd.Common.{◌≡◌, ℕ, List, [], ◌∷◌, ◌++◌, Option, none, some, get_elem?, map, set}
use healthd.Platform.{Platform}
use healthd.Monitor.StateMachine.{Event, StateMachine, observe}
use healthd.Monitor.Registry.{Registry, handle_update, handle_record_check}
use healthd.Monitor.Registry.Summary.{LogLine}
use healthd.Roles.Check.{Alert, dispatch_event, record_speed_on, snapshot_on}
use healthd.Roles.Units.{MonitoredUnit, Fleet, Round}

module _ (go : Platform) where
  -- Where a unit's goroutine stands: in the `select` of its loop, returned from its loop, or in a
  -- runCheck whose probe has returned, before one of its calls. A check that measures no speed does
  -- nothing at before_record_speed.
  pub data Phase (E : Type 0) : Type 0 where
    waiting returned : Phase E
    before_observe : Round go E → Phase E
    before_update before_record_check before_record_speed before_log_snapshot before_dispatch :
        Round go E → Event → Phase E

  -- What one call does: the unit's machine and the registry after it, the lines and alerts that it
  -- puts out, and where the goroutine stands then.
  pub record Effect (E : Type 0) : Type 0 where
    pub machine : StateMachine go
    pub registry : Option (Registry go)
    pub line : Option (LogLine go)
    pub alert : Option (Alert go E)
    pub next : Phase E

  -- The next call of the unit's goroutine, if it is in a runCheck.
  unfoldable pub call :
      {E : Type 0} → MonitoredUnit go → Option (Registry go) → Phase E → Option (Effect E)
  unfolding observe handle_update handle_record_check dispatch_event
  call u r waiting = none
  call u r returned = none
  call u r (before_observe c) =
      let (m, ev) = observe go u.machine c.success c.at.observed in
      some
        (record { machine = m; registry = r; line = none; alert = none; next = before_update c ev })
  call u r (before_update c ev) = some (record {
    machine = u.machine;
    registry = handle_update go u.handle u.machine r;
    line = none;
    alert = none;
    next = before_record_check c ev;
  })
  call u r (before_record_check c ev) = some (record {
    machine = u.machine;
    registry = handle_record_check go u.handle c.at.recorded c.success r;
    line = none;
    alert = none;
    next = before_record_speed c ev;
  })
  call u r (before_record_speed c ev) = some (record {
    machine = u.machine;
    registry = record_speed_on go c.speed u.handle c.at.recorded r;
    line = none;
    alert = none;
    next = before_log_snapshot c ev;
  })
  call u r (before_log_snapshot c ev) = some (record {
    machine = u.machine;
    registry = r;
    line = snapshot_on go ev u.handle r;
    alert = none;
    next = before_dispatch c ev;
  })
  call u r (before_dispatch c ev) = some (record {
    machine = u.machine;
    registry = r;
    line = none;
    alert = dispatch_event go c.role c.detail ev u.machine.consecutive c.at.dispatched;
    next = waiting;
  })

  -- All units with their registry, where their goroutines stand, the snapshot lines logged, and the
  -- alerts dispatched, each with the unit that dispatched it.
  pub record Monitors (E : Type 0) : Type 0 where
    pub fleet : Fleet go
    pub phases : List (Phase E)
    pub lines : List (LogLine go)
    pub sent : List (ℕ × Alert go E)

  abbrev pub wait_first : {E : Type 0} → MonitoredUnit go → Phase E
  wait_first u = waiting

  unfoldable pub start_monitors : {E : Type 0} → Fleet go → Monitors E
  start_monitors f = record { fleet = f; phases = map wait_first f.units; lines = []; sent = [] }

  abbrev pub lines_with : Option (LogLine go) → List (LogLine go) → List (LogLine go)
  lines_with none ls = ls
  lines_with (some l) ls = ls ++ l ∷ []

  abbrev pub sent_with :
      {E : Type 0} → ℕ → Option (Alert go E) → List (ℕ × Alert go E) → List (ℕ × Alert go E)
  sent_with i none earlier = earlier
  sent_with i (some a) earlier = earlier ++ (i, a) ∷ []

  -- A step of one goroutine: its ticker fires and the probe of its runCheck returns, its next call
  -- takes place, or its loop sees `ctx.Done()`.
  pub data Move (E : Type 0) : Type 0 where
    ticks : Round go E → Move E
    calls : ℕ → Move E
    returns : ℕ → Move E

  -- Only a goroutine in its `select` sees its ticker or the end of the context.
  abbrev pub leave_select :
      {E : Type 0} → Monitors E → ℕ → Phase E → Option (Phase E) → Option (Monitors E)
  leave_select s i to (some waiting) = some (record s { phases = set s.phases i to })
  leave_select s i to _ = none

  abbrev pub settled : {E : Type 0} → Monitors E → ℕ → MonitoredUnit go → Effect E → Monitors E
  settled s i u e = record {
    fleet = record {
      units = set s.fleet.units i (record u { machine = e.machine });
      registry = e.registry;
    };
    phases = set s.phases i e.next;
    lines = lines_with e.line s.lines;
    sent = sent_with i e.alert s.sent;
  }

  abbrev pub settle :
      {E : Type 0} → Monitors E → ℕ → MonitoredUnit go → Option (Effect E) → Option (Monitors E)
  settle s i u none = none
  settle s i u (some e) = some (settled s i u e)

  abbrev pub call_of :
      {E : Type 0}
      → Monitors E
      → ℕ
      → Option (MonitoredUnit go)
      → Option (Phase E)
      → Option (Monitors E)
  call_of s i none p = none
  call_of s i (some u) none = none
  call_of s i (some u) (some p) = settle s i u (call u s.fleet.registry p)

  unfoldable pub move : {E : Type 0} → Monitors E → Move E → Option (Monitors E)
  unfolding call
  move s (ticks c) = leave_select s c.unit (before_observe c) (get_elem? s.phases c.unit)
  move s (calls i) = call_of s i (get_elem? s.fleet.units i) (get_elem? s.phases i)
  move s (returns i) = leave_select s i returned (get_elem? s.phases i)

  -- The steps of all goroutines, in any order.
  pub data Moves (E : Type 0) : Monitors E → List (Move E) → Monitors E → Type 0 where
    no_moves : (s : Monitors E) → Moves E s [] s
    then_move :
        {s t u : Monitors E} {mv : Move E} {mvs : List (Move E)}
        → move s mv ≡ some t
        → Moves E t mvs u
        → Moves E s (mv ∷ mvs) u
