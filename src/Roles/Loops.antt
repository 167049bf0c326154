-- ===== src/Roles/Loops.antt =====
-- The loops of the monitoring roles: run of internal/roles/ping_monitor.go and url_monitor.go, Run of
-- internet_check.go and speed_check.go, and the wait of PingMonitor.Run and URLMonitor.Run. Each unit has
-- a loop of its own; an order of wakes is an interleaving of all of them.
pub mod Isolation
use healthd.Common.{
  ◌≡◌, ℕ, Bool, true, false, List, [], ◌∷◌, Option, none, some, map, get_elem?, set,
}
use healthd.Platform.{Platform}
use healthd.Roles.Units.{MonitoredUnit, Fleet, Round, fleet_check}

module _ (go : Platform) where
  -- What the `select` of a loop takes: its ticker, with the check that follows, or `ctx.Done()`.
  pub data Wake (E : Type 0) : Type 0 where
    ticked : Round go E → Wake E
    ctx_done : ℕ → Wake E

  -- The units with their registry, and which of their loops are still running.
  pub record Loops : Type 0 where
    pub fleet : Fleet go
    pub running : List Bool

  abbrev pub start_loop : MonitoredUnit go → Bool
  start_loop u = true

  -- `go m.run(ctx)` for each unit
  unfoldable pub start_loops : Fleet go → Loops
  start_loops f = record { fleet = f; running = map start_loop f.units }

  -- A wake of a loop that has ended, or is not there, is no step.
  abbrev pub on_tick : {E : Type 0} → Loops → Round go E → Option Bool → Option Loops
  on_tick s c (some true) = some (record { fleet = fleet_check go s.fleet c; running = s.running })
  on_tick s c (some false) = none
  on_tick s c none = none

  abbrev pub on_ctx_done : Loops → ℕ → Option Bool → Option Loops
  on_ctx_done s i (some true) = some (record { fleet = s.fleet; running = set s.running i false })
  on_ctx_done s i (some false) = none
  on_ctx_done s i none = none

  unfoldable pub wake : {E : Type 0} → Loops → Wake E → Option Loops
  unfolding fleet_check
  wake s (ticked c) = on_tick s c (get_elem? s.running c.unit)
  wake s (ctx_done i) = on_ctx_done s i (get_elem? s.running i)

  -- The steps of a series of wakes.
  pub data Wakes (E : Type 0) : Loops → List (Wake E) → Loops → Type 0 where
    no_wakes : (s : Loops) → Wakes E s [] s
    then_wake :
        {s t u : Loops} {w : Wake E} {ws : List (Wake E)}
        → wake s w ≡ some t
        → Wakes E t ws u
        → Wakes E s (w ∷ ws) u
