-- ===== src/Roles/Units.antt =====
-- The units that the monitoring roles keep: the constructors of internal/roles/ping_monitor.go,
-- url_monitor.go, internet_check.go and speed_check.go, and the checks of all units in the order in
-- which they take place. A MonitoredUnit has the fields that the four structs share; what a role probes with (its
-- HTTP client, its runner) and what it logs with is not modelled. Here a run of the daemon is a sequence
-- of checks, each by one unit; Roles/Calls.antt has the checks' calls in any interleaving.
pub mod Own
pub mod Enrolled
pub mod Names
pub mod Sees
pub mod Isolation
use healthd.Common.{ℕ, String, ◌<>◌, Bool, List, [], ◌∷◌, ◌++◌, Option, none, some, get_elem?, set}
use healthd.Common.Int.{ℤ, pos}
use healthd.Platform.{Platform}
use healthd.Monitor.StateMachine as Machine
use healthd.Monitor.StateMachine.{StateMachine, new_with_config}
use healthd.Monitor.Registry.{Registry, Handle, new_registry, register}
use healthd.Roles.Check.{Detail, Instants, World, report}

module _ (go : Platform) where
  open go use {Float}

  -- PingTarget and URLTarget, the arguments of the roles' constructors.
  pub record RoleTarget : Type 0 where
    pub address : String
    pub interval : ℤ
    pub timeout : ℤ
    pub channels : List String
    pub mon : Machine.Config go
    pub insecure : Bool

  pub record MonitoredUnit : Type 0 where
    pub interval : ℤ
    pub timeout : ℤ
    pub channels : List String
    pub machine : StateMachine go
    pub handle : Option Handle

  abbrev pub unit_of : ℤ → ℤ → List String → Machine.Config go → Option Handle → MonitoredUnit
  unit_of interval timeout channels mon h = record {
    interval = interval;
    timeout = timeout;
    channels = channels;
    machine = new_with_config go mon;
    handle = h;
  }

  -- The loop of NewPingMonitor and NewURLMonitor, with the prefix of the unit's names.
  unfoldable pub new_monitors :
      String → List RoleTarget → Option (Registry go) → Option (Registry go) × List MonitoredUnit
  unfolding register new_with_config
  new_monitors prefix [] r = (r, [])
  new_monitors prefix (t ∷ ts) r =
      let (r', h) = register go r (prefix <> t.address) in
      let (r'', units) = new_monitors prefix ts r' in
      (r'', unit_of t.interval t.timeout t.channels t.mon h ∷ units)

  unfoldable pub new_ping_monitor :
      List RoleTarget → Option (Registry go) → Option (Registry go) × List MonitoredUnit
  unfolding new_monitors
  new_ping_monitor targets r = new_monitors "ping_monitor:" targets r

  unfoldable pub new_url_monitor :
      List RoleTarget → Option (Registry go) → Option (Registry go) × List MonitoredUnit
  unfolding new_monitors
  new_url_monitor targets r = new_monitors "url_monitor:" targets r

  unfoldable pub new_internet_check :
      ℤ
      → ℤ
      → Machine.Config go
      → List String
      → Option (Registry go)
      → Option (Registry go) × MonitoredUnit
  unfolding register new_with_config
  new_internet_check interval timeout mon channels r =
      let (r', h) = register go r "internet_check" in (r', unit_of interval timeout channels mon h)

  -- A speed check has no timeout.
  unfoldable pub new_speed_check :
      ℤ
      → Machine.Config go
      → List String
      → Option (Registry go)
      → Option (Registry go) × MonitoredUnit
  unfolding register new_with_config
  new_speed_check interval mon channels r =
      let (r', h) = register go r "speed_check" in (r', unit_of interval (pos 0) channels mon h)

  pub record Fleet : Type 0 where
    pub units : List MonitoredUnit
    pub registry : Option (Registry go)

  -- The runCheck of the unit `unit`, by what it observes.
  pub record Round (E : Type 0) : Type 0 where
    pub unit : ℕ
    pub role : String
    pub detail : Detail E Float
    pub success : Bool
    pub speed : Option Float
    pub at : Instants go

  abbrev pub check_unit : {E : Type 0} → Fleet → Round E → Option MonitoredUnit → Fleet
  check_unit f c none = f
  check_unit f c (some u) =
      let (w, out) =
        report go c.role u.handle c.detail c.success c.speed c.at
          (record { machine = u.machine; registry = f.registry }) in
      record {
        units = set f.units c.unit (record u { machine = w.machine });
        registry = w.registry;
      }

  unfoldable pub fleet_check : {E : Type 0} → Fleet → Round E → Fleet
  unfolding report
  fleet_check f c = check_unit f c (get_elem? f.units c.unit)

  unfoldable pub fleet_run : {E : Type 0} → Fleet → List (Round E) → Fleet
  unfolding fleet_check
  fleet_run f [] = f
  fleet_run f (c ∷ cs) = fleet_run (fleet_check f c) cs

  -- The roles' constructors in the order in which buildRoles (cmd/healthd/main.go) calls them, each on
  -- the units and the registry that are there; a role that is not enabled has no targets, or `none`.
  abbrev pub add_internet_check : Option (ℤ × ℤ × Machine.Config go × List String) → Fleet → Fleet
  add_internet_check none f = f
  add_internet_check (some (interval, timeout, mon, channels)) f =
      let (r, u) = new_internet_check interval timeout mon channels f.registry in
      record { units = f.units ++ u ∷ []; registry = r }

  abbrev pub add_speed_check : Option (ℤ × Machine.Config go × List String) → Fleet → Fleet
  add_speed_check none f = f
  add_speed_check (some (interval, mon, channels)) f =
      let (r, u) = new_speed_check interval mon channels f.registry in
      record { units = f.units ++ u ∷ []; registry = r }

  abbrev pub add_monitors : Option (Registry go) × List MonitoredUnit → List MonitoredUnit → Fleet
  add_monitors (r, units) before = record { units = before ++ units; registry = r }

  unfoldable pub new_fleet :
      List RoleTarget
      → List RoleTarget
      → Option (ℤ × ℤ × Machine.Config go × List String)
      → Option (ℤ × Machine.Config go × List String)
      → Fleet
  unfolding new_ping_monitor new_url_monitor new_internet_check new_speed_check new_registry
  new_fleet pings urls internet speed =
      let f = add_monitors (new_ping_monitor pings (some (new_registry go))) [] in
      let g = add_monitors (new_url_monitor urls f.registry) f.units in
      add_speed_check speed (add_internet_check internet g)
