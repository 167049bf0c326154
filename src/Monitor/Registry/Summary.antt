-- ===== src/Monitor/Registry/Summary.antt =====
-- The summaries and log lines of internal/monitor/registry.go. A log line is its groups of attributes,
-- in order. `none` where a method returns an `Option` of a summary is the panic of a nil pointer.
pub mod Total
pub mod Stats
use healthd.Common.{
  ℕ, suc, String, Bool, true, false, List, [], ◌∷◌, ◌++◌, Option, none, some, map, length, ◌==◌,
  if◌then◌else◌,
}
use healthd.Common.Int.{ℤ, pos}
use healthd.Common.Assoc.{lookup}
use healthd.Platform.{Platform}
use healthd.Monitor.Window.{percentage}
use healthd.Monitor.StateMachine.{state_string}
use healthd.Monitor.History.{CheckSample, SpeedSample, UnitHistory, slice}
use healthd.Monitor.Registry.{Registry, Handle, UnitStatus, status_or_zero, snapshot}

module _ (go : Platform) where
  open go use {Float, of_int, add_float, div_float, lt_float, Time, is_zero}

  pub record SpeedStats : Type 0 where
    pub count : ℕ
    pub min : Float
    pub avg : Float
    pub max : Float
    pub latest : Float

  pub record UnitSummary : Type 0 where
    pub status : UnitStatus go
    pub history_availability : Float
    pub speed : Option SpeedStats
    pub checks : List (CheckSample go)
    pub speeds : List (SpeedSample go)

  pub record FleetSummary : Type 0 where
    pub generated_at : Time
    pub units : List UnitSummary

  -- The loop that counts the successes in `ok`.
  unfoldable pub count_ok : ℕ → List (CheckSample go) → ℕ
  count_ok ok [] = ok
  count_ok ok (s ∷ ss) = count_ok (if s.success then suc ok else ok) ss

  unfoldable pub history_availability : List (CheckSample go) → Float
  unfolding count_ok
  history_availability samples =
      if length samples == 0
      then of_int (pos 100)
      else percentage go (count_ok 0 samples) (length samples)

  -- The loop of `speedStats` over the sum, the minimum and the maximum.
  unfoldable pub stats_from : Float → Float → Float → List (SpeedSample go) → Float × Float × Float
  stats_from sum lo hi [] = (sum, lo, hi)
  stats_from sum lo hi (s ∷ ss) =
      stats_from (add_float sum s.mbps) (if lt_float s.mbps lo then s.mbps else lo)
        (if lt_float hi s.mbps then s.mbps else hi) ss

  abbrev pub last_mbps : SpeedSample go → List (SpeedSample go) → Float
  last_mbps s [] = s.mbps
  last_mbps s (t ∷ ts) = last_mbps t ts

  unfoldable pub speed_stats : List (SpeedSample go) → Option SpeedStats
  unfolding stats_from
  speed_stats [] = none
  speed_stats (s ∷ ss) =
      let (sum, lo, hi) = stats_from (of_int (pos 0)) s.mbps s.mbps (s ∷ ss) in
      some (record {
        count = length (s ∷ ss);
        min = lo;
        avg = div_float sum (of_int (pos (length (s ∷ ss))));
        max = hi;
        latest = last_mbps s ss;
      })

  unfoldable pub unit_summary : UnitStatus go → UnitHistory go → UnitSummary
  unfolding slice history_availability speed_stats
  unit_summary status h =
      let checks = slice h.checks in
      let speeds = slice h.speeds in
      record {
        status = status;
        history_availability = history_availability checks;
        speed = speed_stats speeds;
        checks = checks;
        speeds = speeds;
      }

  -- `append(fs.Units, ...)` in a loop that a nil history ends by a panic.
  abbrev pub add_unit :
      Option (UnitHistory go)
      → UnitStatus go
      → Option (List UnitSummary)
      → Option (List UnitSummary)
  add_unit none status rest = none
  add_unit (some h) status none = none
  add_unit (some h) status (some us) = some (unit_summary status h ∷ us)

  unfoldable pub unit_summaries : List String → Registry go → Option (List UnitSummary)
  unit_summaries [] r = some []
  unit_summaries (n ∷ ns) r =
      add_unit (lookup n r.history) (status_or_zero go (lookup n r.units)) (unit_summaries ns r)

  abbrev pub fleet_of : Time → Option (List UnitSummary) → Option FleetSummary
  fleet_of now none = none
  fleet_of now (some us) = some (record { generated_at = now; units = us })

  unfoldable pub summary : Option (Registry go) → Time → Option FleetSummary
  unfolding unit_summaries
  summary none now = some (record { generated_at = now; units = [] })
  summary (some r) now = fleet_of now (unit_summaries r.order r)

  pub data Attr : Type 0 where
    string_attr : String → String → Attr
    int_attr : String → ℤ → Attr
    float_attr : String → Float → Attr
    time_attr : String → Time → Attr

  pub record LogLine : Type 0 where
    pub message : String
    pub unit_count : ℕ
    pub groups : List (String × List Attr)

  -- The attribute that both log lines end a group with.
  abbrev pub last_success_attr : UnitStatus go → Attr
  last_success_attr u =
      if is_zero u.last_success
      then string_attr "last_success" "never"
      else time_attr "last_success" u.last_success

  abbrev pub availability_attr : UnitStatus go → List Attr
  availability_attr u =
      if u.has_window then float_attr "availability_pct" u.availability ∷ [] else []

  abbrev pub snapshot_group : UnitStatus go → String × List Attr
  snapshot_group u = (
    u.name,
    string_attr "state" (state_string u.state)
        ∷ int_attr "consecutive_failures" u.consecutive
        ∷ (availability_attr u ++ last_success_attr u ∷ []),
  )

  -- The line that is logged, or none for a nil registry. (Every caller has a logger.)
  unfoldable pub log_snapshot : Option (Registry go) → Option LogLine
  unfolding snapshot state_string
  log_snapshot none = none
  log_snapshot (some r) =
      let snap = snapshot go (some r) in
      some (record {
        message = "status snapshot";
        unit_count = length snap;
        groups = map snapshot_group snap;
      })

  abbrev pub speed_attrs : Option SpeedStats → List Attr
  speed_attrs none = []
  speed_attrs (some st) =
      int_attr "speed_samples" (pos st.count)
      ∷ float_attr "speed_min_mbps" st.min
      ∷ float_attr "speed_avg_mbps" st.avg
      ∷ float_attr "speed_max_mbps" st.max
      ∷ float_attr "speed_latest_mbps" st.latest
      ∷ []

  abbrev pub summary_group : UnitSummary → String × List Attr
  summary_group u = (
    u.status.name,
    string_attr "state" (state_string u.status.state)
        ∷ int_attr "consecutive_failures" u.status.consecutive
        ∷ float_attr "history_availability_pct" u.history_availability
        ∷ int_attr "checks_recorded" (pos (length u.checks))
        ∷ (availability_attr u.status ++ (speed_attrs u.speed ++ last_success_attr u.status ∷ [])),
  )

  abbrev pub summary_line : Option FleetSummary → Option LogLine
  summary_line none = none
  summary_line (some fs) = some (record {
    message = "monitoring summary";
    unit_count = length fs.units;
    groups = map summary_group fs.units;
  })

  unfoldable pub log_summary : Option (Registry go) → Time → Option LogLine
  unfolding summary state_string
  log_summary none now = none
  log_summary (some r) now = summary_line (summary (some r) now)

  -- `Handle.LogSnapshot`
  unfoldable pub handle_log_snapshot : Option Handle → Option (Registry go) → Option LogLine
  unfolding log_snapshot
  handle_log_snapshot none r = none
  handle_log_snapshot (some h) r = log_snapshot r
