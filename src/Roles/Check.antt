-- ===== src/Roles/Check.antt =====
-- One check of a monitoring role: runCheck of internal/roles/ping_monitor.go, url_monitor.go,
-- internet_check.go and speed_check.go, httpProbe of http_probe.go, and dispatchEvent of roles.go.
-- What the network or the speedtest gives, and the instants that time.Now gives, are arguments. The
-- text of a detail, which fmt.Sprintf formats, is kept as its parts.
pub mod Report
use healthd.Common.{
  ℕ, String, Bool, true, false, not, ◌||◌, List, [], ◌∷◌, Option, none, some, if◌then◌else◌,
}
use healthd.Common.Int.{ℤ, pos, ltb_ℤ, leb_ℤ}
use healthd.Platform.{Platform}
use healthd.Monitor.StateMachine.{
  Event, no_event, alert_unhealthy, recovery_healthy, StateMachine, observe,
}
use healthd.Monitor.Registry.{
  Registry, Handle, handle_update, handle_record_check, handle_record_speed,
}
use healthd.Monitor.Registry.Summary.{LogLine, handle_log_snapshot}

-- The errors of httpProbe, with the text of the underlying error.
pub data HttpError : Type 0 where
  request_error get_error : String → HttpError
  non_2xx : ℤ → HttpError

-- What http.NewRequestWithContext and client.Do give.
pub data HttpResult : Type 0 where
  request_failed get_failed : String → HttpResult
  status_code : ℤ → HttpResult

unfoldable pub http_probe : HttpResult → Option HttpError
http_probe (request_failed e) = some (request_error e)
http_probe (get_failed e) = some (get_error e)
http_probe (status_code n) =
    if ltb_ℤ n (pos 200) || leb_ℤ (pos 300) n then some (non_2xx n) else none

-- `err == nil`
abbrev pub is_nil {ℓ} : {A : Type ℓ} → Option A → Bool
is_nil none = true
is_nil (some e) = false

-- The detail of an alert, for an error of type E.
pub data Detail (E F : Type 0) : Type 0 where
  succeeded : String → Detail E F
  check_failed : String → E → Detail E F
  speedtest_failed : E → Detail E F
  below_threshold at_or_above_threshold : F → F → Detail E F

abbrev pub detail_of : {E F : Type 0} → String → Option E → Detail E F
detail_of target none = succeeded target
detail_of target (some e) = check_failed target e

module _ (go : Platform) where
  open go use {Float, of_int, mul_float, div_float, lt_float, Time}

  pub record Alert (E : Type 0) : Type 0 where
    pub role : String
    pub state : String
    pub timestamp : Time
    pub detail : Detail E Float
    pub consecutive_failures : ℤ

  -- The alert that is dispatched, if any, to the channels of the unit.
  unfoldable pub dispatch_event :
      {E : Type 0} → String → Detail E Float → Event → ℤ → Time → Option (Alert E)
  dispatch_event role_name detail alert_unhealthy consecutive now = some (record {
    role = role_name;
    state = "UNHEALTHY";
    timestamp = now;
    detail = detail;
    consecutive_failures = consecutive;
  })
  dispatch_event role_name detail recovery_healthy consecutive now = some (record {
    role = role_name;
    state = "HEALTHY";
    timestamp = now;
    detail = detail;
    consecutive_failures = pos 0;
  })
  dispatch_event role_name detail no_event consecutive now = none

  -- The three readings of the clock in a check.
  pub record Instants : Type 0 where
    pub observed : Time
    pub recorded : Time
    pub dispatched : Time

  -- A unit's machine and the registry that all units share.
  pub record World : Type 0 where
    pub machine : StateMachine go
    pub registry : Option (Registry go)

  -- What a check puts out: a snapshot line and an alert.
  pub record Output (E : Type 0) : Type 0 where
    pub event : Event
    pub snapshot : Option (LogLine go)
    pub alert : Option (Alert E)

  -- `if ev != monitor.None { handle.LogSnapshot(logger) }`
  abbrev pub snapshot_on : Event → Option Handle → Option (Registry go) → Option (LogLine go)
  snapshot_on no_event h r = none
  snapshot_on alert_unhealthy h r = handle_log_snapshot go h r
  snapshot_on recovery_healthy h r = handle_log_snapshot go h r

  -- `if err == nil { handle.RecordSpeed(now, mbps) }`, none for a check that measures no speed
  abbrev pub record_speed_on :
      Option Float → Option Handle → Time → Option (Registry go) → Option (Registry go)
  record_speed_on none h now r = r
  record_speed_on (some mbps) h now r = handle_record_speed go h now mbps r

  -- The common end of the four functions.
  unfoldable pub report :
      {E : Type 0}
      → String
      → Option Handle
      → Detail E Float
      → Bool
      → Option Float
      → Instants
      → World
      → World × Output E
  unfolding observe handle_update handle_record_check handle_record_speed handle_log_snapshot
      dispatch_event
  report role_name h detail success speed at w =
      let (m, ev) = observe go w.machine success at.observed in
      let r =
        record_speed_on speed h at.recorded
          (handle_record_check go h at.recorded success (handle_update go h m w.registry)) in
      (
        record { machine = m; registry = r },
        record {
          event = ev;
          snapshot = snapshot_on ev h r;
          alert = dispatch_event role_name detail ev m.consecutive at.dispatched;
        },
      )

  -- ping_monitor's runCheck, `err` being what its probe returns
  unfoldable pub ping_run_check :
      {E : Type 0} → String → Option Handle → Option E → Instants → World → World × Output E
  unfolding report
  ping_run_check target h err at w =
      report "ping_monitor" h (detail_of target err) (is_nil err) none at w

  unfoldable pub url_run_check :
      String → Option Handle → HttpResult → Instants → World → World × Output HttpError
  unfolding report http_probe
  url_run_check url h result at w =
      let err = http_probe result in
      report "url_monitor" h (detail_of url err) (is_nil err) none at w

  -- The errors of `measure`.
  pub data MeasureError : Type 0 where
    run_error parse_error : String → MeasureError

  -- What the runner gives, and what json.Unmarshal makes of its output: `download.bandwidth`.
  pub data Measurement : Type 0 where
    run_failed parse_failed : String → Measurement
    bandwidth : Float → Measurement

  pub data Measured : Type 0 where
    no_measure : MeasureError → Measured
    measured : Float → Measured

  unfoldable pub measure : Measurement → Measured
  measure (run_failed e) = no_measure (run_error e)
  measure (parse_failed e) = no_measure (parse_error e)
  measure (bandwidth b) = measured (div_float (mul_float b (of_int (pos 8))) (of_int (pos 1000000)))

  -- The `switch` of speed_check's runCheck and what follows it.
  abbrev pub speed_report :
      Option Handle → Float → Measured → Instants → World → World × Output MeasureError
  speed_report h threshold (no_measure e) at w =
      report "speed_check" h (speedtest_failed e) false none at w
  speed_report h threshold (measured mbps) at w =
      if lt_float mbps threshold
      then report "speed_check" h (below_threshold mbps threshold) false (some mbps) at w
      else report "speed_check" h (at_or_above_threshold mbps threshold) true (some mbps) at w

  unfoldable pub speed_run_check :
      Option Handle → Float → Measurement → Instants → World → World × Output MeasureError
  unfolding report measure
  speed_run_check h threshold m at w = speed_report h threshold (measure m) at w
