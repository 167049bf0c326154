-- ===== src/Roles/MessageHandler.antt =====
-- internal/roles/message_handler.go: the two request handlers and the wire form of a summary. A handler
-- is one of the two kinds that the program has; the summary handler reads the registry when it is
-- called, `none` being the panic of a nil history.
use healthd.Common.{String, List, [], ◌∷◌, Option, none, some, if◌then◌else◌}
use healthd.Common.Int.{pos}
use healthd.Platform.{Platform}
use healthd.Protocol
use healthd.Protocol.{Request, Response, new_pong, new_summary, type_ping, type_get_summary}
use healthd.Monitor.StateMachine.{state_string}
use healthd.Monitor.History.{CheckSample, SpeedSample}
use healthd.Monitor.Registry.{Registry}
use healthd.Monitor.Registry.Summary.{SpeedStats, UnitSummary, FleetSummary, summary}

-- PingHandler and SummaryHandler
pub data Handler : Type 0 where
  ping_handler summary_handler : Handler

abbrev pub handler_type : Handler → String
handler_type ping_handler = type_ping
handler_type summary_handler = type_get_summary

module _ (go : Platform) where
  open go use {Time, is_zero, unix_milli}

  abbrev pub wire_speed : Option (SpeedStats go) → Option (Protocol.SpeedSummary go)
  wire_speed none = none
  wire_speed (some st) = some (record {
    count = st.count;
    min_mbps = st.min;
    avg_mbps = st.avg;
    max_mbps = st.max;
    latest_mbps = st.latest;
  })

  abbrev pub wire_checks : List (CheckSample go) → List (Protocol.CheckSample go)
  wire_checks [] = []
  wire_checks (c ∷ cs) =
      record { time_ms = unix_milli c.time; success = c.success } ∷ wire_checks cs

  abbrev pub wire_speeds : List (SpeedSample go) → List (Protocol.SpeedSample go)
  wire_speeds [] = []
  wire_speeds (s ∷ ss) = record { time_ms = unix_milli s.time; mbps = s.mbps } ∷ wire_speeds ss

  abbrev pub wire_unit : UnitSummary go → Protocol.UnitSummary go
  wire_unit u = record {
    name = u.status.name;
    state = state_string u.status.state;
    availability = u.status.availability;
    history_availability = u.history_availability;
    consecutive_failures = u.status.consecutive;
    last_success_ms =
        if is_zero u.status.last_success then pos 0 else unix_milli u.status.last_success;
    speed = wire_speed u.speed;
    checks = wire_checks u.checks;
    speeds = wire_speeds u.speeds;
  }

  abbrev pub wire_units : List (UnitSummary go) → List (Protocol.UnitSummary go)
  wire_units [] = []
  wire_units (u ∷ us) = wire_unit u ∷ wire_units us

  unfoldable pub to_wire_summary : FleetSummary go → Protocol.Summary go
  unfolding state_string
  to_wire_summary fs = record {
    generated_at_ms = unix_milli fs.generated_at;
    units = wire_units fs.units;
  }

  abbrev pub summary_response : String → Option (FleetSummary go) → Option (Response go)
  summary_response id none = none
  summary_response id (some fs) = some (new_summary go id (to_wire_summary fs))

  unfoldable pub handle : Handler → Option (Registry go) → Time → Request → Option (Response go)
  unfolding new_pong new_summary to_wire_summary summary
  handle ping_handler reg now req = some (new_pong go req)
  handle summary_handler reg now req = summary_response req.id (summary go reg now)
