-- ===== src/Protocol.antt =====
-- Package protocol (internal/protocol/protocol.go): the messages. The JSON of encoding/json is a
-- parameter of the functions that use it.
use healthd.Common.{ℕ, String, Bool, List, Option, none, some, if◌then◌else◌}
use text.Mathlib.Text.{◌==◌}
use healthd.Common.Int.{ℤ, pos}
use healthd.Platform.{Platform}

abbrev pub version : String
version = "0.1"

abbrev pub type_ping : String
type_ping = "ping"

abbrev pub type_pong : String
type_pong = "pong"

abbrev pub type_get_summary : String
type_get_summary = "get-summary"

abbrev pub type_summary : String
type_summary = "summary"

abbrev pub type_error : String
type_error = "error"

pub record Payload : Type 0 where
  pub timestamp : ℤ
  pub message : String

-- The field `Type` is `kind`.
pub record Request : Type 0 where
  pub version : String
  pub id : String
  pub kind : String
  pub payload : Payload

-- The two errors of DecodeRequest.
pub data DecodeError : Type 0 where
  malformed version_mismatch : DecodeError

abbrev pub empty_payload : Payload
empty_payload = record { timestamp = pos 0; message = "" }

-- `Request{}`
abbrev pub empty_request : Request
empty_request = record { version = ""; id = ""; kind = ""; payload = empty_payload }

-- The request that DecodeRequest returns beside its error, given what json.Unmarshal makes of the line.
unfoldable pub decode_request : Option Request → Request × Option DecodeError
decode_request none = (empty_request, some malformed)
decode_request (some r) = if r.version == version then (r, none) else (r, some version_mismatch)

module _ (go : Platform) where
  open go use {Float}

  pub record SpeedSummary : Type 0 where
    pub count : ℕ
    pub min_mbps : Float
    pub avg_mbps : Float
    pub max_mbps : Float
    pub latest_mbps : Float

  pub record CheckSample : Type 0 where
    pub time_ms : ℤ
    pub success : Bool

  pub record SpeedSample : Type 0 where
    pub time_ms : ℤ
    pub mbps : Float

  pub record UnitSummary : Type 0 where
    pub name : String
    pub state : String
    pub availability : Float
    pub history_availability : Float
    pub consecutive_failures : ℤ
    pub last_success_ms : ℤ
    pub speed : Option SpeedSummary
    pub checks : List CheckSample
    pub speeds : List SpeedSample

  pub record Summary : Type 0 where
    pub generated_at_ms : ℤ
    pub units : List UnitSummary

  pub record Response : Type 0 where
    pub version : String
    pub id : String
    pub kind : String
    pub payload : Payload
    pub summary : Option Summary

  unfoldable pub new_pong : Request → Response
  new_pong req = record {
    version = version;
    id = req.id;
    kind = type_pong;
    payload = record { timestamp = req.payload.timestamp; message = "" };
    summary = none;
  }

  unfoldable pub new_summary : String → Summary → Response
  new_summary id s = record {
    version = version;
    id = id;
    kind = type_summary;
    payload = empty_payload;
    summary = some s;
  }

  unfoldable pub new_error : String → String → Response
  new_error id msg = record {
    version = version;
    id = id;
    kind = type_error;
    payload = record { timestamp = pos 0; message = msg };
    summary = none;
  }
