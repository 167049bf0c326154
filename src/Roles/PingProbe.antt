-- ===== src/Roles/PingProbe.antt =====
-- The ping that ping_monitor.go sends: probe of internal/roles/ping_monitor.go, with EncodeRequest and
-- DecodeResponse of internal/protocol/protocol.go. The network and encoding/json are arguments: what
-- dialing, writing and reading do, the encoding of a request and the decoding of a line. A line is
-- framed by its newline. `format_uint` is strconv.FormatUint in base 10.
pub mod Accepts
pub mod Answered
use text.Mathlib.Text.{◌==◌}
use healthd.Common.{
  ℕ, ◌+◌, ◌%◌, ◌^◌, String, ◌<>◌, Bool, true, false, Option, none, some, if◌then◌else◌,
}
use healthd.Common.Int.{ℤ}
use healthd.Platform.{Platform}
use healthd.Protocol.{version, type_ping, type_pong, Request, Response}

-- A value, or an error with its text.
pub data Io (A : Type 0) : Type 0 where
  failed : String → Io A
  done : A → Io A

pub data ProbeError : Type 0 where
  dial_error encode_error write_error read_error decode_error : String → ProbeError
  not_pong : String → ProbeError
  id_mismatch : String → String → ProbeError

-- `m.idCounter.Add(1)` on a uint64
abbrev pub next_id : ℕ → ℕ
next_id counter = (counter + 1) % 2 ^ 64

abbrev pub ping_request : String → ℤ → Request
ping_request id now = record {
  version = version;
  id = id;
  kind = type_ping;
  payload = record { timestamp = now; message = "" };
}

module _ (go : Platform) where
  -- What the network and the JSON of one exchange do; `read` is the answer to the line that was written.
  pub record Net (Line : Type 0) : Type 0 where
    pub dial : Io (Unit {0})
    pub encode_request : Request → Io Line
    pub write : Line → Io (Unit {0})
    pub read : Line → Io Line
    pub unmarshal_response : Line → Io (Response go)

  -- DecodeResponse, by what json.Unmarshal makes of the line.
  abbrev pub decode_response : Io (Response go) → Io (Response go)
  decode_response (failed e) = failed ("decode response: " <> e)
  decode_response (done r) = done r

  -- The two tests of a decoded response.
  unfoldable pub check_response : String → Response go → Option ProbeError
  check_response id resp =
      if resp.kind == type_pong
      then (if resp.id == id then none else some (id_mismatch id resp.id))
      else some (not_pong resp.kind)

  -- The steps after the encoding, the writing and the reading of a line.
  abbrev pub on_response : String → Io (Response go) → Option ProbeError
  on_response id (failed e) = some (decode_error e)
  on_response id (done resp) = check_response id resp

  abbrev pub on_read : {Line : Type 0} → Net Line → String → Io Line → Option ProbeError
  on_read net id (failed e) = some (read_error e)
  on_read net id (done line) = on_response id (decode_response (net.unmarshal_response line))

  abbrev pub on_write :
      {Line : Type 0} → Net Line → String → Line → Io (Unit {0}) → Option ProbeError
  on_write net id line (failed e) = some (write_error e)
  on_write net id line (done u) = on_read net id (net.read line)

  abbrev pub on_encode : {Line : Type 0} → Net Line → String → Io Line → Option ProbeError
  on_encode net id (failed e) = some (encode_error e)
  on_encode net id (done line) = on_write net id line (net.write line)

  -- The counter moves on only once the target has been dialed.
  abbrev pub on_dial :
      {Line : Type 0} → Net Line → (ℕ → String) → ℕ → ℤ → Io (Unit {0}) → ℕ × Option ProbeError
  on_dial net format_uint counter now (failed e) = (counter, some (dial_error e))
  on_dial net format_uint counter now (done u) =
      let id = format_uint (next_id counter) in
      (next_id counter, on_encode net id (net.encode_request (ping_request id now)))

  -- The counter after the call, and the error.
  unfoldable pub probe : {Line : Type 0} → Net Line → (ℕ → String) → ℕ → ℤ → ℕ × Option ProbeError
  unfolding check_response
  probe net format_uint counter now = on_dial net format_uint counter now net.dial
