-- ===== src/Tests/Probes.antt =====
-- A concrete ping between two instances (internal/roles/ping_monitor.go and tcp_listener.go).
use healthd.Common.{ℕ, String, ◌≡◌, ◌↔◌, refl, true, [], ◌∷◌, Option, none, some}
use healthd.Common.Int.{pos}
use healthd.Platform.Exact.{exact}
use healthd.Protocol.{Request, Response, new_pong}
use healthd.Roles.MessageDispatcher.{new_message_dispatcher}
use healthd.Roles.MessageDispatcher.Replies.{handlers_of}
use healthd.Roles.TcpListener.{line_read, Peer, handle}
use healthd.Roles.PingProbe.{Io, failed, done, next_id, ping_request, Net, probe}
use healthd.Roles.PingProbe.Accepts.{Exchanged, probe_iff}
use healthd.Roles.PingProbe.Answered.{probe-handle}

abbrev format_uint : ℕ → String
format_uint n = "1"

abbrev request : Request
request = ping_request "1" (pos 9)

-- A line is a request or a response, or neither.
data Line : Type 0 where
  request_line : Request → Line
  response_line : Response exact → Line
  noise : Line

abbrev request_of : Line → Option Request
request_of (request_line r) = some r
request_of (response_line r) = none
request_of noise = none

abbrev response_of : Line → Io (Response exact)
response_of (request_line r) = failed "not a response"
response_of (response_line r) = done r
response_of noise = failed "not a response"

abbrev pong_line : Line
pong_line = response_line (new_pong exact request)

abbrev net : Net exact Line
net = record {
  dial = done tt;
  encode_request = λ r. done (request_line r);
  write = λ l. done tt;
  read = λ l. done pong_line;
  unmarshal_response = response_of;
}

abbrev peer : Peer exact Line Line
peer = record {
  unmarshal = request_of;
  encode_response = λ r. some (response_line r);
  write_ok = λ n. true;
}

probe-handle_example :
    (handle exact Line Line peer
        (new_message_dispatcher (handlers_of true))
        0
        (line_read (request_line request) none 3 ∷ [])
      ≡ some (pong_line ∷ []))
    × (probe exact net format_uint 4 (pos 9) ≡ (next_id 4, none))
probe-handle_example =
    probe-handle exact net peer true none 3 format_uint 4 (pos 9) (request_line request) pong_line
      refl refl refl refl refl refl (λ h. refl) refl

probe_iff_example : ((probe exact net format_uint 4 (pos 9)).1 ≡ none) ↔ Exchanged exact net request
probe_iff_example = probe_iff exact net format_uint 4 (pos 9)
