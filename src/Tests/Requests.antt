-- ===== src/Tests/Requests.antt =====
-- Concrete requests for internal/roles/message_dispatcher.go and tcp_listener.go.
use healthd.Common.{String, ◌≡◌, refl, true, false, List, [], ◌∷◌, ◌++◌, Option, none, some}
use healthd.Common.Int.{pos}
use healthd.Platform.Exact.{exact}
use healthd.Protocol.{Request, new_error}
use healthd.Monitor.Registry.{Registry, new_registry}
use healthd.Monitor.Registry.Reachable.{run-IsValid}
use healthd.Monitor.Registry.Spec.{register_op, run}
use healthd.Roles.MessageDispatcher.{Handlers, new_message_dispatcher, dispatch}
use healthd.Roles.MessageDispatcher.Replies.{handlers_of, Replies, dispatch-Replies}
use healthd.Roles.TcpListener.{Read, line_read, buffer_full, read_failed, Peer, handle}
use healthd.Roles.TcpListener.Order.{Exchange, done, answered, handle-order}

abbrev get_summary : Request
get_summary = record {
  version = "0.1";
  id = "7";
  kind = "get-summary";
  payload = record { timestamp = pos 0; message = "" };
}

-- A line is a request that stands for itself, or malformed.
abbrev unmarshal_line : Option Request → Option Request
unmarshal_line line = line

abbrev registry : Registry exact
registry = run exact (new_registry exact) (register_op "router" ∷ [])

dispatch-Replies_example : Replies exact "7" "summary" (
    dispatch exact unmarshal_line
      (new_message_dispatcher (handlers_of true))
      (some registry)
      5
      (some get_summary))
dispatch-Replies_example =
    dispatch-Replies exact unmarshal_line true 5 (some get_summary)
      (run-IsValid exact (register_op "router" ∷ []))

abbrev peer : Peer exact (Option Request) String
peer = record {
  unmarshal = unmarshal_line;
  encode_response = λ r. some r.kind;
  write_ok = λ n. true;
}

abbrev ping_only : Handlers
ping_only = new_message_dispatcher (handlers_of false)

abbrev one_line : List (Read exact (Option Request) String)
one_line = line_read none none 3 ∷ []

abbrev one_answer : Exchange exact (Option Request) String peer ping_only 0 one_line ("error" ∷ [])
unfolding dispatch
one_answer =
    answered
      (record {
        response = new_error exact "" "malformed request";
        dispatched = refl;
        encoded = refl;
        written = refl;
      })
      done

handle-order_example :
    (handle exact (Option Request) String peer ping_only 0 one_line ≡ some ("error" ∷ []))
    × (handle exact (Option Request) String peer ping_only 0 (one_line ++ read_failed ∷ one_line)
        ≡ some ("error" ∷ []))
    × (handle exact (Option Request) String peer ping_only 0 (one_line ++ buffer_full ∷ one_line)
        ≡ some ("error" ∷ "error" ∷ []))
unfolding new_error
handle-order_example = handle-order exact (Option Request) String one_line "error" one_answer refl
