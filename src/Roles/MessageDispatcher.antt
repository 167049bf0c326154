-- ===== src/Roles/MessageDispatcher.antt =====
-- internal/roles/message_dispatcher.go: from a request line to its response. `unmarshal` is
-- json.Unmarshal into a Request.
pub mod Replies
use healthd.Common.{String, List, [], ◌∷◌, Option, none, some}
use healthd.Common.Assoc.{lookup, insert}
use healthd.Platform.{Platform}
use healthd.Protocol.{
  Request, Response, DecodeError, malformed, version_mismatch, decode_request, new_error,
}
use healthd.Monitor.Registry.{Registry}
use healthd.Roles.MessageHandler.{Handler, handler_type, handle}

abbrev pub Handlers : Type 0
Handlers = List (String × Handler)

-- A later handler of the same type takes the place of an earlier one.
unfoldable pub add_handlers : Handlers → List Handler → Handlers
unfolding insert
add_handlers m [] = m
add_handlers m (h ∷ hs) = add_handlers (insert (handler_type h) h m) hs

unfoldable pub new_message_dispatcher : List Handler → Handlers
unfolding add_handlers
new_message_dispatcher handlers = add_handlers [] handlers

module _ (go : Platform) where
  open go use {Time}

  abbrev pub route : Option Handler → Option (Registry go) → Time → Request → Option (Response go)
  route none reg now req = some (new_error go req.id "unsupported request type")
  route (some h) reg now req = handle go h reg now req

  abbrev pub answer :
      Handlers → Option (Registry go) → Time → Request × Option DecodeError → Option (Response go)
  answer handlers reg now (req, some version_mismatch) =
      some (new_error go req.id "unsupported protocol version")
  answer handlers reg now (req, some malformed) = some (new_error go "" "malformed request")
  answer handlers reg now (req, none) = route (lookup req.kind handlers) reg now req

  unfoldable pub dispatch :
      {Line : Type 0}
      → (Line → Option Request)
      → Handlers
      → Option (Registry go)
      → Time
      → Line
      → Option (Response go)
  unfolding decode_request new_error handle lookup
  dispatch unmarshal handlers reg now line =
      answer handlers reg now (decode_request (unmarshal line))
