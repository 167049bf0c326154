-- ===== src/Roles/MessageDispatcher/Replies.antt =====
-- The reply to every request line (message_dispatcher.go, message_handler.go).
use text.Mathlib.Text.{◌==◌}
use healthd.Common.{
  String, ◌≡◌, refl, ap, Bool, true, false, ◌&&◌, List, [], ◌∷◌, Option, none, some, inl, inr,
  Bool-cases, if◌then◌else◌,
}
use healthd.Common.Assoc.{lookup}
use healthd.Platform.{Platform}
use healthd.Protocol.{
  version, type_ping, type_pong, type_get_summary, type_summary, type_error, Request, Response,
  decode_request, new_pong, new_error, new_summary,
}
use healthd.Monitor.Registry.{Registry}
use healthd.Monitor.Registry.Invariant.{IsValid}
use healthd.Monitor.Registry.Summary.Total.{summary-total}
use healthd.Roles.MessageHandler.{
  Handler, ping_handler, summary_handler, handle, summary_response, to_wire_summary,
}
use healthd.Roles.MessageDispatcher.{new_message_dispatcher, route, answer, dispatch}

-- The handlers of an instance, with and without a monitoring role.
abbrev pub handlers_of : Bool → List Handler
handlers_of true = ping_handler ∷ summary_handler ∷ []
handlers_of false = ping_handler ∷ []

-- The type of the reply that the specification gives.
abbrev pub kind_of : Bool → String → String
kind_of monitoring kind =
    if type_ping == kind
    then type_pong
    else (if monitoring && type_get_summary == kind then type_summary else type_error)

abbrev pub reply_kind : Bool → Option Request → String
reply_kind monitoring none = type_error
reply_kind monitoring (some r) =
    if r.version == version then kind_of monitoring r.kind else type_error

abbrev pub reply_id : Option Request → String
reply_id none = ""
reply_id (some r) = r.id

module _ (go : Platform) where
  open go use {Time}

  -- A reply with the given id and type.
  pub record Replies (id kind : String) (o : Option (Response go)) : Type 0 where
    pub response : Response go
    pub returned : o ≡ some response
    pub same_id : response.id ≡ id
    pub same_kind : response.kind ≡ kind
    pub same_version : response.version ≡ version

  error-Replies : (id msg : String) → Replies id type_error (some (new_error go id msg))
  unfolding new_error
  error-Replies id msg = record {
    response = new_error go id msg;
    returned = refl;
    same_id = refl;
    same_kind = refl;
    same_version = refl;
  }

  ping-Replies :
      (reg : Option (Registry go)) (now : Time) (req : Request)
      → Replies req.id type_pong (handle go ping_handler reg now req)
  unfolding handle
  ping-Replies reg now req = record {
    response = new_pong go req;
    returned = refl;
    same_id = refl;
    same_kind = refl;
    same_version = refl;
  }

  summary-Replies :
      {r : Registry go} (now : Time) (req : Request)
      → IsValid go r
      → Replies req.id type_summary (handle go summary_handler (some r) now req)
  unfolding handle
  summary-Replies {r} now req v =
      let (fs, e, _, _) = summary-total go now v in
      record {
        response = new_summary go req.id (to_wire_summary go fs);
        returned = ap (summary_response go req.id) e;
        same_id = refl;
        same_kind = refl;
        same_version = refl;
      }

  route-Replies :
      {r : Registry go} (monitoring : Bool) (now : Time) (req : Request)
      → IsValid go r
      → Replies req.id (kind_of monitoring req.kind) (
          route go
            (lookup req.kind (new_message_dispatcher (handlers_of monitoring)))
            (some r)
            now
            req)
  unfolding new_message_dispatcher lookup
  route-Replies {r} true now req v = elim (Bool-cases (type_ping == req.kind)) [
    | inl a ↦ rw a (ping-Replies (some r) now req)
    | inr a ↦ elim (Bool-cases (type_get_summary == req.kind)) [
      | inl b ↦ rw (a, b) (summary-Replies now req v)
      | inr b ↦ rw (a, b) (error-Replies req.id "unsupported request type")
    ]
  ]
  route-Replies {r} false now req v = elim (Bool-cases (type_ping == req.kind)) [
    | inl a ↦ rw a (ping-Replies (some r) now req)
    | inr a ↦ rw a (error-Replies req.id "unsupported request type")
  ]

  decoded-Replies :
      {r : Registry go} (monitoring : Bool) (now : Time) (decoded : Option Request)
      → IsValid go r
      → Replies (reply_id decoded) (reply_kind monitoring decoded) (
          answer go
            (new_message_dispatcher (handlers_of monitoring))
            (some r)
            now
            (decode_request decoded))
  unfolding decode_request
  decoded-Replies monitoring now none v = error-Replies "" "malformed request"
  decoded-Replies monitoring now (some req) v = elim (Bool-cases (req.version == version)) [
    | inl a ↦ rw a (route-Replies monitoring now req v)
    | inr a ↦ rw a (error-Replies req.id "unsupported protocol version")
  ]

  -- Every request line is answered, and no handler panics, as long as the registry is valid. The reply
  -- has the protocol's version and the request's id (none for a line that cannot be decoded). It is a
  -- pong for a ping, a summary for a get-summary on an instance with a monitoring role, and an error
  -- for anything else: malformed JSON, another version or another type.
  pub dispatch-Replies :
      {Line : Type 0} {r : Registry go} (unmarshal : Line → Option Request) (monitoring : Bool)
      (now : Time) (line : Line)
      → IsValid go r
      → Replies (reply_id (unmarshal line)) (reply_kind monitoring (unmarshal line)) (
          dispatch go unmarshal (new_message_dispatcher (handlers_of monitoring)) (some r) now line)
  unfolding dispatch
  dispatch-Replies unmarshal monitoring now line v =
      decoded-Replies monitoring now (unmarshal line) v
