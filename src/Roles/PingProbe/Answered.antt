-- ===== src/Roles/PingProbe/Answered.antt =====
-- A probe against an instance with a TCP listener: ping_monitor.go, tcp_listener.go,
-- message_dispatcher.go and protocol.go together.
use healthd.Common.{ℕ, ◌≡◌, refl, ap, ◌∙◌, String, Bool, true, false, [], ◌∷◌, Option, none, some}
use healthd.Common.Int.{ℤ}
use healthd.Platform.{Platform}
use healthd.Protocol.{Request, decode_request, new_pong}
use healthd.Monitor.Registry.{Registry}
use healthd.Roles.MessageHandler.{handle as handle_message}
use healthd.Roles.MessageDispatcher.{new_message_dispatcher, answer, dispatch}
use healthd.Roles.MessageDispatcher.Replies.{handlers_of}
use healthd.Roles.TcpListener.{line_read, Peer, handle}
use healthd.Roles.TcpListener.Order.{handle-Answered}
use healthd.Roles.PingProbe.{done, next_id, ping_request, Net, probe}
use healthd.Roles.PingProbe.Accepts.{Exchanged-probe}

module _ (go : Platform) where
  open go use {Time}

  answer-ping :
      (monitoring : Bool) (reg : Option (Registry go)) (now : Time) (id : String) (ts : ℤ)
      → answer go
          (new_message_dispatcher (handlers_of monitoring))
          reg
          now
          (decode_request (some (ping_request id ts)))
        ≡ some (new_pong go (ping_request id ts))
  unfolding decode_request new_message_dispatcher dispatch handle_message
  answer-ping true reg now id ts = refl
  answer-ping false reg now id ts = refl

  dispatch-ping :
      {Line : Type 0} (unmarshal : Line → Option Request) (monitoring : Bool)
      (reg : Option (Registry go)) (now : Time) (line : Line) (id : String) (ts : ℤ)
      → unmarshal line ≡ some (ping_request id ts)
      → dispatch go unmarshal (new_message_dispatcher (handlers_of monitoring)) reg now line
        ≡ some (new_pong go (ping_request id ts))
  unfolding dispatch
  dispatch-ping unmarshal monitoring reg now line id ts h =
      ap
        (λ d.
          answer go (new_message_dispatcher (handlers_of monitoring)) reg now (decode_request d))
        h
      ∙ answer-ping monitoring reg now id ts

  -- An instance with a TCP listener, whether it monitors or not, answers the probe of another with one
  -- line, and the probe succeeds, in whatever state the instance's registry is. (The target is dialed,
  -- the writes succeed, encoding/json decodes the request and the pong as they were encoded, and the
  -- network delivers the line that the listener writes.)
  pub probe-handle :
      {Line : Type 0} (net : Net go Line) (peer : Peer go Line Line) (monitoring : Bool)
      (reg : Option (Registry go)) (now : Time) (format_uint : ℕ → String) (c : ℕ) (ts : ℤ)
      (line out : Line)
      → let req = ping_request (format_uint (next_id c)) ts in
        let handlers = new_message_dispatcher (handlers_of monitoring) in
        let written = handle go Line Line peer handlers 0 (line_read line reg now ∷ []) in
        net.dial ≡ done tt
        → net.encode_request req ≡ done line
        → net.write line ≡ done tt
        → peer.unmarshal line ≡ some req
        → peer.encode_response (new_pong go req) ≡ some out
        → peer.write_ok 0 ≡ true
        → (written ≡ some (out ∷ []) → net.read line ≡ done out)
        → net.unmarshal_response out ≡ done (new_pong go req)
        → (written ≡ some (out ∷ [])) × (probe go net format_uint c ts ≡ (next_id c, none))
  unfolding new_pong handle
  probe-handle {Line} net peer monitoring reg now format_uint c ts line out dialed encoded sent
        parsed printed ok delivered decoded =
      let id = format_uint (next_id c) in
      let req = ping_request id ts in
      let handlers = new_message_dispatcher (handlers_of monitoring) in
      let written : handle go Line Line peer handlers 0 (line_read line reg now ∷ [])
          ≡ some (out ∷ []) =
        handle-Answered go Line Line {peer = peer} {handlers = handlers} {n = 0} {line = line}
          {reg = reg} {now = now} {out = out} [] []
          (record {
            response = new_pong go req;
            dispatched = dispatch-ping peer.unmarshal monitoring reg now line id ts parsed;
            encoded = printed;
            written = ok;
          })
          refl in
      (
        written,
        Exchanged-probe go net format_uint c ts (record {
          line = line;
          answer = out;
          response = new_pong go req;
          dialed = dialed;
          encoded = encoded;
          written = sent;
          read = delivered written;
          decoded = decoded;
          is_pong = refl;
          same_id = refl;
        }),
      )
