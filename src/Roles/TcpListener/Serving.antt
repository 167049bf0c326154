-- ===== src/Roles/TcpListener/Serving.antt =====
-- The connections that Run of internal/roles/tcp_listener.go serves.
use healthd.Common.{Bool, String, ◌≢◌, ◌↔◌, ◌≡◌, refl, ap, true, false, List, [], ◌∷◌, ◌++◌, Option}
use healthd.Common.Int.{ℤ}
use healthd.Platform.{Platform}
use healthd.Roles.MessageDispatcher.{Handlers}
use healthd.Roles.TcpListener.{
  TcpListener, new_tcp_listener, Bound, listen_error, listening, returned_error, after_serve,
  on_listen, run, handle, Accept, connection, accept_error, also, serve,
}

module _ (go : Platform) (Line Bytes : Type 0) where
  -- What the handler writes on each connection that is accepted.
  abbrev pub each_handled : Handlers → List (Accept go Line Bytes) → List (Option (List Bytes))
  each_handled handlers [] = []
  each_handled handlers (connection peer reads ∷ accepts) =
      handle go Line Bytes peer handlers 0 reads ∷ each_handled handlers accepts
  each_handled handlers (accept_error b ∷ accepts) = each_handled handlers accepts

  -- No error is met once the context is cancelled.
  abbrev pub Running : List (Accept go Line Bytes) → Type 0
  Running [] = Unit {0}
  Running (connection peer reads ∷ accepts) = Running accepts
  Running (accept_error b ∷ accepts) = (b ≡ false) × Running accepts

  -- An error of Accept ends the listener only when the context is cancelled: until then each connection
  -- that is accepted is handled, whatever errors come in between, and from then on none is.
  pub serve-Running :
      (handlers : Handlers) (before after : List (Accept go Line Bytes))
      → Running before
      → (serve go Line Bytes handlers before ≡ (each_handled handlers before, false))
        × (serve go Line Bytes handlers (before ++ accept_error true ∷ after)
            ≡ (each_handled handlers before, true))
  unfolding serve
  serve-Running handlers [] after h = (refl, refl)
  serve-Running handlers (connection peer reads ∷ before) after h =
      let (open_still, closed) = serve-Running handlers before after h in
      (
        ap (also go Line Bytes (handle go Line Bytes peer handlers 0 reads)) open_still,
        ap (also go Line Bytes (handle go Line Bytes peer handlers 0 reads)) closed,
      )
  serve-Running handlers (accept_error true ∷ before) after (e, h) = cc
  serve-Running handlers (accept_error false ∷ before) after (e, h) =
      serve-Running handlers before after h

  after_serve-clean :
      (x : List (Option (List Bytes)) × Bool) (e : String)
      → (after_serve go Line Bytes x).1 ≢ returned_error e
  after_serve-clean (outs, true) e = λ h. cc
  after_serve-clean (outs, false) e = λ h. cc

  on_listen_iff :
      (s : TcpListener go Line Bytes) (b : Bound go Line Bytes) (e : String)
      → ((on_listen go Line Bytes s b).1 ≡ returned_error e) ↔ (b ≡ listen_error e)
  on_listen_iff s (listen_error x) e = ((λ h. cc), λ h. cc)
  on_listen_iff s (listening accepts) e =
      ((λ h. absurd (after_serve-clean (serve go Line Bytes s.dispatcher accepts) e h)), λ h. cc)

  -- Run of a listener returns an error when its address cannot be bound, and only then: no connection and
  -- no error of Accept makes the role fail.
  pub run_iff :
      (listen_on : String → Bound go Line Bytes) (listen : String) (read_timeout : ℤ)
      (handlers : Handlers) (e : String)
      → ((run go Line Bytes listen_on
            (new_tcp_listener go Line Bytes listen read_timeout handlers)).1
          ≡ returned_error e)
        ↔ (listen_on listen ≡ listen_error e)
  unfolding run new_tcp_listener
  run_iff listen_on listen read_timeout handlers e =
      on_listen_iff (new_tcp_listener go Line Bytes listen read_timeout handlers) (listen_on listen)
        e
