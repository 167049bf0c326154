-- ===== src/Roles/TcpListener.antt =====
-- internal/roles/tcp_listener.go. A connection is the sequence of what ReadSlice gives, each line with
-- the registry and the instant at which it is answered; a deadline or a shutdown is a `read_failed`.
-- The listener is the sequence of what Accept gives.
pub mod Order
pub mod Serving
use healthd.Common.{ℕ, zero, suc, ◌*◌, String, Bool, true, false, List, [], ◌∷◌, Option, none, some}
use healthd.Common.Int.{ℤ}
use healthd.Platform.{Platform}
use healthd.Protocol.{Request, Response, new_error}
use healthd.Monitor.Registry.{Registry}
use healthd.Roles.MessageDispatcher.{Handlers, dispatch}

module _ (go : Platform) (Line Bytes : Type 0) where
  open go use {Time}

  -- `buffer_full` is bufio.ErrBufferFull, `read_failed` any other error.
  pub data Read : Type 0 where
    line_read : Line → Option (Registry go) → Time → Read
    buffer_full read_failed : Read

  -- What encoding/json and the socket do: the encoding of a response, if it has one, and whether the
  -- n-th write succeeds.
  pub record Peer : Type 0 where
    pub unmarshal : Line → Option Request
    pub encode_response : Response go → Option Bytes
    pub write_ok : ℕ → Bool

  -- `writeResponse`: the bytes written, if any, and whether there was no error.
  abbrev pub write_encoded : Peer → ℕ → Option Bytes → List Bytes × Bool
  write_encoded peer n none = ([], false)
  write_encoded peer n (some out) = (out ∷ [], peer.write_ok n)

  unfoldable pub write_response : Peer → ℕ → Response go → List Bytes × Bool
  write_response peer n r = write_encoded peer n (peer.encode_response r)

  -- `none` is a panic of a handler.
  abbrev pub prepend : List Bytes → Option (List Bytes) → Option (List Bytes)
  prepend [] rest = rest
  prepend (b ∷ bs) none = none
  prepend (b ∷ bs) (some rest) = some (b ∷ rest)

  abbrev pub go_on : List Bytes × Bool → Option (List Bytes) → Option (List Bytes)
  go_on (out, true) rest = prepend out rest
  go_on (out, false) rest = some out

  abbrev pub reply_to : Peer → ℕ → Option (Response go) → Option (List Bytes) → Option (List Bytes)
  reply_to peer n none rest = none
  reply_to peer n (some r) rest = go_on (write_response peer n r) rest

  -- The loop of `handle` after `n` writes: all that it writes. The reads end where the connection does.
  unfoldable pub handle : Peer → Handlers → ℕ → List Read → Option (List Bytes)
  unfolding dispatch new_error write_response
  handle peer handlers n [] = some []
  handle peer handlers n (read_failed ∷ reads) = some []
  handle peer handlers n (buffer_full ∷ reads) =
      some (write_response peer n (new_error go "" "request too large")).0
  handle peer handlers n (line_read line reg now ∷ reads) =
      reply_to peer n (dispatch go peer.unmarshal handlers reg now line)
        (handle peer handlers (suc n) reads)

  -- What Accept gives: a connection, or an error, with whether the context is cancelled then.
  pub data Accept : Type 0 where
    connection : Peer → List Read → Accept
    accept_error : Bool → Accept

  abbrev pub also {ℓ} : {A : Type ℓ} → A → List A × Bool → List A × Bool
  also x (xs, stopped) = (x ∷ xs, stopped)

  -- The loop of `Run`: what is written on each connection, and whether the loop has returned.
  unfoldable pub serve : Handlers → List Accept → List (Option (List Bytes)) × Bool
  unfolding handle
  serve handlers [] = ([], false)
  serve handlers (connection peer reads ∷ accepts) =
      also (handle peer handlers 0 reads) (serve handlers accepts)
  serve handlers (accept_error true ∷ accepts) = ([], true)
  serve handlers (accept_error false ∷ accepts) = serve handlers accepts

  abbrev pub default_max_request_bytes : ℕ
  default_max_request_bytes = 64 * 1024

  pub record TcpListener : Type 0 where
    pub listen : String
    pub read_timeout : ℤ
    pub max_request : ℕ
    pub dispatcher : Handlers

  unfoldable pub new_tcp_listener : String → ℤ → Handlers → TcpListener
  new_tcp_listener listen read_timeout dispatcher = record {
    listen = listen;
    read_timeout = read_timeout;
    max_request = default_max_request_bytes;
    dispatcher = dispatcher;
  }

  -- What `Listen` does with an address: an error, or a socket with what its Accept gives.
  pub data Bound : Type 0 where
    listen_error : String → Bound
    listening : List Accept → Bound

  -- What a call of Run has returned so far: nothing, nil, or an error.
  pub data Returned : Type 0 where
    not_yet returned_nil : Returned
    returned_error : String → Returned

  abbrev pub after_serve : List (Option (List Bytes)) × Bool → List (Option (List Bytes)) × Returned
  after_serve (outs, true) = (outs, returned_nil)
  after_serve (outs, false) = (outs, not_yet)

  abbrev pub on_listen : TcpListener → Bound → List (Option (List Bytes)) × Returned
  on_listen s (listen_error e) = ([], returned_error e)
  on_listen s (listening accepts) = after_serve (serve s.dispatcher accepts)

  unfoldable pub run : (String → Bound) → TcpListener → List (Option (List Bytes)) × Returned
  unfolding serve
  run listen_on s = on_listen s (listen_on s.listen)
