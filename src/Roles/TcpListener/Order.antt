-- ===== src/Roles/TcpListener/Order.antt =====
-- The order of the replies on one connection (handle of tcp_listener.go).
use healthd.Common.{ℕ, suc, ◌≡◌, refl, true, List, [], ◌∷◌, ◌++◌, Option, some}
use healthd.Platform.{Platform}
use healthd.Protocol.{Response, new_error}
use healthd.Monitor.Registry.{Registry}
use healthd.Roles.MessageDispatcher.{Handlers, dispatch}
use healthd.Roles.TcpListener.{
  Read, line_read, buffer_full, read_failed, Peer, write_response, handle,
}

module _ (go : Platform) (Line Bytes : Type 0) where
  open go use {Time}

  -- The line is answered by `r`, which is encoded as `out`, and its write succeeds.
  pub record Answered (peer : Peer go Line Bytes) (handlers : Handlers) (n : ℕ) (line : Line)
      (reg : Option (Registry go)) (now : Time) (out : Bytes) : Type 0 where
    pub response : Response go
    pub dispatched : dispatch go peer.unmarshal handlers reg now line ≡ some response
    pub encoded : peer.encode_response response ≡ some out
    pub written : peer.write_ok n ≡ true

  -- A sequence of lines and their encoded replies, from the write `n` on.
  pub data Exchange (peer : Peer go Line Bytes) (handlers : Handlers)
      : ℕ → List (Read go Line Bytes) → List Bytes → Type 0 where
    done : {n : ℕ} → Exchange peer handlers n [] []
    answered :
        {n : ℕ} {line : Line} {reg : Option (Registry go)} {now : Time} {out : Bytes}
        {reads : List (Read go Line Bytes)} {outs : List Bytes}
        → Answered peer handlers n line reg now out
        → Exchange peer handlers (suc n) reads outs
        → Exchange peer handlers n (line_read line reg now ∷ reads) (out ∷ outs)

  pub handle-Answered :
      {peer : Peer go Line Bytes} {handlers : Handlers} {n : ℕ} {line : Line}
      {reg : Option (Registry go)} {now : Time} {out : Bytes} (reads : List (Read go Line Bytes))
      (rest : List Bytes)
      → Answered peer handlers n line reg now out
      → handle go Line Bytes peer handlers (suc n) reads ≡ some rest
      → handle go Line Bytes peer handlers n (line_read line reg now ∷ reads) ≡ some (out ∷ rest)
  unfolding handle write_response
  handle-Answered reads rest a e = rw (a.dispatched, e, a.encoded, a.written) refl

  -- The lines of a connection whose replies are all encoded and written are answered one by one, in
  -- the order in which they were read. After them a failed read ends the connection, and an
  -- oversized request is answered once, by an error, if that is encoded; what follows either is not
  -- read.
  pub handle-order :
      {peer : Peer go Line Bytes} {handlers : Handlers} {n : ℕ} {reads : List (Read go Line Bytes)}
      {outs : List Bytes} (more : List (Read go Line Bytes)) (out : Bytes)
      → Exchange peer handlers n reads outs
      → peer.encode_response (new_error go "" "request too large") ≡ some out
      → (handle go Line Bytes peer handlers n reads ≡ some outs)
        × (handle go Line Bytes peer handlers n (reads ++ read_failed ∷ more) ≡ some outs)
        × (handle go Line Bytes peer handlers n (reads ++ buffer_full ∷ more)
            ≡ some (outs ++ out ∷ []))
  unfolding handle write_response
  handle-order more out done e = (refl, refl, rw e refl)
  handle-order more out (answered a x) e =
      let (plain, failed, full) = handle-order more out x e in
      (handle-Answered _ _ a plain, handle-Answered _ _ a failed, handle-Answered _ _ a full)
