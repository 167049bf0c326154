-- ===== src/Roles/PingProbe/Accepts.antt =====
-- Which exchanges a probe accepts (probe of ping_monitor.go).
use healthd.Common.{ℕ, ◌^◌, ◌<◌, ◌≡◌, ◌↔◌, refl, sym, ap, ◌∙◌, String, none, eq_iff, arith}
use healthd.Common.Int.{ℤ}
use healthd.Platform.{Platform}
use healthd.Protocol.{type_pong, Request, Response}
use healthd.Roles.PingProbe.{
  Io, failed, done, next_id, ping_request, Net, decode_response, check_response, on_response,
  on_read, on_write, on_encode, on_dial, probe,
}

module _ (go : Platform) where
  check_response_iff :
      (id : String) (resp : Response go)
      → (check_response go id resp ≡ none) ↔ ((resp.kind ≡ type_pong) × (resp.id ≡ id))
  unfolding check_response
  check_response_iff id resp = (
    λ h. (
      ground (arith, eq_iff resp.kind type_pong, eq_iff resp.id id),
      ground (arith, eq_iff resp.kind type_pong, eq_iff resp.id id),
    ),
    λ h. rw ((eq_iff resp.kind type_pong).1 h.0, (eq_iff resp.id id).1 h.1) refl,
  )

  -- An exchange that went through: the request was encoded, written and answered, and the answer is a
  -- pong with the id of the request.
  pub record Exchanged {Line : Type 0} (net : Net go Line) (req : Request) : Type 0 where
    pub line : Line
    pub answer : Line
    pub response : Response go
    pub dialed : net.dial ≡ done tt
    pub encoded : net.encode_request req ≡ done line
    pub written : net.write line ≡ done tt
    pub read : net.read line ≡ done answer
    pub decoded : net.unmarshal_response answer ≡ done response
    pub is_pong : response.kind ≡ type_pong
    pub same_id : response.id ≡ req.id

  dial-inv :
      {Line : Type 0} (net : Net go Line) (format_uint : ℕ → String) (c : ℕ) (now : ℤ)
      (d : Io (Unit {0}))
      → (on_dial go net format_uint c now d).1 ≡ none
      → let id = format_uint (next_id c) in
        (d ≡ done tt) × (on_encode go net id (net.encode_request (ping_request id now)) ≡ none)
  dial-inv net format_uint c now (failed e) h = cc
  dial-inv net format_uint c now (done u) h = (refl, h)

  encode-inv :
      {Line : Type 0} (net : Net go Line) (id : String) (m : Io Line)
      → on_encode go net id m ≡ none
      → (line : Line) × (m ≡ done line) × (on_write go net id line (net.write line) ≡ none)
  encode-inv net id (failed e) h = cc
  encode-inv net id (done line) h = (line, refl, h)

  write-inv :
      {Line : Type 0} (net : Net go Line) (id : String) (line : Line) (w : Io (Unit {0}))
      → on_write go net id line w ≡ none
      → (w ≡ done tt) × (on_read go net id (net.read line) ≡ none)
  write-inv net id line (failed e) h = cc
  write-inv net id line (done u) h = (refl, h)

  read-inv :
      {Line : Type 0} (net : Net go Line) (id : String) (r : Io Line)
      → on_read go net id r ≡ none
      → (answer : Line) × (r ≡ done answer)
        × (on_response go id (decode_response go (net.unmarshal_response answer)) ≡ none)
  read-inv net id (failed e) h = cc
  read-inv net id (done answer) h = (answer, refl, h)

  response-inv :
      (id : String) (r : Io (Response go))
      → on_response go id (decode_response go r) ≡ none
      → (resp : Response go) × (r ≡ done resp) × (resp.kind ≡ type_pong) × (resp.id ≡ id)
  response-inv id (failed e) h = cc
  response-inv id (done resp) h =
      let (is_pong, same) = (check_response_iff id resp).0 h in (resp, refl, is_pong, same)

  accepted-Exchanged :
      {Line : Type 0} (net : Net go Line) (format_uint : ℕ → String) (c : ℕ) (now : ℤ)
      → (probe go net format_uint c now).1 ≡ none
      → Exchanged net (ping_request (format_uint (next_id c)) now)
  unfolding probe
  accepted-Exchanged net format_uint c now h =
      let id = format_uint (next_id c) in
      let (dialed, h1) = dial-inv net format_uint c now net.dial h in
      let (line, encoded, h2) = encode-inv net id (net.encode_request (ping_request id now)) h1 in
      let (written, h3) = write-inv net id line (net.write line) h2 in
      let (answer, read, h4) = read-inv net id (net.read line) h3 in
      let (response, decoded, is_pong, same_id) =
        response-inv id (net.unmarshal_response answer) h4 in
      record {
        line = line;
        answer = answer;
        response = response;
        dialed = dialed;
        encoded = encoded;
        written = written;
        read = read;
        decoded = decoded;
        is_pong = is_pong;
        same_id = same_id;
      }

  pub Exchanged-probe :
      {Line : Type 0} (net : Net go Line) (format_uint : ℕ → String) (c : ℕ) (now : ℤ)
      → Exchanged net (ping_request (format_uint (next_id c)) now)
      → probe go net format_uint c now ≡ (next_id c, none)
  unfolding probe
  Exchanged-probe net format_uint c now x =
      let id = format_uint (next_id c) in
      let accepted = (check_response_iff id x.response).1 (x.is_pong, x.same_id) in
      ap (on_dial go net format_uint c now) x.dialed
      ∙ ap (λ o. (next_id c, o))
          (ap (on_encode go net id) x.encoded
            ∙ ap (on_write go net id x.line) x.written
            ∙ ap (on_read go net id) x.read
            ∙ ap (λ d. on_response go id (decode_response go d)) x.decoded
            ∙ accepted)

  -- A probe succeeds if and only if its exchange goes through: the target is dialed, the request, with
  -- the next id, is encoded, written and answered by a line that decodes, and that answer is a pong with
  -- the very id of the request.
  pub probe_iff :
      {Line : Type 0} (net : Net go Line) (format_uint : ℕ → String) (c : ℕ) (now : ℤ)
      → ((probe go net format_uint c now).1 ≡ none)
        ↔ Exchanged net (ping_request (format_uint (next_id c)) now)
  probe_iff net format_uint c now = (
    accepted-Exchanged net format_uint c now,
    λ x. ap (λ p. p.1) (Exchanged-probe net format_uint c now x),
  )

  -- One response answers one probe: if distinct uint64 have distinct decimals, a response that two
  -- probes accept, from any two values of the counter, is a response to the same count.
  pub probe_fresh :
      (format_uint : ℕ → String) (c d : ℕ) (resp : Response go)
      → ((a b : ℕ) → a < 2 ^ 64 → b < 2 ^ 64 → format_uint a ≡ format_uint b → a ≡ b)
      → c < 2 ^ 64
      → d < 2 ^ 64
      → check_response go (format_uint (next_id c)) resp ≡ none
      → check_response go (format_uint (next_id d)) resp ≡ none
      → c ≡ d
  probe_fresh format_uint c d resp inj hc hd p q =
      let same : format_uint (next_id c) ≡ format_uint (next_id d) =
        sym ((check_response_iff (format_uint (next_id c)) resp).0 p).1
        ∙ ((check_response_iff (format_uint (next_id d)) resp).0 q).1 in
      let ids : next_id c ≡ next_id d =
        inj (next_id c) (next_id d) (omega arith) (omega arith) same in
      omega arith
