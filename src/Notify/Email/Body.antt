-- ===== src/Notify/Email/Body.antt =====
-- When `sendImplicitTLS` of internal/notify/email.go succeeds, and when it writes a body.
use healthd.Common.{
  String, ◌≡◌, ◌↔◌, ◌⊎◌, inl, inr, refl, sym, subst, ap, ◌∙◌, Bool, true, false, ◌||◌, List, [],
  ◌∷◌, ◌++◌, Option, none, some, map, append_assoc,
}
use healthd.Notify.Email.{
  Auth, Command, tls_dial, new_client, auth_with, mail_from, rcpt_to, data_begin, write_body,
  close_body, quit, close_conn, close_client, Server, Sending, Split, split_host, send_implicit_tls,
}
use healthd.Notify.Email.Transcript.{
  Plays, played, accepted, refused, envelope, mail_script, connect, closing,
  send_implicit_tls-Plays,
}

-- The server accepts each command of a script, after the commands `h`.
abbrev pub Accepts : Server → List Command → List Command → Type 0
Accepts server h [] = Unit {0}
Accepts server h (c ∷ cs) = (server (h ++ c ∷ []) ≡ none) × Accepts server (h ++ c ∷ []) cs

abbrev pub is_body : Command → Bool
is_body (write_body msg) = true
is_body (tls_dial addr host) = false
is_body (new_client host) = false
is_body (auth_with auth) = false
is_body (mail_from from) = false
is_body (rcpt_to rcpt) = false
is_body data_begin = false
is_body close_body = false
is_body quit = false
is_body close_conn = false
is_body close_client = false

abbrev pub has_body : List Command → Bool
has_body [] = false
has_body (c ∷ cs) = is_body c || has_body cs

has_body-append : (xs ys : List Command) → has_body xs ≡ false → has_body (xs ++ ys) ≡ has_body ys
has_body-append [] ys h = refl
has_body-append (tls_dial addr host ∷ xs) ys h = has_body-append xs ys h
has_body-append (new_client host ∷ xs) ys h = has_body-append xs ys h
has_body-append (auth_with auth ∷ xs) ys h = has_body-append xs ys h
has_body-append (mail_from from ∷ xs) ys h = has_body-append xs ys h
has_body-append (rcpt_to rcpt ∷ xs) ys h = has_body-append xs ys h
has_body-append (data_begin ∷ xs) ys h = has_body-append xs ys h
has_body-append (write_body msg ∷ xs) ys h = cc
has_body-append (close_body ∷ xs) ys h = has_body-append xs ys h
has_body-append (quit ∷ xs) ys h = has_body-append xs ys h
has_body-append (close_conn ∷ xs) ys h = has_body-append xs ys h
has_body-append (close_client ∷ xs) ys h = has_body-append xs ys h

-- The commands of the script but the body.
abbrev Plain : List Command → Type 0
Plain [] = Unit {0}
Plain (c ∷ cs) = (is_body c ≡ false) × Plain cs

Plain-append : (xs ys : List Command) → Plain xs → Plain ys → Plain (xs ++ ys)
Plain-append [] ys p q = q
Plain-append (x ∷ xs) ys (p, ps) q = (p, Plain-append xs ys ps q)

rcpt_to-Plain : (to : List String) → Plain (map rcpt_to to)
rcpt_to-Plain [] = tt
rcpt_to-Plain (x ∷ to) = (refl, rcpt_to-Plain to)

envelope-Plain :
    (addr host : String) (auth : Option Auth) (from : String) (to : List String)
    → Plain (connect addr host ++ envelope auth from to)
envelope-Plain addr host none from to = (
  refl,
  (refl, (refl, Plain-append (map rcpt_to to) (data_begin ∷ []) (rcpt_to-Plain to) (refl, tt))),
)
envelope-Plain addr host (some auth) from to = (
  refl,
  (
    refl,
    (refl, (refl, Plain-append (map rcpt_to to) (data_begin ∷ []) (rcpt_to-Plain to) (refl, tt))),
  ),
)

closing_plain : (s : Sending) → has_body (closing s) ≡ false
closing_plain (c ∷ [], some e) = refl
closing_plain (c ∷ d ∷ [], some e) = refl
closing_plain (c ∷ d ∷ f ∷ x, some e) = refl
closing_plain ([], some e) = refl
closing_plain ([], none) = refl
closing_plain (c ∷ [], none) = refl
closing_plain (c ∷ d ∷ [], none) = refl
closing_plain (c ∷ d ∷ f ∷ x, none) = refl

module _ (server : Server) where
  Plays-Accepts :
      {h cs : List Command} {s : Sending} → Plays server h cs s → s.1 ≡ none → Accepts server h cs
  Plays-Accepts (played h) e = tt
  Plays-Accepts (accepted c a more) e = (a, Plays-Accepts more e)
  Plays-Accepts (refused c x a) e = cc

  Accepts-Plays :
      {h cs : List Command} {s : Sending} → Plays server h cs s → Accepts server h cs → s.1 ≡ none
  Accepts-Plays (played h) a = refl
  Accepts-Plays (accepted c e more) (b, a) = Accepts-Plays more a
  Accepts-Plays (refused c x e) (b, a) = cc

  snoc_plain :
      (h : List Command) (c : Command)
      → has_body h ≡ false
      → is_body c ≡ false
      → has_body (h ++ c ∷ []) ≡ false
  snoc_plain h c p q = has_body-append h (c ∷ []) p ∙ ap (λ b. b || false) q

  Plays-Plain :
      {h : List Command} {s : Sending} (pre post : List Command)
      → Plays server h (pre ++ post) s
      → has_body h ≡ false
      → Plain pre
      → Accepts server h pre ⊎ (has_body s.0 ≡ false)
  Plays-Plain [] post p clean plain = inl tt
  Plays-Plain (d ∷ pre) post (accepted {h = h} c e more) clean (p, plain) =
      elim (Plays-Plain pre post more (snoc_plain h c clean p) plain) [
        | inl a ↦ inl (e, a)
        | inr q ↦ inr q
      ]
  Plays-Plain (d ∷ pre) post (refused {h = h} c x e) clean (p, plain) = inr (snoc_plain h c clean p)

  -- It succeeds exactly when the server accepts every command of the mail.
  pub send_implicit_tls_iff :
      (split : String → Split) (addr host : String) (auth : Option Auth) (from : String)
      (to : List String) (msg : String)
      → split addr ≡ split_host host
      → ((send_implicit_tls split server addr auth from to msg).1 ≡ none)
        ↔ Accepts server [] (connect addr host ++ mail_script auth from to msg)
  send_implicit_tls_iff split addr host auth from to msg h =
      let (s, p, same) = send_implicit_tls-Plays server split addr host auth from to msg h in
      (
        (λ e. Plays-Accepts p (sym (ap (λ r. r.1) same) ∙ e)),
        λ a. ap (λ r. r.1) same ∙ Accepts-Plays p a,
      )

  -- Where the address has a host and `sendImplicitTLS` writes a body, the server has accepted the
  -- connection, the authentication if there is one, the sender, every recipient and the start of the
  -- data.
  pub send_implicit_tls-write_body :
      (split : String → Split) (addr host : String) (auth : Option Auth) (from : String)
      (to : List String) (msg : String)
      → split addr ≡ split_host host
      → has_body (send_implicit_tls split server addr auth from to msg).0 ≡ true
      → Accepts server [] (connect addr host ++ envelope auth from to)
  send_implicit_tls-write_body split addr host auth from to msg h written =
      let (s, p, same) = send_implicit_tls-Plays server split addr host auth from to msg h in
      let q =
        subst (λ l. Plays server [] l s)
          (sym (
            append_assoc (connect addr host) (envelope auth from to)
              (write_body msg ∷ close_body ∷ quit ∷ [])))
          p in
      elim (Plays-Plain (connect addr host ++ envelope auth from to)
        (write_body msg ∷ close_body ∷ quit ∷ []) q refl (envelope-Plain addr host auth from to)) [
          | inl a ↦ a
          | inr clean ↦
              let none_written : has_body (s.0 ++ closing s) ≡ false =
                has_body-append s.0 (closing s) clean ∙ closing_plain s in
              let e : has_body (send_implicit_tls split server addr auth from to msg).0 ≡ false =
                ap (λ r. has_body r.0) same ∙ none_written in
              cc
        ]
