-- ===== src/Notify/Email/Transcript.antt =====
-- `sendImplicitTLS` of internal/notify/email.go against a script of commands.
use healthd.Common.{
  ◌<>◌, String, ◌≡◌, refl, sym, subst, ap, ◌∙◌, List, [], ◌∷◌, ◌++◌, Option, none, some, map,
  append_assoc, append-nil,
}
use healthd.Notify.Email.{
  Auth, Command, tls_dial, new_client, auth_with, mail_from, rcpt_to, data_begin, write_body,
  close_body, quit, close_conn, close_client, Server, Sending, answered, call, ◌and_then◌,
  send_auth, send_recipients, send_mail, on_client, Split, split_host, on_split, send_implicit_tls,
}

-- What the error of a command begins with.
abbrev pub prefix_of : Command → String
prefix_of (tls_dial addr host) = "tls dial: "
prefix_of (new_client host) = "smtp client: "
prefix_of (auth_with auth) = "auth: "
prefix_of (mail_from from) = "mail from: "
prefix_of (rcpt_to rcpt) = "rcpt " <> rcpt <> ": "
prefix_of data_begin = "data: "
prefix_of (write_body msg) = "write body: "
prefix_of close_body = "close body: "
prefix_of quit = ""
prefix_of close_conn = ""
prefix_of close_client = ""

-- A script is played after the commands `h`: each command is given once those before it have been
-- accepted, and the first that is refused ends it.
pub data Plays (server : Server) : List Command → List Command → Sending → Type 0 where
  played : (h : List Command) → Plays server h [] (h, none)
  accepted :
      {h cs : List Command} {s : Sending} (c : Command)
      → server (h ++ c ∷ []) ≡ none
      → Plays server (h ++ c ∷ []) cs s
      → Plays server h (c ∷ cs) s
  refused :
      {h cs : List Command} (c : Command) (e : String)
      → server (h ++ c ∷ []) ≡ some e
      → Plays server h (c ∷ cs) (h ++ c ∷ [], some (prefix_of c <> e))

abbrev pub auth_script : Option Auth → List Command
auth_script none = []
auth_script (some auth) = auth_with auth ∷ []

-- The commands up to the body, after the client has been made, and all of them.
abbrev pub envelope : Option Auth → String → List String → List Command
envelope auth from to =
    auth_script auth ++ (mail_from from ∷ []) ++ map rcpt_to to ++ data_begin ∷ []

abbrev pub mail_script : Option Auth → String → List String → String → List Command
mail_script auth from to msg = envelope auth from to ++ write_body msg ∷ close_body ∷ quit ∷ []

abbrev pub connect : String → String → List Command
connect addr host = tls_dial addr host ∷ new_client host ∷ []

-- What is closed after a session: nothing where the dial failed, the connection where no client could
-- be made, and the client otherwise.
abbrev pub closing : Sending → List Command
closing (c ∷ [], some e) = []
closing (c ∷ d ∷ [], some e) = close_conn ∷ []
closing s = close_client ∷ []

regroup :
    (xs bs : List Command) (m d w c q : Command)
    → (((((xs ++ m ∷ []) ++ bs) ++ d ∷ []) ++ w ∷ []) ++ c ∷ []) ++ q ∷ []
      ≡ (xs ++ (m ∷ []) ++ bs ++ d ∷ []) ++ w ∷ c ∷ q ∷ []
regroup xs bs m d w c q = simp append_assoc

module _ (server : Server) where
  answered-Plays :
      (c : Command) (h : List Command) (o : Option String)
      → server (h ++ c ∷ []) ≡ o
      → Plays server h (c ∷ []) (answered (h ++ c ∷ []) (prefix_of c) o)
  answered-Plays c h none e = accepted c e (played (h ++ c ∷ []))
  answered-Plays c h (some x) e = refused c x e

  call-Plays :
      (c : Command) (h : List Command) → Plays server h (c ∷ []) (call server c (prefix_of c) h)
  call-Plays c h = answered-Plays c h (server (h ++ c ∷ [])) refl

  and_then-Plays :
      {h cs ds : List Command} {s : Sending} (k : List Command → Sending)
      → Plays server h cs s
      → ((log : List Command) → Plays server log ds (k log))
      → Plays server h (cs ++ ds) (s and_then k)
  and_then-Plays k (played h) next = next h
  and_then-Plays k (accepted c e more) next = accepted c e (and_then-Plays k more next)
  and_then-Plays k (refused c x e) next = refused c x e

  send_auth-Plays :
      (auth : Option Auth) (h : List Command)
      → Plays server h (auth_script auth) (send_auth server auth h)
  unfolding send_auth
  send_auth-Plays none h = played h
  send_auth-Plays (some auth) h = call-Plays (auth_with auth) h

  send_recipients-Plays :
      (to : List String) (h : List Command)
      → Plays server h (map rcpt_to to) (send_recipients server to h)
  unfolding send_recipients
  send_recipients-Plays [] h = played h
  send_recipients-Plays (rcpt ∷ to) h =
      and_then-Plays (send_recipients server to) (call-Plays (rcpt_to rcpt) h)
        (send_recipients-Plays to)

  send_mail-Plays :
      (auth : Option Auth) (from : String) (to : List String) (msg : String) (h : List Command)
      → Plays server h (mail_script auth from to msg) (send_mail server auth from to msg h)
  unfolding send_mail
  send_mail-Plays auth from to msg h =
      let played_by_steps =
        and_then-Plays (call server quit "")
          (and_then-Plays (call server close_body "close body: ")
            (and_then-Plays (call server (write_body msg) "write body: ")
              (and_then-Plays (call server data_begin "data: ")
                (and_then-Plays (send_recipients server to)
                  (and_then-Plays (call server (mail_from from) "mail from: ")
                    (send_auth-Plays auth h) (call-Plays (mail_from from)))
                  (send_recipients-Plays to))
                (call-Plays data_begin))
              (call-Plays (write_body msg)))
            (call-Plays close_body))
          (call-Plays quit) in
      subst (λ cs. Plays server h cs (send_mail server auth from to msg h))
        (regroup (auth_script auth) (map rcpt_to to) (mail_from from) data_begin (write_body msg)
          close_body quit)
        played_by_steps

  grown :
      {h cs : List Command} {s : Sending}
      → Plays server h cs s
      → (x : List Command) × (s.0 ≡ h ++ x)
  grown (played h) = ([], sym (append-nil h))
  grown (accepted {h = h} c e more) =
      let (x, e) = grown more in (c ∷ x, e ∙ append_assoc h (c ∷ []) x)
  grown (refused c x e) = (c ∷ [], refl)

  longer :
      {h cs : List Command} {s : Sending} (c : Command)
      → Plays server h (c ∷ cs) s
      → (x : List Command) × (s.0 ≡ h ++ c ∷ x)
  longer c (accepted d e more) = let (x, h) = grown more in (x, h ∙ append_assoc _ (c ∷ []) x)
  longer c (refused d x e) = ([], refl)

  closing-long :
      (s : Sending) (c d e : Command) (x : List Command)
      → s.0 ≡ c ∷ d ∷ e ∷ x
      → closing s ≡ close_client ∷ []
  closing-long (l, none) c d e x h = subst (λ l. closing (l, none) ≡ close_client ∷ []) (sym h) refl
  closing-long (l, some r) c d e x h =
      subst (λ l. closing (l, some r) ≡ close_client ∷ []) (sym h) refl

  on_client-Plays :
      (host : String) (k : List Command → Sending) (c d : Command) (cs : List Command)
      → ((log : List Command) → Plays server log (d ∷ cs) (k log))
      → (o : Option String) → server (c ∷ new_client host ∷ []) ≡ o
      → (s : Sending) × Plays server (c ∷ []) (new_client host ∷ d ∷ cs) s
        × (on_client k (answered (c ∷ new_client host ∷ []) "smtp client: " o)
            ≡ (s.0 ++ closing s, s.1))
  on_client-Plays host k c d cs next none e =
      let log = c ∷ new_client host ∷ [] in
      let p = next log in
      let (x, long) = longer d p in
      (
        k log,
        accepted (new_client host) e p,
        ap (λ z. ((k log).0 ++ z, (k log).1))
            (sym (closing-long (k log) c (new_client host) d x long)),
      )
  on_client-Plays host k c d cs next (some r) e = (_, refused (new_client host) r e, refl)

  on_dial-Plays :
      (addr host : String) (k : List Command → Sending) (d : Command) (cs : List Command)
      → ((log : List Command) → Plays server log (d ∷ cs) (k log))
      → (o : Option String) → server (tls_dial addr host ∷ []) ≡ o
      → (s : Sending) × Plays server [] (tls_dial addr host ∷ new_client host ∷ d ∷ cs) s
        × ((answered (tls_dial addr host ∷ []) "tls dial: " o
              and_then (λ log. on_client k (call server (new_client host) "smtp client: " log)))
            ≡ (s.0 ++ closing s, s.1))
  on_dial-Plays addr host k d cs next none e =
      let c = tls_dial addr host in
      let (s, p, same) =
        on_client-Plays host k c d cs next (server (c ∷ new_client host ∷ [])) refl in
      (s, accepted c e p, same)
  on_dial-Plays addr host k d cs next (some r) e = (_, refused (tls_dial addr host) r e, refl)

  mail_script-cons :
      (auth : Option Auth) (from : String) (to : List String) (msg : String)
      → (d : Command) × (cs : List Command) × (mail_script auth from to msg ≡ d ∷ cs)
  mail_script-cons none from to msg = (_, _, refl)
  mail_script-cons (some auth) from to msg = (_, _, refl)

  -- Where the address has a host, `sendImplicitTLS` plays the script of a mail: dial, client,
  -- authentication if there is one, sender, each recipient, the message, and the end. It stops at the
  -- first command that is refused, with that command's error, and closes at its end what it has opened.
  pub send_implicit_tls-Plays :
      (split : String → Split) (addr host : String) (auth : Option Auth) (from : String)
      (to : List String) (msg : String)
      → split addr ≡ split_host host
      → (s : Sending) × Plays server [] (connect addr host ++ mail_script auth from to msg) s
        × (send_implicit_tls split server addr auth from to msg ≡ (s.0 ++ closing s, s.1))
  unfolding send_implicit_tls
  send_implicit_tls-Plays split addr host auth from to msg h =
      let (d, cs, shape) = mail_script-cons auth from to msg in
      let next : (log : List Command)
          → Plays server log (d ∷ cs) (send_mail server auth from to msg log) =
        λ log.
          subst (λ l. Plays server log l (send_mail server auth from to msg log)) shape
            (send_mail-Plays auth from to msg log) in
      let (s, p, same) =
        on_dial-Plays addr host (send_mail server auth from to msg) d cs next
          (server (tls_dial addr host ∷ [])) refl in
      (
        s,
        subst (λ l. Plays server [] (connect addr host ++ l) s) (sym shape) p,
        ap (on_split server addr auth from to msg) h ∙ same,
      )
