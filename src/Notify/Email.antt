-- ===== src/Notify/Email.antt =====
-- internal/notify/email.go. The connection, the TLS handshake and net/smtp are an argument: what they
-- answer to the last of the commands that they have been given. The function of net/smtp that sends by
-- STARTTLS is an argument too. `select` chooses whether the context or the sender is first.
pub mod Transcript
pub mod Body
pub mod Outcomes
pub mod Message
use text.Mathlib.Text.{◌==◌}
use healthd.Common.{
  ◌<>◌, String, Bool, true, false, not, List, [], ◌∷◌, ◌++◌, Option, none, some, if◌then◌else◌, map,
}
use healthd.Common.Int.{ℤ, pos, eqb_ℤ}
use healthd.Platform.{Platform}
use healthd.Notify.Dispatcher.{Outcome, delivered, failed, panicked}
use healthd.Notify.{Alert, Format, join}

-- smtp.PlainAuth
pub record Auth : Type 0 where
  pub identity : String
  pub username : String
  pub password : String
  pub host : String

-- The calls of `sendImplicitTLS` that reach the network.
pub data Command : Type 0 where
  tls_dial : String → String → Command
  new_client : String → Command
  auth_with : Auth → Command
  mail_from rcpt_to : String → Command
  data_begin : Command
  write_body : String → Command
  close_body quit : Command
  close_conn close_client : Command

-- The error, if any, of the last command of those given so far.
abbrev pub Server : Type 0
Server = List Command → Option String

-- The commands given, and the error with which the sender stops.
abbrev pub Sending : Type 0
Sending = List Command × Option String

-- One call, after the commands of `log`; its error gets a prefix.
abbrev pub answered : List Command → String → Option String → Sending
answered log prefix none = (log, none)
answered log prefix (some e) = (log, some (prefix <> e))

abbrev pub call : Server → Command → String → List Command → Sending
call server c prefix log = answered (log ++ c ∷ []) prefix (server (log ++ c ∷ []))

-- `if err := …; err != nil { return … }`
infixl 6 ◌and_then◌
abbrev pub ◌and_then◌ : Sending → (List Command → Sending) → Sending
(log, none) and_then k = k log
(log, some e) and_then k = (log, some e)

unfoldable pub send_auth : Server → Option Auth → List Command → Sending
send_auth server none log = (log, none)
send_auth server (some auth) log = call server (auth_with auth) "auth: " log

unfoldable pub send_recipients : Server → List String → List Command → Sending
send_recipients server [] log = (log, none)
send_recipients server (rcpt ∷ to) log =
    call server (rcpt_to rcpt) ("rcpt " <> rcpt <> ": ") log and_then send_recipients server to

-- From the authentication to `client.Quit()`, whose error has no prefix.
unfoldable pub send_mail :
    Server → Option Auth → String → List String → String → List Command → Sending
unfolding send_auth send_recipients
send_mail server auth from to msg log =
    send_auth server auth log
    and_then call server (mail_from from) "mail from: "
    and_then send_recipients server to
    and_then call server data_begin "data: "
    and_then call server (write_body msg) "write body: "
    and_then call server close_body "close body: "
    and_then call server quit ""

-- `conn.Close()` where there is no client, and the deferred `client.Close()`; their errors are dropped.
abbrev pub close_with : Command → Sending → Sending
close_with c (log, e) = (log ++ c ∷ [], e)

abbrev pub on_client : (List Command → Sending) → Sending → Sending
on_client k (log, none) = close_with close_client (k log)
on_client k (log, some e) = close_with close_conn (log, some e)

-- net.SplitHostPort
pub data Split : Type 0 where
  split_failed : String → Split
  split_host : String → Split

abbrev pub on_split :
    Server → String → Option Auth → String → List String → String → Split → Sending
on_split server addr auth from to msg (split_failed e) = ([], some ("split host: " <> e))
on_split server addr auth from to msg (split_host host) =
    call server (tls_dial addr host) "tls dial: " [] and_then (λ log.
      on_client (send_mail server auth from to msg)
        (call server (new_client host) "smtp client: " log))

unfoldable pub send_implicit_tls :
    (String → Split) → Server → String → Option Auth → String → List String → String → Sending
unfolding send_mail
send_implicit_tls split_host_port server addr auth from to msg =
    on_split server addr auth from to msg (split_host_port addr)

abbrev pub implicit_tls_port : ℤ
implicit_tls_port = pos 465

abbrev pub use_implicit_tls : ℤ → Bool
use_implicit_tls port = eqb_ℤ port implicit_tls_port

-- Which of the two senders a channel has.
pub data Sender : Type 0 where
  implicit_tls : Sender
  send_mail_starttls : Sender

pub record Email : Type 0 where
  pub host : String
  pub port : ℤ
  pub from : String
  pub to : List String
  pub username : String
  pub password : String
  pub send : Sender

unfoldable pub new_email : String → ℤ → String → List String → String → String → Email
new_email host port from to username password = record {
  host = host;
  port = port;
  from = from;
  to = to;
  username = username;
  password = password;
  send = if use_implicit_tls port then implicit_tls else send_mail_starttls;
}

-- What a sender does: it returns, with an error or without, or it panics.
pub data Sent : Type 0 where
  sent : Option String → Sent
  send_panicked : String → Sent

module _ (go : Platform) where
  unfoldable pub build_message : Format go → String → List String → String → Alert go → String
  build_message fmt from to subject alert =
      "From: "
      <> from
      <> "\r\n"
      <> "To: "
      <> join ", " to
      <> "\r\n"
      <> "Subject: "
      <> subject
      <> "\r\n"
      <> "Date: "
      <> fmt.rfc1123z alert.timestamp
      <> "\r\n"
      <> "Content-Type: text/plain; charset=UTF-8\r\n"
      <> "\r\n"
      <> "Role: "
      <> alert.role
      <> "\r\n"
      <> "State: "
      <> alert.state
      <> "\r\n"
      <> "Time: "
      <> fmt.rfc3339 alert.timestamp
      <> "\r\n"
      <> "Consecutive failures: "
      <> fmt.format_int alert.consecutive_failures
      <> "\r\n"
      <> "Detail: "
      <> alert.detail
      <> "\r\n"

  -- What the goroutine puts on the channel `done`.
  abbrev pub done_of : Sent → Option String
  done_of (sent e) = e
  done_of (send_panicked v) = some ("email send panic: " <> v)

  abbrev pub on_done : Option String → Outcome
  on_done none = delivered
  on_done (some e) = failed ("email send: " <> e)

  abbrev pub auth_of : Email → Option Auth
  auth_of e =
      if e.username == ""
      then none
      else some
          (record { identity = ""; username = e.username; password = e.password; host = e.host })

  -- `ctx_done` is the error of the context where the `select` takes it first.
  abbrev pub select_done : Option String → Sent → Outcome
  select_done none r = on_done (done_of r)
  select_done (some ctx_err) r = failed ctx_err

  -- A sender gets the address, the authentication, the two ends and the message.
  unfoldable pub notify :
      Format go
      → (Sender → String → Option Auth → String → List String → String → Sent)
      → Option String
      → Email
      → Alert go
      → Outcome
  unfolding build_message
  notify fmt senders ctx_done e alert =
      let addr = e.host <> ":" <> fmt.format_int e.port in
      let subject = "[healthd] " <> alert.role <> " " <> alert.state in
      let msg = build_message fmt e.from e.to subject alert in
      select_done ctx_done (senders e.send addr (auth_of e) e.from e.to msg)

  -- The senders: `sendImplicitTLS` against a server, and the other.
  abbrev pub senders_of :
      (String → Split)
      → Server
      → (String → Option Auth → String → List String → String → Sent)
      → Sender
      → String
      → Option Auth
      → String
      → List String
      → String
      → Sent
  senders_of split server starttls implicit_tls addr auth from to msg =
      sent (send_implicit_tls split server addr auth from to msg).1
  senders_of split server starttls send_mail_starttls addr auth from to msg =
      starttls addr auth from to msg
