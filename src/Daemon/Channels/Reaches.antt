-- ===== src/Daemon/Channels/Reaches.antt =====
-- When a channel delivers an alert (internal/notify, each channel's Notify).
use healthd.Common.{
  if◌then◌else◌, ℕ, ◌<>◌, String, ◌≡◌, ◌↔◌, refl, ap, Bool, true, false, [], ◌++◌, Option, none,
  some,
}
use healthd.Platform.{Platform}
use healthd.Notify.{Alert}
use healthd.Notify.Console.{console_notify}
use healthd.Notify.Dispatcher.{delivered}
use healthd.Notify.Email.{
  on_split, Split, split_host, split_failed, Sent, sent, send_panicked, Email, new_email, notify,
  senders_of, auth_of, build_message, send_implicit_tls, use_implicit_tls, select_done,
  implicit_tls, send_mail_starttls,
}
use healthd.Notify.Email.Transcript.{connect, mail_script}
use healthd.Notify.Email.Body.{Accepts, send_implicit_tls_iff}
use healthd.Notify.Http.{SmsMessage, trim_slashes}
use healthd.Notify.Http.Accepted.{Posted, posts_iff}
use healthd.Daemon.{BuiltChannel, console_channel, webhook_channel, email_channel, smsgate_channel}
use healthd.Daemon.Channels.{World, notify_built}

module _ (go : Platform) (Body : Type 0) where
  -- A mail goes out: by implicit TLS, the server accepts every command of it; otherwise smtp.SendMail
  -- returns no error.
  abbrev pub MailOut : World go Body → Bool → Email → Alert go → ℕ → Type 0
  MailOut w true e alert n =
      let addr = e.host <> ":" <> w.format.format_int e.port in
      let msg =
        build_message go w.format e.from e.to ("[healthd] " <> alert.role <> " " <> alert.state)
          alert in
      (name : String) × (w.split addr ≡ split_host name)
      × Accepts (w.server n) [] (connect addr name ++ mail_script (auth_of go e) e.from e.to msg)
  MailOut w false e alert n =
      let addr = e.host <> ":" <> w.format.format_int e.port in
      let msg =
        build_message go w.format e.from e.to ("[healthd] " <> alert.role <> " " <> alert.state)
          alert in
      w.starttls n addr (auth_of go e) e.from e.to msg ≡ sent none

  -- The alert goes through at the attempt `n`: the other side of the channel takes it and says so.
  abbrev pub Reaches : World go Body → BuiltChannel → Alert go → ℕ → Type 0
  Reaches w console_channel alert n = Unit {0}
  Reaches w (webhook_channel url timeout) alert n =
      Posted go (w.http n) timeout ((w.http n).marshal_alert alert) url none
  Reaches w (email_channel host port from to username password) alert n =
      (w.ctx_done n ≡ none)
      × MailOut w (use_implicit_tls port) (new_email host port from to username password) alert n
  Reaches w (smsgate_channel base_url username password recipients timeout) alert n =
      let message : SmsMessage = record {
        message = "[healthd] " <> alert.role <> " " <> alert.state <> ": " <> alert.detail;
        phone_numbers = recipients;
      } in
      Posted go (w.http n) timeout ((w.http n).marshal_sms message)
        (trim_slashes base_url <> "/message") (some (username, password))

  select_done_sent :
      (c : Option String) (r : Sent)
      → (select_done go c r ≡ delivered) ↔ ((c ≡ none) × (r ≡ sent none))
  select_done_sent none (sent none) = ((λ h. (refl, refl)), λ h. refl)
  select_done_sent none (sent (some e)) = ((λ h. cc), λ (a, b). cc)
  select_done_sent none (send_panicked v) = ((λ h. cc), λ (a, b). cc)
  select_done_sent (some e) r = ((λ h. cc), λ (a, b). cc)

  sent_error : {x y : Option String} → sent x ≡ sent y → x ≡ y
  sent_error h = cc

  implicit_out :
      (w : World go Body) (e : Email) (alert : Alert go) (n : ℕ) (sp : Split)
      → let addr = e.host <> ":" <> w.format.format_int e.port in
        let msg =
          build_message go w.format e.from e.to
            ("[healthd] " <> alert.role <> " " <> alert.state)
            alert in
        w.split addr ≡ sp
        → (send_implicit_tls w.split (w.server n) addr (auth_of go e) e.from e.to msg).1 ≡ none
        → MailOut w true e alert n
  unfolding send_implicit_tls
  implicit_out w e alert n (split_failed x) h out =
      let addr = e.host <> ":" <> w.format.format_int e.port in
      let msg =
        build_message go w.format e.from e.to ("[healthd] " <> alert.role <> " " <> alert.state)
          alert in
      let erred = ap (λ s. (on_split (w.server n) addr (auth_of go e) e.from e.to msg s).1) h in cc
  implicit_out w e alert n (split_host name) h out =
      let addr = e.host <> ":" <> w.format.format_int e.port in
      let msg =
        build_message go w.format e.from e.to ("[healthd] " <> alert.role <> " " <> alert.state)
          alert in
      (
        name,
        h,
        (send_implicit_tls_iff (w.server n) w.split addr name (auth_of go e) e.from e.to msg h).0
            out,
      )

  sender_iff :
      (w : World go Body) (e : Email) (alert : Alert go) (n : ℕ) (b : Bool)
      → let addr = e.host <> ":" <> w.format.format_int e.port in
        let msg =
          build_message go w.format e.from e.to
            ("[healthd] " <> alert.role <> " " <> alert.state)
            alert in
        (senders_of go w.split
            (w.server n)
            (w.starttls n)
            (if b then implicit_tls else send_mail_starttls)
            addr
            (auth_of go e)
            e.from
            e.to
            msg
          ≡ sent none)
        ↔ MailOut w b e alert n
  sender_iff w e alert n true =
      let addr = e.host <> ":" <> w.format.format_int e.port in
      let msg =
        build_message go w.format e.from e.to ("[healthd] " <> alert.role <> " " <> alert.state)
          alert in
      (
        (λ h. implicit_out w e alert n (w.split addr) refl (sent_error h)),
        λ (name, h, a). ap sent (
            (send_implicit_tls_iff (w.server n) w.split addr name (auth_of go e) e.from e.to msg
                h).1
              a),
      )
  sender_iff w e alert n false = ((λ h. h), λ h. h)

  -- Notify of a channel returns without an error exactly when the alert goes through.
  pub notify_built_iff :
      (w : World go Body) (ch : BuiltChannel) (alert : Alert go) (n : ℕ)
      → (notify_built go Body w ch alert n ≡ delivered) ↔ Reaches w ch alert n
  unfolding notify_built notify new_email console_notify
  notify_built_iff w console_channel alert n = ((λ h. tt), λ h. refl)
  notify_built_iff w (webhook_channel url timeout) alert n =
      (posts_iff go w.format (w.http n) alert url timeout "" "" "" []).0
  notify_built_iff w (email_channel host port from to username password) alert n =
      let e = new_email host port from to username password in
      let (there, back) = select_done_sent (w.ctx_done n) _ in
      let (out, inside) = sender_iff w e alert n (use_implicit_tls port) in
      ((λ h. let (a, b) = there h in (a, out b)), λ (a, b). back (a, inside b))
  notify_built_iff w (smsgate_channel base_url username password recipients timeout) alert n =
      (posts_iff go w.format (w.http n) alert "" timeout base_url username password recipients).1
