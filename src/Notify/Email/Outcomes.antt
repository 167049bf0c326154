-- ===== src/Notify/Email/Outcomes.antt =====
-- Email.Notify of internal/notify/email.go by implicit TLS.
use healthd.Common.{◌<>◌, String, ◌≡◌, ◌≢◌, ◌↔◌, refl, List, [], ◌++◌, Option, none, some}
use healthd.Platform.{Platform}
use healthd.Notify.Dispatcher.{delivered, panicked}
use healthd.Notify.{Alert, Format}
use healthd.Notify.Email.{
  Auth, Server, Split, split_host, send_implicit_tls, implicit_tls_port, Sender, Email, new_email,
  Sent, build_message, select_done, auth_of, notify, senders_of,
}
use healthd.Notify.Email.Transcript.{mail_script, connect}
use healthd.Notify.Email.Body.{Accepts, send_implicit_tls_iff}

module _ (go : Platform) where
  select_done_iff :
      (ctx_done : Option String) (o : Option String)
      → (select_done go ctx_done (Sent.sent o) ≡ delivered) ↔ ((ctx_done ≡ none) × (o ≡ none))
  select_done_iff none none = ((λ e. (refl, refl)), λ h. refl)
  select_done_iff none (some e) = ((λ h. cc), λ (a, b). cc)
  select_done_iff (some x) o = ((λ h. cc), λ (a, b). cc)

  -- Whatever the sender does, Notify does not panic: a panic of the sender is an error of the channel.
  select_done-contained :
      (ctx_done : Option String) (r : Sent) (v : String) → select_done go ctx_done r ≢ panicked v
  select_done-contained none (Sent.sent none) v = λ h. cc
  select_done-contained none (Sent.sent (some e)) v = λ h. cc
  select_done-contained none (Sent.send_panicked e) v = λ h. cc
  select_done-contained (some x) r v = λ h. cc

  pub notify_contained :
      (fmt : Format go)
      (senders : Sender → String → Option Auth → String → List String → String → Sent)
      (ctx_done : Option String) (e : Email) (alert : Alert go) (v : String)
      → notify go fmt senders ctx_done e alert ≢ panicked v
  unfolding notify
  notify_contained fmt senders ctx_done e alert v = select_done-contained ctx_done _ v

  -- A channel on port 465 delivers an alert exactly when the context is not first and the server accepts
  -- every command of a mail with the alert as its message; it never panics.
  pub notify_iff :
      (fmt : Format go) (split : String → Split) (server : Server)
      (starttls : String → Option Auth → String → List String → String → Sent)
      (ctx_done : Option String) (host name from : String) (to : List String)
      (username password : String) (alert : Alert go)
      → let e = new_email host implicit_tls_port from to username password in
        let addr = host <> ":" <> fmt.format_int implicit_tls_port in
        let msg =
          build_message go fmt from to ("[healthd] " <> alert.role <> " " <> alert.state) alert in
        let result = notify go fmt (senders_of go split server starttls) ctx_done e alert in
        split addr ≡ split_host name
        → ((result ≡ delivered) ↔ (
            (ctx_done ≡ none)
            × Accepts server [] (connect addr name ++ mail_script (auth_of go e) from to msg)))
          × ((v : String) → result ≢ panicked v)
  unfolding notify new_email
  notify_iff fmt split server starttls ctx_done host name from to username password alert h =
      let e = new_email host implicit_tls_port from to username password in
      let addr = host <> ":" <> fmt.format_int implicit_tls_port in
      let msg =
        build_message go fmt from to ("[healthd] " <> alert.role <> " " <> alert.state) alert in
      let (out, back) =
        select_done_iff ctx_done
          (send_implicit_tls split server addr (auth_of go e) from to msg).1 in
      let (there, here) =
        send_implicit_tls_iff server split addr name (auth_of go e) from to msg h in
      (
        ((λ d. let (a, b) = out d in (a, there b)), λ (a, b). back (a, here b)),
        notify_contained fmt (senders_of go split server starttls) ctx_done e alert,
      )
