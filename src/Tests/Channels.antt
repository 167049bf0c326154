-- ===== src/Tests/Channels.antt =====
-- Concrete alerts for internal/notify/email.go, webhook.go and smsgate.go.
use text.Mathlib.Text.{◌==◌}
use healthd.Common.{
  ◌<>◌, if◌then◌else◌, String, ◌≡◌, ◌↔◌, refl, List, [], ◌∷◌, ◌++◌, Option, none, some,
}
use healthd.Common.Int.{pos}
use healthd.Platform.Exact.{exact}
use healthd.Notify.{Alert, Format}
use healthd.Notify.Dispatcher.{delivered}
use healthd.Notify.Email.{
  send_mail, send_auth, send_recipients, Command, Server, Sending, Split, split_host,
  send_implicit_tls, build_message,
}
use healthd.Notify.Email.Transcript.{
  Plays, connect, envelope, mail_script, closing, send_implicit_tls-Plays,
}
use healthd.Notify.Email.Body.{Accepts, send_implicit_tls-write_body}
use healthd.Notify.Email.Message.{to_lines, to_lines-build_message}
use healthd.Notify.Http.{
  value, SmsMessage, Http, new_webhook, webhook_notify, new_sms_gate, sms_notify, trim_slashes,
}
use healthd.Notify.Http.Accepted.{Posted, posts_iff}

abbrev split_mail : String → Split
split_mail addr = split_host "mail"

-- A server that refuses the recipient `b`, and one that accepts everything.
abbrev refuse_b : Command → Option String
refuse_b (Command.rcpt_to r) = if r == "b" then some "no such user" else none
refuse_b c = none

abbrev refuses_last : Server
refuses_last [] = none
refuses_last (c ∷ []) = refuse_b c
refuses_last (c ∷ d ∷ cs) = refuses_last (d ∷ cs)

abbrev accepts_all : Server
accepts_all log = none

abbrev recipients : List String
recipients = "a" ∷ "b" ∷ []

send_implicit_tls-Plays_example :
    (s : Sending) × Plays refuses_last []
      (connect "mail:465" "mail" ++ mail_script none "me" recipients "hello")
      s
    × (send_implicit_tls split_mail refuses_last "mail:465" none "me" recipients "hello"
        ≡ (s.0 ++ closing s, s.1))
send_implicit_tls-Plays_example =
    send_implicit_tls-Plays refuses_last split_mail "mail:465" "mail" none "me" recipients "hello"
      refl

send_implicit_tls-write_body_example :
    Accepts accepts_all [] (connect "mail:465" "mail" ++ envelope none "me" recipients)
unfolding send_implicit_tls send_mail send_auth send_recipients
send_implicit_tls-write_body_example =
    send_implicit_tls-write_body accepts_all split_mail "mail:465" "mail" none "me" recipients
      "hello" refl refl

abbrev alert : Alert exact
alert = record {
  role = "ping_monitor";
  state = "UNHEALTHY";
  timestamp = 7;
  detail = "down";
  consecutive_failures = pos 3;
}

abbrev fmt : Format exact
fmt = record { format_int = λ n. "n"; rfc1123z = λ t. "date"; rfc3339 = λ t. "time" }

to_lines-build_message_example :
    to_lines (build_message exact fmt "me" recipients "[healthd] ping_monitor UNHEALTHY" alert)
    ≡ "From: me" ∷ "To: a, b" ∷ "Subject: [healthd] ping_monitor UNHEALTHY" ∷ "Date: date"
      ∷ "Content-Type: text/plain; charset=UTF-8" ∷ "" ∷ "Role: ping_monitor" ∷ "State: UNHEALTHY"
      ∷ "Time: time" ∷ "Consecutive failures: n" ∷ "Detail: down" ∷ []
to_lines-build_message_example =
    to_lines-build_message exact fmt "me" recipients "[healthd] ping_monitor UNHEALTHY" alert
      (record {
        from_line = refl;
        to_line = refl;
        subject_line = refl;
        date_line = refl;
        role_line = refl;
        state_line = refl;
        time_line = refl;
        count_line = refl;
        detail_line = refl;
      })

abbrev http : Http exact String
http = record {
  marshal_alert = λ a. value a.role;
  marshal_sms = λ m. value m.message;
  new_request = λ u. value u;
  send = λ t r. value (pos 202);
}

posts_iff_example :
    let message : SmsMessage = record {
      message = "[healthd] ping_monitor UNHEALTHY: down";
      phone_numbers = "+1" ∷ [];
    } in
    ((webhook_notify exact fmt http (new_webhook "http://hook" (pos 5)) alert ≡ delivered)
      ↔ Posted exact http (pos 5) (http.marshal_alert alert) "http://hook" none)
    × ((sms_notify exact fmt http (new_sms_gate "http://gate/" "u" "p" ("+1" ∷ []) (pos 5)) alert
          ≡ delivered)
        ↔ Posted exact http
            (pos 5)
            (http.marshal_sms message)
            (trim_slashes "http://gate/" <> "/message")
            (some ("u", "p")))
posts_iff_example =
    posts_iff exact fmt http alert "http://hook" (pos 5) "http://gate/" "u" "p" ("+1" ∷ [])
