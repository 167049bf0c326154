-- ===== src/Tests/Arrivals.antt =====
-- An alert that an SMS gateway takes at the second attempt (internal/notify/dispatcher.go, smsgate.go).
use healthd.Common.{
  ℕ, String, ◌≡◌, refl, ap, false, List, [], ◌∷◌, ◌++◌, none, some, map, get_elem?, arith, ltb,
  if◌then◌else◌,
}
use healthd.Common.Int.{ℤ, pos, to_ℕ}
use healthd.Common.Assoc.{lookup}
use healthd.Platform.Exact.{exact}
use healthd.Notify.{Alert, Format}
use healthd.Notify.Dispatcher.{Policy, Context, delivery, notified, new_dispatcher}
use healthd.Notify.Dispatcher.Positions.{name_of}
use healthd.Notify.Dispatcher.Deliver.{retries}
use healthd.Notify.Email.{split_host, sent}
use healthd.Notify.Http.{Attempt, value, trim_slashes}
use healthd.Daemon.{milliseconds, BuiltChannel, console_channel, smsgate_channel}
use healthd.Daemon.Channels.{World, notify_built, services, dispatch_alert}
use healthd.Daemon.Channels.Delivered.{dispatch_alert-arrives}

abbrev alert : Alert exact
alert = record {
  role = "ping_monitor";
  state = "UNHEALTHY";
  timestamp = 7;
  detail = "down";
  consecutive_failures = pos 3;
}

abbrev fmt : Format exact
fmt = record { format_int = λ n. "n"; rfc1123z = λ t. "date"; rfc3339 = λ t. "time" }

abbrev status_at : ℕ → ℤ
status_at n = if ltb n 2 then pos 503 else pos 202

abbrev world : String → World exact String
world name = record {
  format = fmt;
  split = λ a. split_host "mail";
  server = λ n log. none;
  starttls = λ n addr auth from to msg. sent none;
  http = λ n. record {
    marshal_alert = λ a. value a.role;
    marshal_sms = λ m. value m.message;
    new_request = λ u. value u;
    send = λ t r. value (status_at n);
  };
  ctx_done = λ n. none;
}

abbrev gateway : BuiltChannel
gateway = smsgate_channel "http://gate/" "u" "p" ("+1" ∷ []) (pos 5)

abbrev channels : List (String × BuiltChannel)
channels = ("console", console_channel) ∷ ("sms", gateway) ∷ []

abbrev never : Context
never = record { cancelled = λ n. false; done_in_backoff = λ n. false }

abbrev status_of : Attempt ℤ → ℕ
status_of (value s) = to_ℕ s
status_of (Attempt.error e) = 0

abbrev policy : Policy
policy =
    (new_dispatcher (services exact String world channels alert) (pos 3)
      (milliseconds (pos 500))).policy

-- The gateway is named twice, and this is its second delivery.
abbrev listed : List String
listed = "sms" ∷ "console" ∷ "sms" ∷ []

dispatch_alert-arrives_example :
    let traces = dispatch_alert exact String world channels (pos 3) (pos 500) never alert listed in
    (map name_of traces ≡ listed)
    × (get_elem? traces 2
        ≡ some (
          "sms",
          delivery (
              retries policy never (notify_built exact String (world "sms") gateway alert) 1 1
              ++ notified 2 ∷ []),
        ))
unfolding lookup new_dispatcher trim_slashes
dispatch_alert-arrives_example =
    dispatch_alert-arrives exact String world channels (pos 3) (pos 500) never alert listed 2 "sms"
      gateway 1 refl refl (omega arith)
      (
        (
          refl,
          refl,
          λ p.
              let late : 503 ≡ p.status = ap status_of p.answers in
              absurd (omega (arith, late, p.below)),
        ),
        tt,
      )
      refl
      (record {
        body = "[healthd] ping_monitor UNHEALTHY: down";
        target = "http://gate/message";
        status = 202;
        is_encoded = refl;
        is_url = refl;
        answers = refl;
        at_least = omega arith;
        below = omega arith;
      })
