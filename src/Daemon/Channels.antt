-- ===== src/Daemon/Channels.antt =====
-- The channels that buildChannels of cmd/healthd/main.go makes, as services of the dispatcher
-- (internal/notify/dispatcher.go), and an alert that goes through both.
pub mod Reaches
pub mod Delivered
use healthd.Common.{ℕ, String, List, [], ◌∷◌, Option}
use healthd.Common.Int.{ℤ}
use healthd.Platform.{Platform}
use healthd.Notify.{Alert, Format}
use healthd.Notify.Console.{console_notify}
use healthd.Notify.Dispatcher.{Outcome, Service, Context, ChannelTrace, new_dispatcher, dispatch}
use healthd.Notify.Email.{Auth, Server, Split, Sent, new_email, notify, senders_of}
use healthd.Notify.Http.{Http, new_webhook, webhook_notify, new_sms_gate, sms_notify}
use healthd.Daemon.{
  milliseconds, BuiltChannel, console_channel, webhook_channel, email_channel, smsgate_channel,
}

module _ (go : Platform) (Body : Type 0) where
  -- What the world does at each attempt of a channel: the mail server, smtp.SendMail, HTTP, and the error
  -- of the context where it ends before the sender.
  pub record World : Type 0 where
    pub format : Format go
    pub split : String → Split
    pub server : ℕ → Server
    pub starttls : ℕ → String → Option Auth → String → List String → String → Sent
    pub http : ℕ → Http go Body
    pub ctx_done : ℕ → Option String

  -- Notify of a channel at its attempt `n`.
  unfoldable pub notify_built : World → BuiltChannel → Alert go → ℕ → Outcome
  unfolding console_notify webhook_notify notify sms_notify new_email new_sms_gate
  notify_built w console_channel alert n = (console_notify go alert).1
  notify_built w (webhook_channel url timeout) alert n =
      webhook_notify go w.format (w.http n) (new_webhook url timeout) alert
  notify_built w (email_channel host port from to username password) alert n =
      notify go w.format (senders_of go w.split (w.server n) (w.starttls n)) (w.ctx_done n)
        (new_email host port from to username password) alert
  notify_built w (smsgate_channel base_url username password recipients timeout) alert n =
      sms_notify go w.format (w.http n) (new_sms_gate base_url username password recipients timeout)
        alert

  -- The services of the dispatcher, for one alert; each channel has a world of its own.
  unfoldable pub services :
      (String → World) → List (String × BuiltChannel) → Alert go → List (String × Service)
  unfolding notify_built
  services world [] alert = []
  services world ((name, ch) ∷ chs) alert =
      (name, notify_built (world name) ch alert) ∷ services world chs alert

  -- `Dispatch` of the dispatcher that `run` makes.
  unfoldable pub dispatch_alert :
      (String → World)
      → List (String × BuiltChannel)
      → ℤ
      → ℤ
      → Context
      → Alert go
      → List String
      → List (String × ChannelTrace)
  unfolding services new_dispatcher dispatch
  dispatch_alert world channels max_attempts base_delay_ms ctx alert names =
      dispatch
        (new_dispatcher (services world channels alert) max_attempts (milliseconds base_delay_ms))
        ctx names
