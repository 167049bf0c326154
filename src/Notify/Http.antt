-- ===== src/Notify/Http.antt =====
-- internal/notify/webhook.go and internal/notify/smsgate.go. encoding/json and net/http are an argument:
-- the encoding of a payload, the making of a request, and what the client answers to it.
pub mod Accepted
pub mod Url
use Prim.Native.Char.{code}
use text.Mathlib.Text.{◌==◌}
use healthd.Common.{
  ◌<>◌, ℕ, String, Bool, true, false, ◌||◌, ◌&&◌, List, Option, none, some, if◌then◌else◌,
  ◌==◌ as nat_eq,
}
use healthd.Common.Int.{ℤ, pos, ltb_ℤ, leb_ℤ}
use healthd.Platform.{Platform}
use healthd.Notify.Dispatcher.{Outcome, delivered, failed}
use healthd.Notify.{Alert, Format}

-- A value, or an error with its text.
pub data Attempt (A : Type 0) : Type 0 where
  error : String → Attempt A
  value : A → Attempt A

pub record Request (Body : Type 0) : Type 0 where
  pub method : String
  pub url : String
  pub content_type : String
  pub basic_auth : Option (String × String)
  pub body : Body

pub record SmsMessage : Type 0 where
  pub message : String
  pub phone_numbers : List String

-- The JSON of a payload, the URL of a new request (an error where it cannot be parsed), and the status
-- of the response to a request of a client with a timeout.
pub record Http (go : Platform) (Body : Type 0) : Type 0 where
  pub marshal_alert : Alert go → Attempt Body
  pub marshal_sms : SmsMessage → Attempt Body
  pub new_request : String → Attempt String
  pub send : ℤ → Request Body → Attempt ℤ

pub record Webhook : Type 0 where
  pub url : String
  pub timeout : ℤ

abbrev pub new_webhook : String → ℤ → Webhook
new_webhook url timeout = record { url = url; timeout = timeout }

pub record SmsGate : Type 0 where
  pub base_url : String
  pub username : String
  pub password : String
  pub recipients : List String
  pub timeout : ℤ

abbrev pub is_empty : String → Bool
is_empty String.[] = true
is_empty (String.◌∷◌ c s) = false

-- strings.TrimRight(s, "/")
unfoldable pub trim_slashes : String → String
trim_slashes String.[] = ""
trim_slashes (String.◌∷◌ c s) =
    let rest = trim_slashes s in
    if is_empty rest && nat_eq (code c) 47 then "" else String.◌∷◌ c rest

unfoldable pub new_sms_gate : String → String → String → List String → ℤ → SmsGate
unfolding trim_slashes
new_sms_gate base_url username password recipients timeout = record {
  base_url = trim_slashes base_url;
  username = username;
  password = password;
  recipients = recipients;
  timeout = timeout;
}

-- A status other than 2xx is an error.
abbrev pub on_status : (ℤ → String) → String → ℤ → Outcome
on_status format_int name status =
    if ltb_ℤ status (pos 200) || leb_ℤ (pos 300) status
    then failed (name <> " non-2xx status: " <> format_int status)
    else delivered

abbrev pub on_response : (ℤ → String) → String → Attempt ℤ → Outcome
on_response format_int name (error e) = failed (name <> " post: " <> e)
on_response format_int name (value status) = on_status format_int name status

abbrev pub sms_text : (go : Platform) → Alert go → String
sms_text go alert = "[healthd] " <> alert.role <> " " <> alert.state <> ": " <> alert.detail

module _ (go : Platform) {Body : Type 0} where
  abbrev pub on_webhook_request :
      Format go → Http go Body → Webhook → Body → Attempt String → Outcome
  on_webhook_request fmt http w body (error e) = failed ("webhook request: " <> e)
  on_webhook_request fmt http w body (value url) = on_response fmt.format_int "webhook" (
      http.send w.timeout (record {
        method = "POST";
        url = url;
        content_type = "application/json";
        basic_auth = none;
        body = body;
      }))

  abbrev pub on_webhook_body : Format go → Http go Body → Webhook → Attempt Body → Outcome
  on_webhook_body fmt http w (error e) = failed ("webhook marshal: " <> e)
  on_webhook_body fmt http w (value body) =
      on_webhook_request fmt http w body (http.new_request w.url)

  unfoldable pub webhook_notify : Format go → Http go Body → Webhook → Alert go → Outcome
  webhook_notify fmt http w alert = on_webhook_body fmt http w (http.marshal_alert alert)

  abbrev pub on_sms_request : Format go → Http go Body → SmsGate → Body → Attempt String → Outcome
  on_sms_request fmt http s body (error e) = failed ("smsgate request: " <> e)
  on_sms_request fmt http s body (value url) = on_response fmt.format_int "smsgate" (
      http.send s.timeout (record {
        method = "POST";
        url = url;
        content_type = "application/json";
        basic_auth = some (s.username, s.password);
        body = body;
      }))

  abbrev pub on_sms_body : Format go → Http go Body → SmsGate → Attempt Body → Outcome
  on_sms_body fmt http s (error e) = failed ("smsgate marshal: " <> e)
  on_sms_body fmt http s (value body) =
      on_sms_request fmt http s body (http.new_request (s.base_url <> "/message"))

  unfoldable pub sms_notify : Format go → Http go Body → SmsGate → Alert go → Outcome
  sms_notify fmt http s alert =
      on_sms_body fmt http s
        (http.marshal_sms (record { message = sms_text go alert; phone_numbers = s.recipients }))
