-- ===== src/Notify/Http/Accepted.antt =====
-- When the channels of internal/notify/webhook.go and internal/notify/smsgate.go deliver an alert.
use healthd.Common.{
  ◌<>◌, ℕ, ◌≤◌, ◌<◌, String, ◌≡◌, ◌↔◌, refl, ap, ◌∙◌, List, Option, none, some, arith,
}
use healthd.Common.Int.{ℤ, pos, negsuc}
use healthd.Platform.{Platform}
use healthd.Notify.Dispatcher.{delivered}
use healthd.Notify.{Alert, Format}
use healthd.Notify.Http.{
  Attempt, error, value, SmsMessage, Http, Webhook, new_webhook, SmsGate, trim_slashes,
  new_sms_gate, on_status, on_response, on_webhook_request, on_webhook_body, webhook_notify,
  on_sms_request, on_sms_body, sms_notify,
}

on_status_iff :
    (format_int : ℤ → String) (name : String) (status : ℤ)
    → (on_status format_int name status ≡ delivered)
      ↔ ((n : ℕ) × (status ≡ pos n) × (200 ≤ n) × (n < 300))
on_status_iff format_int name (pos n) = (
  (λ h. (n, refl, ground arith, ground arith)),
  λ (m, e, a, b). let same : n ≡ m = cc in ground arith,
)
on_status_iff format_int name (negsuc n) = ((λ h. cc), λ (m, e, a, b). cc)

module _ (go : Platform) {Body : Type 0} where
  -- A request that is posted, and a response with a status from 200 to 299.
  pub record Posted (http : Http go Body) (timeout : ℤ) (encoded : Attempt Body) (url : String)
      (basic_auth : Option (String × String)) : Type 0 where
    pub body : Body
    pub target : String
    pub status : ℕ
    pub is_encoded : encoded ≡ value body
    pub is_url : http.new_request url ≡ value target
    pub answers :
        http.send timeout (record {
          method = "POST";
          url = target;
          content_type = "application/json";
          basic_auth = basic_auth;
          body = body;
        })
        ≡ value (pos status)
    pub at_least : 200 ≤ status
    pub below : status < 300

  response-Posted :
      (http : Http go Body) (timeout : ℤ) (encoded : Attempt Body) (url : String)
      (basic_auth : Option (String × String)) (format_int : ℤ → String) (name target : String)
      (body : Body) (r : Attempt ℤ)
      → http.send timeout (record {
        method = "POST";
        url = target;
        content_type = "application/json";
        basic_auth = basic_auth;
        body = body;
      })
        ≡ r
      → encoded ≡ value body
      → http.new_request url ≡ value target
      → on_response format_int name r ≡ delivered
      → Posted http timeout encoded url basic_auth
  response-Posted http timeout encoded url basic_auth format_int name target body (error e) sent
        is_encoded is_url h =
      cc
  response-Posted http timeout encoded url basic_auth format_int name target body (value status)
        sent is_encoded is_url h =
      let (n, e, a, b) = (on_status_iff format_int name status).0 h in
      record {
        body = body;
        target = target;
        status = n;
        is_encoded = is_encoded;
        is_url = is_url;
        answers = sent ∙ ap value e;
        at_least = a;
        below = b;
      }

  webhook_request-Posted :
      (fmt : Format go) (http : Http go Body) (w : Webhook) (encoded : Attempt Body) (body : Body)
      (o : Attempt String)
      → encoded ≡ value body
      → http.new_request w.url ≡ o
      → on_webhook_request go fmt http w body o ≡ delivered
      → Posted http w.timeout encoded w.url none
  webhook_request-Posted fmt http w encoded body (error e) is_encoded made h = cc
  webhook_request-Posted fmt http w encoded body (value target) is_encoded made h =
      response-Posted http w.timeout encoded w.url none fmt.format_int "webhook" target body _ refl
        is_encoded made h

  webhook_body-Posted :
      (fmt : Format go) (http : Http go Body) (w : Webhook) (encoded : Attempt Body)
      → on_webhook_body go fmt http w encoded ≡ delivered
      → Posted http w.timeout encoded w.url none
  webhook_body-Posted fmt http w (error e) h = cc
  webhook_body-Posted fmt http w (value body) h =
      webhook_request-Posted fmt http w (value body) body (http.new_request w.url) refl refl h

  sms_request-Posted :
      (fmt : Format go) (http : Http go Body) (s : SmsGate) (encoded : Attempt Body) (body : Body)
      (o : Attempt String)
      → encoded ≡ value body
      → http.new_request (s.base_url <> "/message") ≡ o
      → on_sms_request go fmt http s body o ≡ delivered
      → Posted http s.timeout encoded (s.base_url <> "/message") (some (s.username, s.password))
  sms_request-Posted fmt http s encoded body (error e) is_encoded made h = cc
  sms_request-Posted fmt http s encoded body (value target) is_encoded made h =
      response-Posted http s.timeout encoded (s.base_url <> "/message")
        (some (s.username, s.password)) fmt.format_int "smsgate" target body _ refl is_encoded made
        h

  sms_body-Posted :
      (fmt : Format go) (http : Http go Body) (s : SmsGate) (encoded : Attempt Body)
      → on_sms_body go fmt http s encoded ≡ delivered
      → Posted http s.timeout encoded (s.base_url <> "/message") (some (s.username, s.password))
  sms_body-Posted fmt http s (error e) h = cc
  sms_body-Posted fmt http s (value body) h =
      sms_request-Posted fmt http s (value body) body (http.new_request (s.base_url <> "/message"))
        refl refl h

  -- A webhook delivers an alert exactly when its JSON is posted to the URL without authentication, and an
  -- SMS gateway exactly when the message with its recipients is posted to the base URL, less the slashes
  -- at its end, with `/message`, under the user name and the password; the response to the post has a
  -- status from 200 to 299.
  pub posts_iff :
      (fmt : Format go) (http : Http go Body) (alert : Alert go) (url : String) (timeout : ℤ)
      (base_url username password : String) (recipients : List String)
      → let message : SmsMessage = record {
        message = "[healthd] " <> alert.role <> " " <> alert.state <> ": " <> alert.detail;
        phone_numbers = recipients;
      } in
        ((webhook_notify go fmt http (new_webhook url timeout) alert ≡ delivered)
          ↔ Posted http timeout (http.marshal_alert alert) url none)
        × ((sms_notify go fmt http
                (new_sms_gate base_url username password recipients timeout)
                alert
              ≡ delivered)
            ↔ Posted http timeout
                (http.marshal_sms message)
                (trim_slashes base_url <> "/message")
                (some (username, password)))
  unfolding webhook_notify sms_notify new_sms_gate
  posts_iff fmt http alert url timeout base_url username password recipients =
      let w = new_webhook url timeout in
      let s = new_sms_gate base_url username password recipients timeout in
      (
        (
          (λ h. webhook_body-Posted fmt http w (http.marshal_alert alert) h),
          λ p.
              rw (p.is_encoded, p.is_url, p.answers)
                ((on_status_iff fmt.format_int "webhook" (pos p.status)).1
                  (p.status, refl, p.at_least, p.below)),
        ),
        (
          (λ h. sms_body-Posted fmt http s _ h),
          λ p.
              rw (p.is_encoded, p.is_url, p.answers)
                ((on_status_iff fmt.format_int "smsgate" (pos p.status)).1
                  (p.status, refl, p.at_least, p.below)),
        ),
      )
