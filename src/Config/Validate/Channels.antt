-- ===== src/Config/Validate/Channels.antt =====
-- What a validation that passes says of the channels (validateChannels, checkNotify of
-- internal/config/config.go).
use mathlib.Core.List.{Perm, Permᴰ}
use mathlib.Core.Logic.{∥∥₁_elim}
use mathlib.Core.Bool.{Bool-set}
use text.Mathlib.Text.{◌==◌}
use healthd.Common.{
  String, ◌≡◌, refl, sym, ap₂, ◌∙◌, Bool, true, false, not, ◌&&◌, ◌||◌, List, [], ◌∷◌, is_present,
  arith, inl, inr, Bool-cases, if◌then◌else◌,
}
use healthd.Common.Assoc.{lookup}
use healthd.Config.{Channel, channel_console, channel_webhook, channel_email, channel_smsgate}
use healthd.Config.Error.{
  Who, Result, ok, err, is_ok, is_ok->>, is_ok-reject, >>-eq-ok, type_required, unknown_type,
}
use healthd.Config.Validate.{
  is_empty, not_positive, validate_webhook, validate_email, validate_smsgate, validate_channel,
  validate_channels, check_notify,
}
use healthd.Common.Int.{ℤ, pos, ltb_ℤ}

abbrev pub is_filled {ℓ} : {A : Type ℓ} → List A → Bool
is_filled [] = false
is_filled (x ∷ xs) = true

pub not-is_empty {ℓ} : {A : Type ℓ} (xs : List A) → not (is_empty xs) ≡ is_filled xs
not-is_empty [] = refl
not-is_empty (x ∷ xs) = refl

abbrev pub is_given : String → Bool
is_given s = not (s == "")

abbrev pub is_positive : ℤ → Bool
is_positive n = ltb_ℤ (pos 0) n

positive_not : (n : ℤ) → not (not_positive n) ≡ is_positive n
positive_not n = ground arith

-- What each type of channel needs.
abbrev pub webhook_sound : Channel → Bool
webhook_sound ch = is_given ch.url && is_positive ch.timeout_ms

abbrev pub email_sound : Channel → Bool
email_sound ch =
    is_given ch.smtp_host
    && (is_positive ch.port && (is_given ch.from && (is_filled ch.to && is_given ch.password_env)))

abbrev pub smsgate_sound : Channel → Bool
smsgate_sound ch =
    is_given ch.base_url
    && (is_given ch.username
        && (is_given ch.password_env && (is_filled ch.recipients && is_positive ch.timeout_ms)))

-- Of one type: that it is "console", or another known one with what that type needs.
abbrev pub channel_sound : Channel → Bool
channel_sound ch =
    if ch.kind == "console"
    then true
    else (if ch.kind == "webhook"
        then webhook_sound ch
        else (if ch.kind == "email"
            then email_sound ch
            else (if ch.kind == "smsgate" then smsgate_sound ch else false)))

validate_webhook_sound :
    (n : String) (ch : Channel) → is_ok (validate_webhook n ch) ≡ webhook_sound ch
unfolding validate_webhook
validate_webhook_sound n ch = simp (is_ok->>, is_ok-reject, positive_not) refl

validate_email_sound : (n : String) (ch : Channel) → is_ok (validate_email n ch) ≡ email_sound ch
unfolding validate_email
validate_email_sound n ch = simp (is_ok->>, is_ok-reject, positive_not, not-is_empty) refl

validate_smsgate_sound :
    (n : String) (ch : Channel) → is_ok (validate_smsgate n ch) ≡ smsgate_sound ch
unfolding validate_smsgate
validate_smsgate_sound n ch = simp (is_ok->>, is_ok-reject, positive_not, not-is_empty) refl

pub validate_channel_sound :
    (n : String) (ch : Channel) → is_ok (validate_channel n ch) ≡ channel_sound ch
unfolding validate_channel
validate_channel_sound n ch = elim (Bool-cases (ch.kind == "console")) [
  | inl a ↦ rw a refl
  | inr a ↦ elim (Bool-cases (ch.kind == "webhook")) [
    | inl b ↦ rw (a, b) (validate_webhook_sound n ch)
    | inr b ↦ elim (Bool-cases (ch.kind == "email")) [
      | inl c ↦ rw (a, b, c) (validate_email_sound n ch)
      | inr c ↦ elim (Bool-cases (ch.kind == "smsgate")) [
        | inl d ↦ rw (a, b, c, d) (validate_smsgate_sound n ch)
        | inr d ↦ rw (a, b, c, d) (refused (ch.kind == ""))
      ]
    ]
  ]
]
  where
    refused :
        (b : Bool)
        → is_ok {A = Unit {0}} (if b then err (type_required n) else err (unknown_type n ch.kind))
          ≡ false
    refused true = refl
    refused false = refl

abbrev pub all_valid : List (String × Channel) → Bool
all_valid [] = true
all_valid ((n, ch) ∷ chs) = channel_sound ch && all_valid chs

pub validate_channels-all_valid :
    (chs : List (String × Channel)) → is_ok (validate_channels chs) ≡ all_valid chs
unfolding validate_channels
validate_channels-all_valid [] = refl
validate_channels-all_valid ((n, ch) ∷ chs) =
    is_ok->> (validate_channel n ch) (validate_channels chs)
    ∙ ap₂ ◌&&◌ (validate_channel_sound n ch) (validate_channels-all_valid chs)

and_swap : (a b c : Bool) → (a && (b && c)) ≡ (b && (a && c))
and_swap a b c = ground arith

all_valid-perm : {xs ys : List (String × Channel)} → Permᴰ xs ys → all_valid xs ≡ all_valid ys
all_valid-perm Permᴰ.nil = refl
all_valid-perm (Permᴰ.cons e p) = ap₂ (λ x b. channel_sound x.1 && b) e (all_valid-perm p)
all_valid-perm (Permᴰ.swap {a} {b} {l = l} e e') =
    and_swap (channel_sound a.1) (channel_sound b.1) (all_valid l)
    ∙ ap₂ (λ x y. channel_sound x.1 && (channel_sound y.1 && all_valid l)) e' e
all_valid-perm (Permᴰ.trans p q) = all_valid-perm p ∙ all_valid-perm q

-- Validation accepts the channels exactly if it accepts each of them, and whether it does is the
-- same for every order of the same channels.
pub validate_channels-perm :
    {xs ys : List (String × Channel)}
    → Perm xs ys
    → (is_ok (validate_channels xs) ≡ all_valid xs)
      × (is_ok (validate_channels xs) ≡ is_ok (validate_channels ys))
validate_channels-perm {xs} {ys} p = (
  validate_channels-all_valid xs,
  validate_channels-all_valid xs
      ∙ ∥∥₁_elim p (Bool-set (all_valid xs) (all_valid ys)) all_valid-perm
      ∙ sym (validate_channels-all_valid ys),
)

-- The types that a channel can be built for.
abbrev pub is_known : String → Bool
is_known kind =
    kind == channel_console
    || kind == channel_webhook
    || kind == channel_email
    || kind == channel_smsgate

abbrev pub all_known : List (String × Channel) → Bool
all_known [] = true
all_known ((n, ch) ∷ chs) = is_known ch.kind && all_known chs

known_of_valid :
    (n : String) (ch : Channel) → validate_channel n ch ≡ ok tt → is_known ch.kind ≡ true
unfolding validate_channel
known_of_valid n ch h = elim (Bool-cases (ch.kind == channel_console)) [
  | inl a ↦ rw a refl
  | inr a ↦ elim (Bool-cases (ch.kind == channel_webhook)) [
    | inl b ↦ rw (a, b) refl
    | inr b ↦ elim (Bool-cases (ch.kind == channel_email)) [
      | inl c ↦ rw (a, b, c) refl
      | inr c ↦ elim (Bool-cases (ch.kind == channel_smsgate)) [
        | inl d ↦ rw (a, b, c, d) refl
        | inr d ↦ absurd (refused (ch.kind == "") (rw (a, b, c, d) at h))
      ]
    ]
  ]
]
  where
    refused :
        (b : Bool)
        → ◌≡◌ {A = Result (Unit {0})}
            (if b then err (type_required n) else err (unknown_type n ch.kind))
            (ok tt)
        → ⊥
    refused true e = cc
    refused false e = cc

pub all_known_of_valid :
    (chs : List (String × Channel)) → validate_channels chs ≡ ok tt → all_known chs ≡ true
unfolding validate_channels
all_known_of_valid [] h = refl
all_known_of_valid ((n, ch) ∷ chs) h =
    let (a, b) = >>-eq-ok (validate_channel n ch) (validate_channels chs) h in
    rw (known_of_valid n ch a) (all_known_of_valid chs b)

abbrev pub all_present : List (String × Channel) → List String → Bool
all_present channels [] = true
all_present channels (n ∷ ns) = is_present (lookup n channels) && all_present channels ns

pub check_notify-all_present :
    (channels : List (String × Channel)) (who : Who) (ns : List String)
    → is_ok (check_notify channels who ns) ≡ all_present channels ns
unfolding check_notify
check_notify-all_present channels who [] = refl
check_notify-all_present channels who (n ∷ ns) =
    elim (Bool-cases (is_present (lookup n channels))) [
      | inl e ↦ rw e (check_notify-all_present channels who ns)
      | inr e ↦ rw e refl
    ]
