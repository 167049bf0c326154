-- ===== src/Config/Error.antt =====
-- The errors of internal/config/config.go, one constructor for each message, and results that may be
-- an error.
use healthd.Common.{ℕ, String, ◌≡◌, refl, Bool, true, false, not, ◌&&◌}

-- The role and, for a target of ping_monitor or url_monitor, its index and its address.
pub data Who : Type 0 where
  role : String → Who
  target : String → ℕ → String → Who

pub data ConfigError : Type 0 where
  max_attempts_below_1 base_delay_negative summary_interval_not_positive : ConfigError
  url_required smtp_host_required port_not_positive from_required : String → ConfigError
  to_empty password_env_required base_url_required username_required : String → ConfigError
  recipients_empty channel_timeout_not_positive type_required : String → ConfigError
  unknown_type : String → String → ConfigError
  listen_required read_timeout_not_positive : ConfigError
  targets_empty : String → ConfigError
  address_required interval_not_positive timeout_not_positive : Who → ConfigError
  failure_threshold_below_1 sites_empty threshold_not_positive : Who → ConfigError
  window_negative window_not_positive min_availability_out_of_range : Who → ConfigError
  unknown_trigger : Who → String → ConfigError
  undefined_channel : Who → String → ConfigError
  invalid_url url_scheme url_host : Who → ConfigError
  undefined_default_profile : String → String → ConfigError
  undefined_profile : Who → String → ConfigError

-- The pair of a value and an error that a Go function returns, of which one is set.
pub data Result {ℓ} (A : Type ℓ) : Type ℓ where
  err : ConfigError → Result A
  ok : A → Result A

module _ {ℓ κ} {A : Type ℓ} {B : Type κ} where
  infixl 5 ◌>>=◌
  -- `if err != nil { return err }`, and then what needs the value
  abbrev pub ◌>>=◌ : Result A → (A → Result B) → Result B
  err why >>= next = err why
  ok value >>= next = next value

  -- A chain that returns a value has got one at its first step.
  pub >>=-eq-ok :
      (first : Result A) (next : A → Result B) {result : B}
      → (first >>= next) ≡ ok result
      → (value : A) × (first ≡ ok value) × (next value ≡ ok result)
  >>=-eq-ok (err why) next passed = cc
  >>=-eq-ok (ok value) next passed = (value, refl, passed)

module _ {ℓ} {B : Type ℓ} where
  infixl 5 ◌>>◌
  -- A nil error goes on.
  abbrev pub ◌>>◌ : Result (Unit {0}) → Result B → Result B
  err why >> rest = err why
  ok u >> rest = rest

  -- What a chain of checks that passes has passed.
  pub >>-eq-ok :
      (check : Result (Unit {0})) (rest : Result B) {result : B}
      → (check >> rest) ≡ ok result
      → (check ≡ ok tt) × (rest ≡ ok result)
  >>-eq-ok (err why) rest passed = cc
  >>-eq-ok (ok u) rest passed = (refl, passed)

-- `if bad { return error }`
abbrev pub reject : Bool → ConfigError → Result (Unit {0})
reject true e = err e
reject false e = ok tt

-- The checks of an enabled role.
abbrev pub when : Bool → Result (Unit {0}) → Result (Unit {0})
when true m = m
when false m = ok tt

abbrev pub is_ok {ℓ} : {A : Type ℓ} → Result A → Bool
is_ok (ok a) = true
is_ok (err e) = false

pub reject-eq-ok : (b : Bool) (e : ConfigError) → reject b e ≡ ok tt → b ≡ false
reject-eq-ok true e h = cc
reject-eq-ok false e h = refl

-- A chain of checks passes exactly if each of them does.
pub is_ok->> :
    (m : Result (Unit {0})) (k : Result (Unit {0})) → is_ok (m >> k) ≡ (is_ok m && is_ok k)
is_ok->> (ok a) (ok b) = refl
is_ok->> (ok a) (err e) = refl
is_ok->> (err e) (ok b) = refl
is_ok->> (err e) (err d) = refl

pub is_ok-reject : (b : Bool) (e : ConfigError) → is_ok (reject b e) ≡ not b
is_ok-reject true e = refl
is_ok-reject false e = refl
