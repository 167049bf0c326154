-- ===== src/Notify/Dispatcher.antt =====
-- internal/notify/dispatcher.go. A channel is what its Notify does at each attempt; the context is what
-- `ctx.Err()` and the `select` of the backoff give at each attempt. A delivery is the list of its
-- effects. An attempt's number is a natural number: `attempt++` does not wrap where max_attempts is
-- below 2^63 - 1.
pub mod Backoff
pub mod Deliver
pub mod Positions
use healthd.Common.{
  ℕ, zero, suc, ◌+◌, ◌-◌, ◌*◌, ◌^◌, String, Bool, true, false, List, [], ◌∷◌, ◌++◌, Option, none,
  some, ltb, if◌then◌else◌,
}
use healthd.Common.Int.{ℤ, pos, ltb_ℤ, to_ℕ, mul_int, wrap}
use healthd.Common.Assoc.{lookup}

-- What a call of a channel's Notify does.
pub data Outcome : Type 0 where
  delivered : Outcome
  failed : String → Outcome
  panicked : String → Outcome

pub data NotifyError : Type 0 where
  channel_error : String → NotifyError
  channel_panic : String → NotifyError

-- A panic becomes an error.
unfoldable pub safe_notify : Outcome → Option NotifyError
safe_notify delivered = none
safe_notify (failed e) = some (channel_error e)
safe_notify (panicked v) = some (channel_panic v)

-- The context at one attempt: whether it is cancelled when the attempt begins, and whether
-- `ctx.Done()` is taken in the backoff after it.
pub record Context : Type 0 where
  pub cancelled : ℕ → Bool
  pub done_in_backoff : ℕ → Bool

-- A channel, as the outcome of each attempt.
abbrev pub Service : Type 0
Service = ℕ → Outcome

pub data Effect : Type 0 where
  notified : ℕ → Effect
  waited : ℤ → Effect
  warn_cancelled : Effect
  warn_cancelled_in_backoff : Effect
  error_exhausted : ℤ → Option NotifyError → Effect

-- The fields of the Dispatcher that a delivery reads; the delay is in nanoseconds.
pub record Policy : Type 0 where
  pub max_attempts : ℤ
  pub base_delay : ℤ

pub record Dispatcher : Type 0 where
  pub channels : List (String × Service)
  pub policy : Policy

unfoldable pub new_dispatcher : List (String × Service) → ℤ → ℤ → Dispatcher
new_dispatcher channels max_attempts base_delay = record {
  channels = channels;
  policy = record {
    max_attempts = if ltb_ℤ max_attempts (pos 1) then pos 1 else max_attempts;
    base_delay = if ltb_ℤ base_delay (pos 0) then pos 0 else base_delay;
  };
}

abbrev pub max_backoff_shift : ℕ
max_backoff_shift = 30

abbrev pub shift_of : ℕ → ℕ
shift_of attempt = if ltb max_backoff_shift (attempt - 1) then max_backoff_shift else attempt - 1

-- `d.baseDelay * time.Duration(int64(1)<<uint(shift))`, for an attempt from 1 on
unfoldable pub backoff : Policy → ℕ → ℤ
unfolding mul_int
backoff d attempt = mul_int d.base_delay (2 ^ shift_of attempt)

-- The rest of the loop after a failed attempt: the backoff, unless it was the last one.
abbrev pub after_failure : Bool → Bool → ℤ → List Effect → List Effect
after_failure false done delay rest = rest
after_failure true true delay rest = waited delay ∷ warn_cancelled_in_backoff ∷ []
after_failure true false delay rest = waited delay ∷ rest

abbrev pub after_notify : Option NotifyError → (Option NotifyError → List Effect) → List Effect
after_notify none continue = []
after_notify (some e) continue = continue (some e)

-- The loop of `deliver` with `n` attempts left, the next one being `attempt`.
unfoldable pub deliver_from : Policy → Context → Service → ℕ → ℕ → Option NotifyError → List Effect
unfolding backoff safe_notify
deliver_from d ctx svc zero attempt last_err = error_exhausted d.max_attempts last_err ∷ []
deliver_from d ctx svc (suc n) attempt last_err = elim (ctx.cancelled attempt) [
  | true ↦ warn_cancelled ∷ []
  | false ↦
      notified attempt
      ∷ after_notify (safe_notify (svc attempt)) (λ e.
        after_failure (ltb attempt (to_ℕ d.max_attempts)) (ctx.done_in_backoff attempt)
          (backoff d attempt) (deliver_from d ctx svc n (suc attempt) e))
]

unfoldable pub deliver : Policy → Context → Service → List Effect
unfolding deliver_from
deliver d ctx svc = deliver_from d ctx svc (to_ℕ d.max_attempts) 1 none

-- What becomes of one name of the list: a warning for an unknown channel, or its delivery, which runs
-- on a goroutine of its own.
pub data ChannelTrace : Type 0 where
  unknown_channel : ChannelTrace
  delivery : List Effect → ChannelTrace

abbrev pub trace_of : Policy → Context → Option Service → ChannelTrace
trace_of d ctx none = unknown_channel
trace_of d ctx (some svc) = delivery (deliver d ctx svc)

-- `Dispatch` returns when every delivery has ended; each has its own trace.
unfoldable pub dispatch : Dispatcher → Context → List String → List (String × ChannelTrace)
unfolding deliver lookup
dispatch d ctx [] = []
dispatch d ctx (name ∷ names) =
    (name, trace_of d.policy ctx (lookup name d.channels)) ∷ dispatch d ctx names
