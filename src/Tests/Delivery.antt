-- ===== src/Tests/Delivery.antt =====
-- Concrete dispatches of internal/notify/dispatcher.go.
use healthd.Common.{◌≡◌, refl, true, false, [], ◌∷◌, ◌++◌, some, arith, ltb}
use healthd.Common.Int.{pos, ltb_ℤ}
use healthd.Notify.Dispatcher.{
  waited, warn_cancelled_in_backoff, panicked, channel_panic, Context, Service, Policy, safe_notify,
  notified, error_exhausted, backoff, deliver,
}
use healthd.Notify.Dispatcher.Backoff.{backoff_overflow}
use healthd.Notify.Dispatcher.Deliver.{retries, deliver_exhausted, in_backoff, deliver_cancelled}

abbrev half_second : Policy
half_second = record { max_attempts = pos 3; base_delay = pos 500000000 }

abbrev active : Context
active = record { cancelled = λ k. false; done_in_backoff = λ k. false }

-- The context ends in the backoff after the second attempt.
abbrev ending : Context
ending = record { cancelled = λ k. ltb 2 k; done_in_backoff = λ k. ltb 1 k }

abbrev broken : Service
broken k = panicked "nil map"

deliver_exhausted_example :
    deliver half_second active broken
    ≡ retries half_second active broken 1 2
      ++ notified 3 ∷ error_exhausted (pos 3) (some (channel_panic "nil map")) ∷ []
unfolding safe_notify
deliver_exhausted_example =
    deliver_exhausted half_second active broken 2 refl
      ((refl, refl, refl), ((refl, refl, refl), tt)) refl refl

deliver_cancelled_example :
    deliver half_second ending broken
    ≡ retries half_second ending broken 1 1
      ++ notified 2 ∷ waited (pos 1000000000) ∷ warn_cancelled_in_backoff ∷ []
unfolding safe_notify backoff
deliver_cancelled_example =
    deliver_cancelled half_second ending broken 1 (omega arith) ((refl, refl, refl), tt)
      (in_backoff refl refl (omega arith) refl)

-- nine seconds
abbrev long_delay : Policy
long_delay = record { max_attempts = pos 40; base_delay = pos 9000000000 }

backoff_overflow_example : ltb_ℤ (backoff long_delay 31) (pos 0) ≡ true
backoff_overflow_example =
    backoff_overflow long_delay 9000000000 31 refl (omega arith) (omega arith) (omega arith)
