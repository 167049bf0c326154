-- ===== src/Notify/Dispatcher/Deliver.antt =====
-- A delivery (deliver of dispatcher.go) against its specification: attempts with a backoff between
-- them, until a success, a cancellation or the last attempt.
use healthd.Common.{
  ℕ, zero, suc, ◌+◌, ◌-◌, ◌≤◌, ◌<◌, ◌≡◌, refl, ap, ◌∙◌, true, false, List, [], ◌∷◌, ◌++◌, Option,
  none, some, is_present, arith, ltb, lt→ltb,
}
use native.Mathlib.Nat.{zero-add}
use healthd.Common.Int.{to_ℕ}
use healthd.Notify.Dispatcher.{
  delivered, NotifyError, safe_notify, Context, Service, Effect, notified, waited, warn_cancelled,
  warn_cancelled_in_backoff, error_exhausted, Policy, backoff, after_failure, after_notify,
  deliver_from, deliver,
}

module _ (d : Policy) (ctx : Context) (svc : Service) where
  -- The attempts k, ..., k + i - 1 are made and fail, and nothing cancels them or their backoffs.
  abbrev pub KeepFailing : ℕ → ℕ → Type 0
  KeepFailing k zero = Unit {0}
  KeepFailing k (suc i) =
      ((ctx.cancelled k ≡ false)
        × (ctx.done_in_backoff k ≡ false)
        × (is_present (safe_notify (svc k)) ≡ true))
      × KeepFailing (suc k) i

  -- The effects of i failed attempts from k on, each with its backoff.
  abbrev pub retries : ℕ → ℕ → List Effect
  retries k zero = []
  retries k (suc i) = notified k ∷ waited (backoff d k) ∷ retries (suc k) i

  -- The error that is kept after i failed attempts from k on.
  abbrev pub last_error : ℕ → ℕ → Option NotifyError → Option NotifyError
  last_error k zero e = e
  last_error k (suc i) e = last_error (suc k) i (safe_notify (svc k))

  present-some : {A : Type 0} (o : Option A) → is_present o ≡ true → (a : A) × (o ≡ some a)
  present-some none h = cc
  present-some (some a) h = (a, refl)

  -- An attempt that is not cancelled.
  deliver_from-attempt :
      (n k : ℕ) (e : Option NotifyError)
      → ctx.cancelled k ≡ false
      → deliver_from d ctx svc (suc n) k e
        ≡ notified k
          ∷ after_notify (safe_notify (svc k)) (λ e.
            after_failure
              (ltb k (to_ℕ d.max_attempts))
              (ctx.done_in_backoff k)
              (backoff d k)
              (deliver_from d ctx svc n (suc k) e))
  unfolding deliver_from
  deliver_from-attempt n k e h = rw (h, deliver_from)

  deliver_from-retries :
      (k i m : ℕ) (e : Option NotifyError)
      → k + i + m ≤ to_ℕ d.max_attempts
      → KeepFailing k i
      → deliver_from d ctx svc (i + suc m) k e
        ≡ retries k i ++ deliver_from d ctx svc (suc m) (i + k) (last_error k i e)
  deliver_from-retries k zero m e h f = rw (zero-add, zero-add)
  deliver_from-retries k (suc i) m e h f =
      let (x, failed) = present-some (safe_notify (svc k)) f.0.2 in
      let more : ltb k (to_ℕ d.max_attempts) ≡ true =
        lt→ltb k (to_ℕ d.max_attempts) (omega arith) in
      let shifted : suc i + k ≡ i + suc k = omega arith in
      let count : suc i + suc m ≡ suc (i + suc m) = omega arith in
      rw (count, shifted, deliver_from-attempt (i + suc m) k e f.0.0, f.0.1, failed, more)
        (ap (λ l. notified k ∷ waited (backoff d k) ∷ l)
          (deliver_from-retries (suc k) i m (some x) (omega arith) f.1))

  -- A delivery that begins with i failed attempts, fewer than the maximum.
  deliver-retries :
      (i : ℕ)
      → i < to_ℕ d.max_attempts
      → KeepFailing 1 i
      → deliver d ctx svc
        ≡ retries 1 i
          ++ deliver_from d ctx svc
              (suc (to_ℕ d.max_attempts - i - 1))
              (suc i)
              (last_error 1 i none)
  unfolding deliver
  deliver-retries i h f =
      let count : to_ℕ d.max_attempts ≡ i + suc (to_ℕ d.max_attempts - i - 1) = omega arith in
      let next : i + 1 ≡ suc i = omega arith in
      ap (λ n. deliver_from d ctx svc n 1 none) count
      ∙ deliver_from-retries 1 i (to_ℕ d.max_attempts - i - 1) none (omega arith) f
      ∙ ap
          (λ k.
            retries 1 i
            ++ deliver_from d ctx svc (suc (to_ℕ d.max_attempts - i - 1)) k (last_error 1 i none))
          next

  -- If the first i attempts fail and the next, within the maximum, succeeds, then the delivery makes
  -- exactly these i + 1 attempts, waits the backoff after each failed one, and logs no error.
  pub deliver_success :
      (i : ℕ)
      → i < to_ℕ d.max_attempts
      → KeepFailing 1 i
      → ctx.cancelled (suc i) ≡ false
      → svc (suc i) ≡ delivered
      → deliver d ctx svc ≡ retries 1 i ++ notified (suc i) ∷ []
  unfolding safe_notify
  deliver_success i h f active ok =
      let m = to_ℕ d.max_attempts - i - 1 in
      deliver-retries i h f
      ∙ ap (λ l. retries 1 i ++ l)
          (deliver_from-attempt m (suc i) (last_error 1 i none) active ∙ rw ok refl)

  -- If every attempt fails and nothing is cancelled, the delivery makes exactly the maximum of
  -- attempts, waits between them and not after the last, and ends by logging the last error.
  pub deliver_exhausted :
      (i : ℕ)
      → to_ℕ d.max_attempts ≡ suc i
      → KeepFailing 1 i
      → ctx.cancelled (suc i) ≡ false
      → is_present (safe_notify (svc (suc i))) ≡ true
      → deliver d ctx svc
        ≡ retries 1 i
          ++ notified (suc i) ∷ error_exhausted d.max_attempts (safe_notify (svc (suc i))) ∷ []
  deliver_exhausted i h f active failing =
      let (x, failed) = present-some (safe_notify (svc (suc i))) failing in
      let last : ltb (suc i) (to_ℕ d.max_attempts) ≡ false = ground arith in
      let none_left : to_ℕ d.max_attempts - i - 1 ≡ 0 = omega arith in
      deliver-retries i (omega arith) f
      ∙ ap (λ l. retries 1 i ++ l)
          (rw (none_left, deliver_from-attempt 0 (suc i) (last_error 1 i none) active, failed, last)
            (unfold deliver_from in refl))

  cancelled_step :
      (n k : ℕ) (e : Option NotifyError)
      → ctx.cancelled k ≡ true
      → deliver_from d ctx svc (suc n) k e ≡ warn_cancelled ∷ []
  unfolding deliver_from
  cancelled_step n k e h = rw (h, deliver_from)

  -- How the context can end a delivery after i failed attempts: it is cancelled when the next attempt
  -- begins, or that attempt fails too, is not the last, and the context ends during its backoff.
  pub data CutShort (i : ℕ) : Type 0 where
    at_attempt : ctx.cancelled (suc i) ≡ true → CutShort i
    in_backoff :
        ctx.cancelled (suc i) ≡ false
        → is_present (safe_notify (svc (suc i))) ≡ true
        → suc i < to_ℕ d.max_attempts
        → ctx.done_in_backoff (suc i) ≡ true
        → CutShort i

  abbrev pub last_effects : {i : ℕ} → CutShort i → List Effect
  last_effects (at_attempt h) = warn_cancelled ∷ []
  last_effects {i} (in_backoff h f more stop) =
      notified (suc i) ∷ waited (backoff d (suc i)) ∷ warn_cancelled_in_backoff ∷ []

  cancelled_backoff :
      (n k : ℕ) (e : Option NotifyError)
      → ctx.cancelled k ≡ false
      → is_present (safe_notify (svc k)) ≡ true
      → k < to_ℕ d.max_attempts
      → ctx.done_in_backoff k ≡ true
      → deliver_from d ctx svc (suc n) k e
        ≡ notified k ∷ waited (backoff d k) ∷ warn_cancelled_in_backoff ∷ []
  cancelled_backoff n k e h f more stop =
      let (x, failed) = present-some (safe_notify (svc k)) f in
      let not_last : ltb k (to_ℕ d.max_attempts) ≡ true = lt→ltb k (to_ℕ d.max_attempts) more in
      rw (deliver_from-attempt n k e h, failed, not_last, stop) refl

  -- If the first i attempts fail and the context ends after them, a cancellation that is seen when the
  -- next attempt begins lets no further attempt be made, and one during the backoff after the next
  -- attempt, which fails too and is not the last, lets none be made after that one; either way the
  -- delivery ends by logging the cancellation, of the one kind or the other, and no exhaustion.
  pub deliver_cancelled :
      (i : ℕ)
      → i < to_ℕ d.max_attempts
      → KeepFailing 1 i
      → (c : CutShort i) → deliver d ctx svc ≡ retries 1 i ++ last_effects c
  deliver_cancelled i h f (at_attempt stop) =
      deliver-retries i h f
      ∙ ap (λ l. retries 1 i ++ l)
          (cancelled_step (to_ℕ d.max_attempts - i - 1) (suc i) (last_error 1 i none) stop)
  deliver_cancelled i h f (in_backoff active failing more stop) =
      deliver-retries i h f
      ∙ ap (λ l. retries 1 i ++ l)
          (cancelled_backoff (to_ℕ d.max_attempts - i - 1) (suc i) (last_error 1 i none) active
            failing more stop)
