-- ===== src/Daemon/Channels/Delivered.antt =====
-- An alert from the dispatcher through a channel (cmd/healthd/main.go, internal/notify).
use text.Mathlib.Text.{◌==◌}
use healthd.Common.{
  eq_iff, ap₂, ℕ, zero, suc, ◌<◌, String, ◌≡◌, ◌≢◌, refl, ap, ◌∙◌, true, false, List, [], ◌∷◌, ◌++◌,
  some, map, get_elem?, is_present, inl, inr, Bool-cases,
}
use healthd.Common.Int.{ℤ, to_ℕ}
use healthd.Common.Assoc.{lookup}
use healthd.Platform.{Platform}
use healthd.Notify.{Alert}
use healthd.Notify.Dispatcher.Positions.{name_of, names-dispatch, dispatch-get_elem?}
use healthd.Notify.Dispatcher.{
  Policy, trace_of, Outcome, delivered, failed, panicked, safe_notify, Context, delivery, notified,
  new_dispatcher,
}
use healthd.Notify.Dispatcher.Deliver.{KeepFailing, retries, deliver_success}
use healthd.Daemon.{milliseconds, BuiltChannel}
use healthd.Daemon.Channels.{World, notify_built, services, dispatch_alert}
use healthd.Daemon.Channels.Reaches.{Reaches, notify_built_iff}

module _ (go : Platform) (Body : Type 0) where
  undelivered : (o : Outcome) → o ≢ delivered → is_present (safe_notify o) ≡ true
  unfolding safe_notify
  undelivered delivered h = absurd (h refl)
  undelivered (failed e) h = refl
  undelivered (panicked v) h = refl

  -- The attempts k, ..., k + i - 1 do not go through, and nothing cancels them.
  abbrev pub Unreached : World go Body → BuiltChannel → Alert go → Context → ℕ → ℕ → Type 0
  Unreached w ch alert ctx k zero = Unit {0}
  Unreached w ch alert ctx k (suc i) =
      ((ctx.cancelled k ≡ false)
        × (ctx.done_in_backoff k ≡ false)
        × ¬ (Reaches go Body w ch alert k))
      × Unreached w ch alert ctx (suc k) i

  Unreached-KeepFailing :
      (d : Policy) (w : World go Body) (ch : BuiltChannel) (alert : Alert go) (ctx : Context)
      (k i : ℕ)
      → Unreached w ch alert ctx k i
      → KeepFailing d ctx (notify_built go Body w ch alert) k i
  Unreached-KeepFailing d w ch alert ctx k zero h = tt
  Unreached-KeepFailing d w ch alert ctx k (suc i) ((a, b, lost), more) = (
    (
      a,
      b,
      undelivered (notify_built go Body w ch alert k)
          (λ e. lost ((notify_built_iff go Body w ch alert k).0 e)),
    ),
    Unreached-KeepFailing d w ch alert ctx (suc k) i more,
  )

  lookup-services :
      (world : String → World go Body) (chs : List (String × BuiltChannel)) (alert : Alert go)
      (name : String) (ch : BuiltChannel)
      → lookup name chs ≡ some ch
      → lookup name (services go Body world chs alert)
        ≡ some (notify_built go Body (world name) ch alert)
  unfolding services lookup
  lookup-services world [] alert name ch h = cc
  lookup-services world ((n, c) ∷ chs) alert name ch h = elim (Bool-cases (n == name)) [
    | inl same ↦
        let found : some c ≡ some ch = rw same at h in
        let built : c ≡ ch = cc in
        rw same (
          ap some
            (ap₂ (λ m b. notify_built go Body (world m) b alert) ((eq_iff n name).0 same) built))
    | inr other ↦ rw other (lookup-services world chs alert name ch (rw other at h))
  ]

  -- Dispatch makes one delivery for each place at which the list of an alert has the name of a
  -- configured channel (two, if a name stands twice), and one trace for each name of the list, in order.
  -- Where the first i attempts, fewer than the maximum, do not go through and the next one does, and
  -- nothing is cancelled, that delivery calls the channel exactly i + 1 times, with the backoffs in
  -- between, and logs no error.
  pub dispatch_alert-arrives :
      (world : String → World go Body) (channels : List (String × BuiltChannel))
      (max_attempts base_delay_ms : ℤ) (ctx : Context) (alert : Alert go) (names : List String)
      (j : ℕ) (name : String) (ch : BuiltChannel) (i : ℕ)
      → let d =
          (new_dispatcher
            (services go Body world channels alert)
            max_attempts
            (milliseconds base_delay_ms)).policy in
        let traces =
          dispatch_alert go Body world channels max_attempts base_delay_ms ctx alert names in
        get_elem? names j ≡ some name
        → lookup name channels ≡ some ch
        → i < to_ℕ d.max_attempts
        → Unreached (world name) ch alert ctx 1 i
        → ctx.cancelled (suc i) ≡ false
        → Reaches go Body (world name) ch alert (suc i)
        → (map name_of traces ≡ names)
          × (get_elem? traces j
              ≡ some (
                name,
                delivery (
                    retries d ctx (notify_built go Body (world name) ch alert) 1 i
                    ++ notified (suc i) ∷ []),
              ))
  unfolding dispatch_alert new_dispatcher
  dispatch_alert-arrives world channels max_attempts base_delay_ms ctx alert names j name ch i at_j
        found few lost active reached =
      let disp =
        new_dispatcher (services go Body world channels alert) max_attempts
          (milliseconds base_delay_ms) in
      let svc = notify_built go Body (world name) ch alert in
      (
        names-dispatch disp ctx names,
        dispatch-get_elem? disp ctx names j name at_j
            ∙ ap (λ o. some (name, trace_of disp.policy ctx o))
                (lookup-services world channels alert name ch found)
            ∙ ap (λ t. some (name, delivery t))
                (deliver_success disp.policy ctx svc i few
                  (Unreached-KeepFailing disp.policy (world name) ch alert ctx 1 i lost) active
                  ((notify_built_iff go Body (world name) ch alert (suc i)).1 reached)),
      )
