-- ===== src/Monitor/Registry/Reachable.antt =====
-- The registries that the calls of Registry/Spec.antt reach (registry.go).
use healthd.Common.{refl, List, [], ◌∷◌}
use healthd.Common.Assoc.{lookup}
use healthd.Platform.{Platform}
use healthd.Monitor.Registry.{Registry, new_registry, record_check, record_speed}
use healthd.Monitor.Registry.Invariant.{
  IsValid, register_in-IsValid, set-IsValid, update_history-IsValid,
}
use healthd.Monitor.Registry.Spec.{Op, register_op, set_op, check_op, speed_op, apply, run}

module _ (go : Platform) where
  pub new_registry-IsValid : IsValid go (new_registry go)
  unfolding new_registry lookup
  new_registry-IsValid = record {
    units_keyed = refl;
    history_keyed = refl;
    distinct = tt;
    named = λ n s h. cc;
  }

  apply-IsValid : {r : Registry go} (o : Op go) → IsValid go r → IsValid go (apply go r o)
  unfolding apply record_check record_speed
  apply-IsValid (register_op n) v = register_in-IsValid go n v
  apply-IsValid (set_op s) v = set-IsValid go s v
  apply-IsValid {r} (check_op n t b) v = update_history-IsValid go _ n (lookup n r.history) refl v
  apply-IsValid {r} (speed_op n t x) v = update_history-IsValid go _ n (lookup n r.history) refl v

  pub run_from-IsValid :
      {r : Registry go} (os : List (Op go)) → IsValid go r → IsValid go (run go r os)
  unfolding run
  run_from-IsValid [] v = v
  run_from-IsValid {r} (o ∷ os) v = run_from-IsValid {r = apply go r o} os (apply-IsValid o v)

  -- Whatever is called on a new registry, its list of names has no name twice, both maps have exactly
  -- these names, in that order, and each status stands under its own name.
  pub run-IsValid : (os : List (Op go)) → IsValid go (run go (new_registry go) os)
  run-IsValid os = run_from-IsValid os new_registry-IsValid
