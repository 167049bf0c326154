-- ===== src/Monitor/Registry/Summary/Total.antt =====
-- The summary of a registry (registry.go) against its snapshot.
use healthd.Common.{
  String, ◌≡◌, refl, sym, ap, ap₂, ◌∙◌, true, List, [], ◌∷◌, Option, none, some, is_present, arith,
  eq_iff,
}
use healthd.Common.Assoc.{lookup, contains, contains-keys}
use healthd.Platform.{Platform}
use healthd.Monitor.History.{UnitHistory}
use healthd.Monitor.Registry.{Registry, UnitStatus, status_or_zero, snapshot, statuses}
use healthd.Monitor.Registry.Invariant.{IsValid}
use healthd.Monitor.Registry.Summary.{
  UnitSummary, FleetSummary, add_unit, unit_summary, unit_summaries, summary,
}

module _ (go : Platform) where
  open go use {Time}

  -- The statuses that a list of unit summaries carries.
  abbrev pub summary_statuses : List (UnitSummary go) → List (UnitStatus go)
  summary_statuses [] = []
  summary_statuses (u ∷ us) = u.status ∷ summary_statuses us

  status-unit_summary : (s : UnitStatus go) (h : UnitHistory go) → (unit_summary go s h).status ≡ s
  unfolding unit_summary
  status-unit_summary s h = refl

  unit_summaries-total :
      (ns : List String) (r : Registry go)
      → ((n : String) → contains n ns ≡ true → is_present (lookup n r.history) ≡ true)
      → (us : List (UnitSummary go)) × (unit_summaries go ns r ≡ some us)
        × (summary_statuses us ≡ statuses go ns r.units)
  unfolding unit_summaries
  unit_summaries-total [] r h = ([], refl, refl)
  unit_summaries-total (n ∷ ns) r h =
      let (us, e, same) = unit_summaries-total ns r (λ m p. h m (ground arith)) in
      let (u, found) = present (lookup n r.history) (h n (ground (arith, eq_iff n n))) in
      (
        unit_summary go (status_or_zero go (lookup n r.units)) u ∷ us,
        ap₂ (λ o l. add_unit go o (status_or_zero go (lookup n r.units)) l) found e,
        ap₂ ◌∷◌ (status-unit_summary (status_or_zero go (lookup n r.units)) u) same,
      )
    where
      present :
          (o : Option (UnitHistory go)) → is_present o ≡ true → (u : UnitHistory go) × (o ≡ some u)
      present none p = cc
      present (some u) p = (u, refl)

  -- The summary of a valid registry returns: no unit lacks a history. It has one entry for each unit
  -- of the snapshot, in the same order and with the same status.
  pub summary-total :
      {r : Registry go} (now : Time)
      → IsValid go r
      → (fs : FleetSummary go) × (summary go (some r) now ≡ some fs)
        × (summary_statuses fs.units ≡ snapshot go (some r))
        × (fs.generated_at ≡ now)
  unfolding summary snapshot
  summary-total {r} now v =
      let (us, e, same) =
        unit_summaries-total r.order r
          (λ n h. sym (contains-keys n r.history) ∙ ap (contains n) v.history_keyed ∙ h) in
      (record { generated_at = now; units = us }, rw e refl, same, refl)
