-- ===== src/Roles/Calls/Summaries.antt =====
-- The summary that a client asks for (summary_handler in internal/roles/message_handler.go, Summary of
-- registry.go) after any interleaving of the calls of all units.
use healthd.Common.{
  ℕ, zero, suc, String, ◌≡◌, refl, sym, ap, ap₂, ◌∙◌, true, List, [], ◌∷◌, Option, none, some,
  get_elem?, recent,
}
use healthd.Common.Int.{ℤ}
use healthd.Common.Assoc.{lookup, Distinct}
use healthd.Platform.{Platform}
use healthd.Protocol.{Request, new_summary}
use healthd.Monitor.StateMachine as Machine
use healthd.Monitor.History.{history_cap, UnitHistory, slice}
use healthd.Monitor.Registry.{Registry, UnitStatus, status_or_zero}
use healthd.Monitor.Registry.Spec.{View, fresh_view, read, recent_view}
use healthd.Monitor.Registry.Summary.{
  UnitSummary, FleetSummary, history_availability, speed_stats, add_unit, unit_summary,
  unit_summaries, fleet_of, summary,
}
use healthd.Monitor.Registry.Summary.Total.{summary-total}
use healthd.Roles.MessageHandler.{summary_handler, handle, summary_response, to_wire_summary}
use healthd.Roles.Units.{RoleTarget, MonitoredUnit, new_fleet}
use healthd.Roles.Units.Enrolled.{fleet_names}
use healthd.Roles.Units.Names.{addresses, fleet_names-Distinct}
use healthd.Roles.Units.Own.{own, own_view}
use healthd.Roles.Units.Isolation.{seen}
use healthd.Roles.Calls.{Monitors, start_monitors, Move, Moves}
use healthd.Roles.Calls.Sent.{begun}
use healthd.Roles.Calls.Isolation.{at_rest, calls-own}
use healthd.Roles.Calls.Registered.{new_fleet-Registered, Moves-Registered}

module _ (go : Platform) where
  open go use {Time}

  -- What a summary says of a unit, by its view.
  abbrev pub recent_summary : View go → UnitSummary go
  recent_summary v =
      let checks = recent history_cap v.checks in
      let speeds = recent history_cap v.speeds in
      record {
        status = v.status;
        history_availability = history_availability go checks;
        speed = speed_stats go speeds;
        checks = checks;
        speeds = speeds;
      }

  add_unit-inv :
      (o : Option (UnitHistory go)) (s : UnitStatus go) (rest : Option (List (UnitSummary go)))
      (us : List (UnitSummary go))
      → add_unit go o s rest ≡ some us
      → (h : UnitHistory go) × (vs : List (UnitSummary go)) × (o ≡ some h)
        × (rest ≡ some vs)
        × (us ≡ unit_summary go s h ∷ vs)
  add_unit-inv none s rest us e = cc
  add_unit-inv (some h) s none us e = cc
  add_unit-inv (some h) s (some vs) us e = (h, vs, refl, refl, cc)

  -- The entry of one name.
  unit_summaries-get_elem? :
      (ns : List String) (r : Registry go) (us : List (UnitSummary go)) (i : ℕ) (n : String)
      (s : UnitStatus go) (h : UnitHistory go)
      → unit_summaries go ns r ≡ some us
      → get_elem? ns i ≡ some n
      → lookup n r.units ≡ some s
      → lookup n r.history ≡ some h
      → get_elem? us i ≡ some (unit_summary go s h)
  unfolding unit_summaries
  unit_summaries-get_elem? [] r us i n s h e at_i at_s at_h = cc
  unit_summaries-get_elem? (m ∷ ns) r us zero n s h e at_i at_s at_h =
      let (k, vs, at_k, later, all) =
        add_unit-inv (lookup m r.history) (status_or_zero go (lookup m r.units))
          (unit_summaries go ns r) us e in
      let same : m ≡ n = cc in
      let its_history : k ≡ h = cc in
      let its_status : status_or_zero go (lookup m r.units) ≡ s =
        ap (λ a. status_or_zero go (lookup a r.units)) same ∙ ap (status_or_zero go) at_s in
      ap (λ l. get_elem? l 0) all ∙ ap some (ap₂ (unit_summary go) its_status its_history)
  unit_summaries-get_elem? (m ∷ ns) r us (suc i) n s h e at_i at_s at_h =
      let (k, vs, at_k, later, all) =
        add_unit-inv (lookup m r.history) (status_or_zero go (lookup m r.units))
          (unit_summaries go ns r) us e in
      ap (λ l. get_elem? l (suc i)) all
      ∙ unit_summaries-get_elem? ns r vs i n s h later at_i at_s at_h

  read-inv :
      (u : Option (UnitStatus go)) (o : Option (UnitHistory go)) (v : View go)
      → read go u o ≡ recent_view go (some v)
      → (s : UnitStatus go) × (h : UnitHistory go) × (u ≡ some s)
        × (o ≡ some h)
        × (unit_summary go s h ≡ recent_summary v)
  unfolding unit_summary
  read-inv none o v e = cc
  read-inv (some s) none v e = cc
  read-inv (some s) (some h) v e =
      let same_status : s ≡ v.status = cc in
      let same_checks : slice h.checks ≡ recent history_cap v.checks = cc in
      let same_speeds : slice h.speeds ≡ recent history_cap v.speeds = cc in
      (s, h, refl, refl, rw (same_status, same_checks, same_speeds) refl)

  fleet_of-inv :
      (now : Time) (o : Option (List (UnitSummary go))) (fs : FleetSummary go)
      → fleet_of go now o ≡ some fs
      → o ≡ some fs.units
  fleet_of-inv now none fs e = cc
  fleet_of-inv now (some us) fs e = cc

  -- After any interleaving of the calls that the checks of a daemon's units make, of which no two ping
  -- targets have one address and no two URL targets one URL, a get-summary request is answered with a
  -- summary. For a unit whose goroutine is then in no check, the
  -- summary has at the unit's place the status that its own checks lead to, or the fresh one before its
  -- first check, the last 100 of its own check and speed samples, and the percentage of successes and
  -- the speed statistics of just these.
  pub summary-own :
      {E : Type 0} (pings urls : List (RoleTarget go))
      (internet : Option (ℤ × ℤ × Machine.Config go × List String))
      (speed : Option (ℤ × Machine.Config go × List String)) (i : ℕ) (name : String)
      (u : MonitoredUnit go) {t : Monitors go E} (mvs : List (Move go E)) (now : Time)
      (req : Request)
      → Distinct (addresses go pings)
      → Distinct (addresses go urls)
      → get_elem? (fleet_names go pings urls internet speed) i ≡ some name
      → get_elem? (new_fleet go pings urls internet speed).units i ≡ some u
      → Moves go E (start_monitors go (new_fleet go pings urls internet speed)) mvs t
      → at_rest go (get_elem? t.phases i) ≡ true
      → let view = own_view go name u.machine (own go i (begun go mvs)) (fresh_view go name) in
        (fs : FleetSummary go) × (handle go summary_handler t.fleet.registry now req
          ≡ some (new_summary go req.id (to_wire_summary go fs)))
        × (get_elem? fs.units i ≡ some (recent_summary view))
  unfolding handle summary start_monitors
  summary-own pings urls internet speed i name u {t} mvs now req d e at_i found moves rest =
      let names = fleet_names-Distinct go pings urls internet speed d e in
      let view = own_view go name u.machine (own go i (begun go mvs)) (fresh_view go name) in
      let (_, shown, _) =
        calls-own go pings urls internet speed i name u mvs d e at_i found moves rest in
      let reg =
        Moves-Registered go moves (new_fleet-Registered go pings urls internet speed names) in
      let r = reg.registry in
      let (fs, total, _, _) = summary-total go now reg.valid in
      let (s, h, at_s, at_h, entry) =
        read-inv (lookup name r.units) (lookup name r.history) view
          (sym (ap (seen go name) reg.has) ∙ shown) in
      let its_name : get_elem? r.order i ≡ some name =
        ap (λ l. get_elem? l i) reg.in_order ∙ at_i in
      (
        fs,
        ap (λ o. summary_response go req.id (summary go o now)) reg.has
            ∙ ap (summary_response go req.id) total,
        unit_summaries-get_elem? r.order r fs.units i name s h
              (fleet_of-inv now (unit_summaries go r.order r) fs total) its_name at_s at_h
            ∙ ap some entry,
      )
