-- ===== src/Roles/Calls/Lines.antt =====
-- The snapshot lines that the checks log (LogSnapshot of registry.go, called by runCheck in
-- internal/roles).
use healthd.Common.{
  ℕ, zero, suc, String, ◌≡◌, refl, sym, subst, ap, ap₂, ◌∙◌, true, List, [], ◌∷◌, ◌++◌, Option,
  none, some, map, length, get_elem?, is_present, arith, eq_iff,
}
use healthd.Common.Int.{ℤ}
use healthd.Common.Assoc.{lookup, contains, contains-keys, Distinct}
use healthd.Platform.{Platform}
use healthd.Monitor.StateMachine as Machine
use healthd.Monitor.StateMachine.{Event, no_event, alert_unhealthy, recovery_healthy}
use healthd.Monitor.Registry.{Registry, UnitStatus, Handle, status_or_zero, statuses, snapshot}
use healthd.Monitor.Registry.Invariant.{IsValid}
use healthd.Monitor.Registry.Summary.{LogLine, snapshot_group, log_snapshot, handle_log_snapshot}
use healthd.Roles.Check.{snapshot_on}
use healthd.Roles.Units.{RoleTarget, MonitoredUnit, new_fleet}
use healthd.Roles.Units.Enrolled.{fleet_names}
use healthd.Roles.Units.Names.{addresses, fleet_names-Distinct}
use healthd.Roles.Calls.{
  Phase, waiting, returned, before_observe, before_update, before_record_check, before_record_speed,
  before_log_snapshot, before_dispatch, Effect, call, Monitors, start_monitors, lines_with, Move,
  ticks, calls, returns, move, Moves, no_moves, then_move,
}
use healthd.Roles.Calls.Follow.{leave_select-inv, call_of-inv}
use healthd.Roles.Calls.Registered.{Registered, new_fleet-Registered, move-Registered}

module _ (go : Platform) where
  -- The line lists the names, each with its state and its count of failures first.
  pub record Lists (names : List String) (l : LogLine go) : Type 0 where
    pub counted : l.unit_count ≡ length names
    pub listed : map (λ g. g.0) l.groups ≡ names

  abbrev pub AllList : List String → List (LogLine go) → Type 0
  AllList names [] = Unit {0}
  AllList names (l ∷ ls) = Lists names l × AllList names ls

  AllList-snoc :
      (names : List String) (ls : List (LogLine go)) (l : LogLine go)
      → AllList names ls
      → Lists names l
      → AllList names (ls ++ l ∷ [])
  AllList-snoc names [] l all one = (one, tt)
  AllList-snoc names (k ∷ ls) l all one = (all.0, AllList-snoc names ls l all.1 one)

  AllList-get_elem? :
      (names : List String) (ls : List (LogLine go)) (k : ℕ) (l : LogLine go)
      → AllList names ls
      → get_elem? ls k ≡ some l
      → Lists names l
  AllList-get_elem? names [] k l all h = cc
  AllList-get_elem? names (m ∷ ls) zero l all h = subst (Lists names) some_inj all.0
    where
      some_inj : m ≡ l
      some_inj = cc
  AllList-get_elem? names (m ∷ ls) (suc k) l all h = AllList-get_elem? names ls k l all.1 h

  -- The statuses of a snapshot stand under the names, in their order.
  statuses-names :
      (ns : List String) (r : Registry go)
      → IsValid go r
      → ((n : String) → contains n ns ≡ true → is_present (lookup n r.units) ≡ true)
      → (length (statuses go ns r.units) ≡ length ns)
        × (map (λ g. g.0) (map (snapshot_group go) (statuses go ns r.units)) ≡ ns)
  statuses-names [] r v h = (refl, refl)
  statuses-names (n ∷ ns) r v h =
      let (count, names) = statuses-names ns r v (λ m p. h m (ground arith)) in
      let (s, at_s) = present (lookup n r.units) (h n (ground (arith, eq_iff n n))) in
      let named : (status_or_zero go (lookup n r.units)).name ≡ n =
        ap (λ o. (status_or_zero go o).name) at_s ∙ v.named n s at_s in
      (omega arith, ap₂ ◌∷◌ named names)
    where
      present :
          (o : Option (UnitStatus go)) → is_present o ≡ true → (s : UnitStatus go) × (o ≡ some s)
      present none p = cc
      present (some s) p = (s, refl)

  abbrev MayList : List String → Option (LogLine go) → Type 0
  MayList names none = Unit {0}
  MayList names (some l) = Lists names l

  log_snapshot-MayList :
      {r : Registry go} (names : List String)
      → IsValid go r
      → r.order ≡ names
      → MayList names (log_snapshot go (some r))
  unfolding log_snapshot snapshot
  log_snapshot-MayList {r} names v in_order =
      let (count, listed) =
        statuses-names r.order r v
          (λ n h. sym (contains-keys n r.units) ∙ ap (contains n) v.units_keyed ∙ h) in
      record { counted = count ∙ ap length in_order; listed = listed ∙ in_order }

  snapshot_on-MayList :
      {r : Registry go} (names : List String) (ev : Event) (h : Option Handle)
      → IsValid go r
      → r.order ≡ names
      → MayList names (snapshot_on go ev h (some r))
  unfolding handle_log_snapshot
  snapshot_on-MayList names no_event h v e = tt
  snapshot_on-MayList names alert_unhealthy none v e = tt
  snapshot_on-MayList names alert_unhealthy (some h) v e = log_snapshot-MayList names v e
  snapshot_on-MayList names recovery_healthy none v e = tt
  snapshot_on-MayList names recovery_healthy (some h) v e = log_snapshot-MayList names v e

  abbrev EffectLists : List String → {E : Type 0} → Option (Effect go E) → Type 0
  EffectLists names none = Unit {0}
  EffectLists names (some e) = MayList names e.line

  call-EffectLists :
      {E : Type 0} {r : Registry go} (names : List String) (u : MonitoredUnit go) (p : Phase go E)
      → IsValid go r
      → r.order ≡ names
      → EffectLists names (call go u (some r) p)
  unfolding call
  call-EffectLists names u waiting v e = tt
  call-EffectLists names u returned v e = tt
  call-EffectLists names u (before_observe c) v e = tt
  call-EffectLists names u (before_update c ev) v e = tt
  call-EffectLists names u (before_record_check c ev) v e = tt
  call-EffectLists names u (before_record_speed c ev) v e = tt
  call-EffectLists names u (before_log_snapshot c ev) v e =
      snapshot_on-MayList names ev u.handle v e
  call-EffectLists names u (before_dispatch c ev) v e = tt

  lines_with-AllList :
      (names : List String) (o : Option (LogLine go)) (ls : List (LogLine go))
      → AllList names ls
      → MayList names o
      → AllList names (lines_with go o ls)
  lines_with-AllList names none ls all one = all
  lines_with-AllList names (some l) ls all one = AllList-snoc names ls l all one

  move-AllList :
      {E : Type 0} {names : List String} (s t : Monitors go E) (mv : Move go E)
      → move go s mv ≡ some t
      → Registered go names s.fleet
      → AllList names s.lines
      → AllList names t.lines
  unfolding move
  move-AllList {names = names} s t (ticks c) h w all =
      let (_, same) =
        leave_select-inv go s t c.unit (before_observe c) (get_elem? s.phases c.unit) h in
      subst (AllList names) (sym (ap (λ v. v.lines) same)) all
  move-AllList {names = names} s t (returns j) h w all =
      let (_, same) = leave_select-inv go s t j returned (get_elem? s.phases j) h in
      subst (AllList names) (sym (ap (λ v. v.lines) same)) all
  move-AllList {names = names} s t (calls j) h w all =
      let (u, p, e, at_u, at_p, at_e, same) =
        call_of-inv go s t j (get_elem? s.fleet.units j) (get_elem? s.phases j) h in
      let at_r = sym (ap (λ r. call go u r p) w.has) ∙ at_e in
      let one : MayList names e.line =
        subst (EffectLists names) at_r (call-EffectLists names u p w.valid w.in_order) in
      subst (AllList names) (sym (ap (λ v. v.lines) same))
        (lines_with-AllList names e.line s.lines all one)

  Moves-AllList :
      {E : Type 0} {names : List String} {s t : Monitors go E} {mvs : List (Move go E)}
      → Moves go E s mvs t
      → Registered go names s.fleet
      → AllList names s.lines
      → AllList names t.lines
  Moves-AllList (no_moves s) w all = all
  Moves-AllList (then_move {s = s} {t = t} {mv = mv} h more) w all =
      Moves-AllList more (move-Registered go s t mv h w) (move-AllList s t mv h w all)

  -- Every snapshot line that a check has logged, at whatever point of the interleaving of all checks,
  -- lists each unit of the daemon once, in the order of registration, and gives their number. (No two
  -- ping targets have one address and no two URL targets one URL.)
  pub lines-Lists :
      {E : Type 0} (pings urls : List (RoleTarget go))
      (internet : Option (ℤ × ℤ × Machine.Config go × List String))
      (speed : Option (ℤ × Machine.Config go × List String)) {t : Monitors go E}
      (mvs : List (Move go E)) (k : ℕ) (l : LogLine go)
      → Distinct (addresses go pings)
      → Distinct (addresses go urls)
      → Moves go E (start_monitors go (new_fleet go pings urls internet speed)) mvs t
      → get_elem? t.lines k ≡ some l
      → Lists (fleet_names go pings urls internet speed) l
  unfolding start_monitors
  lines-Lists pings urls internet speed {t} mvs k l d e moves at_k =
      let names = fleet_names go pings urls internet speed in
      let distinct = fleet_names-Distinct go pings urls internet speed d e in
      AllList-get_elem? names t.lines k l
        (Moves-AllList moves (new_fleet-Registered go pings urls internet speed distinct) tt) at_k
