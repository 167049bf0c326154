-- ===== src/Roles/Calls/Outcome.antt =====
-- What the calls of one unit's goroutine do to what can be seen of the unit: its machine, its view in
-- the registry, and its alerts (runCheck in internal/roles, registry.go).
use healthd.Common.{
  String, ◌≡◌, refl, ap, ◌∙◌, List, [], ◌∷◌, ◌++◌, Option, none, some, append-nil, append_assoc,
}
use healthd.Platform.{Platform}
use healthd.Monitor.StateMachine.{Event, StateMachine, observe, observe_all}
use healthd.Monitor.Registry.{Registry}
use healthd.Monitor.Registry.Spec.{View}
use healthd.Roles.Check.{Alert, dispatch_event}
use healthd.Roles.Units.{MonitoredUnit, Round}
use healthd.Roles.Units.Own.{observations, view_round, own_view}
use healthd.Roles.Calls.{
  Phase, waiting, returned, before_observe, before_update, before_record_check, before_record_speed,
  before_log_snapshot, before_dispatch, Effect, call,
}
use healthd.Roles.Calls.Ops.{check_in, speed_in, call_view}

module _ (go : Platform) where
  open go use {Float, Time}

  pub record Outcome (E : Type 0) : Type 0 where
    pub machine : StateMachine go
    pub view : View go
    pub alerts : List (Alert go E)

  abbrev pub alerts_with :
      {E : Type 0} → Option (Alert go E) → List (Alert go E) → List (Alert go E)
  alerts_with none earlier = earlier
  alerts_with (some a) earlier = earlier ++ a ∷ []

  -- The alert of a round that leaves the machine as `m` with the event `ev`.
  abbrev pub alert_of : {E : Type 0} → Round go E → StateMachine go → Event → Option (Alert go E)
  alert_of c m ev = dispatch_event go c.role c.detail ev m.consecutive c.at.dispatched

  -- A whole round, with nothing between its calls.
  abbrev pub after_round : {E : Type 0} → String → Round go E → Outcome E → Outcome E
  after_round name c o =
      let (m, ev) = observe go o.machine c.success c.at.observed in
      record {
        machine = m;
        view = view_round go name m c o.view;
        alerts = alerts_with (alert_of c m ev) o.alerts;
      }

  abbrev pub after_rounds : {E : Type 0} → String → Outcome E → List (Round go E) → Outcome E
  after_rounds name o [] = o
  after_rounds name o (c ∷ cs) = after_rounds name (after_round name c o) cs

  -- The rest of the round that the goroutine is in, with nothing between its calls.
  abbrev pub finish : {E : Type 0} → String → Phase go E → Outcome E → Outcome E
  finish name waiting o = o
  finish name returned o = o
  finish name (before_observe c) o = after_round name c o
  finish name (before_update c ev) o = record {
    machine = o.machine;
    view = view_round go name o.machine c o.view;
    alerts = alerts_with (alert_of c o.machine ev) o.alerts;
  }
  finish name (before_record_check c ev) o = record {
    machine = o.machine;
    view = speed_in go c (check_in go c o.view);
    alerts = alerts_with (alert_of c o.machine ev) o.alerts;
  }
  finish name (before_record_speed c ev) o = record {
    machine = o.machine;
    view = speed_in go c o.view;
    alerts = alerts_with (alert_of c o.machine ev) o.alerts;
  }
  finish name (before_log_snapshot c ev) o = record o {
    alerts = alerts_with (alert_of c o.machine ev) o.alerts;
  }
  finish name (before_dispatch c ev) o = record o {
    alerts = alerts_with (alert_of c o.machine ev) o.alerts;
  }

  -- A call leaves the same to be seen once the round is over.
  abbrev pub Leaves :
      {E : Type 0}
      → String
      → Outcome E
      → View go
      → List (Alert go E)
      → Option (Effect go E)
      → Type 0
  Leaves name o v sent none = Unit {0}
  Leaves name o v sent (some e) =
      finish name e.next
        (record { machine = e.machine; view = v; alerts = alerts_with e.alert sent })
      ≡ o

  pub call-Leaves :
      {E : Type 0} (name : String) (u : MonitoredUnit go) (r : Option (Registry go))
      (p : Phase go E) (v : View go) (sent : List (Alert go E))
      → Leaves name
          (finish name p (record { machine = u.machine; view = v; alerts = sent }))
          (call_view go name u.machine p v)
          sent
          (call go u r p)
  unfolding call
  call-Leaves name u r waiting v sent = tt
  call-Leaves name u r returned v sent = tt
  call-Leaves name u r (before_observe c) v sent = refl
  call-Leaves name u r (before_update c ev) v sent = refl
  call-Leaves name u r (before_record_check c ev) v sent = refl
  call-Leaves name u r (before_record_speed c ev) v sent = refl
  call-Leaves name u r (before_log_snapshot c ev) v sent = refl
  call-Leaves name u r (before_dispatch c ev) v sent = refl

  -- The alerts of a unit whose machine is `m` for rounds of its own.
  abbrev pub own_alerts : {E : Type 0} → StateMachine go → List (Round go E) → List (Alert go E)
  own_alerts m [] = []
  own_alerts m (c ∷ cs) =
      let (m', ev) = observe go m c.success c.at.observed in
      alerts_with (alert_of c m' ev) [] ++ own_alerts m' cs

  alerts_with-append :
      {E : Type 0} (a : Option (Alert go E)) (earlier later : List (Alert go E))
      → alerts_with a earlier ++ later ≡ earlier ++ (alerts_with a [] ++ later)
  alerts_with-append none earlier later = refl
  alerts_with-append (some a) earlier later = append_assoc earlier (a ∷ []) later

  pub after_rounds-own :
      {E : Type 0} (name : String) (o : Outcome E) (cs : List (Round go E))
      → after_rounds name o cs ≡ record {
        machine = (observe_all go o.machine (observations go cs)).0;
        view = own_view go name o.machine cs o.view;
        alerts = o.alerts ++ own_alerts o.machine cs;
      }
  unfolding observe_all
  after_rounds-own name o [] = rw append-nil refl
  after_rounds-own name o (c ∷ cs) =
      let (m', ev) = observe go o.machine c.success c.at.observed in
      after_rounds-own name (after_round name c o) cs
      ∙ ap
          (λ sent. record {
            machine = (observe_all go m' (observations go cs)).0;
            view = own_view go name m' cs (view_round go name m' c o.view);
            alerts = sent;
          })
          (alerts_with-append (alert_of c m' ev) o.alerts (own_alerts m' cs))
