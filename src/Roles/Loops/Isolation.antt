-- ===== src/Roles/Loops/Isolation.antt =====
-- The loops of all units, seen by one unit (internal/roles).
use healthd.Common.{
  ◌⊎◌, ◌++◌, if◌then◌else◌, ℕ, zero, suc, String, ◌≡◌, refl, sym, ap, ◌∙◌, Bool, true, false, List,
  [], ◌∷◌, Option, none, some, get_elem?, set, Bool-cases, inl, inr, arith, ◌==◌,
}
use healthd.Common.Int.{ℤ}
use healthd.Common.Assoc.{Distinct}
use healthd.Platform.{Platform}
use healthd.Monitor.StateMachine as Machine
use healthd.Monitor.StateMachine.{observe_all}
use healthd.Monitor.Registry.Spec.{fresh_view, recent_view}
use healthd.Roles.Units.{RoleTarget, MonitoredUnit, Fleet, Round, fleet_check, fleet_run, new_fleet}
use healthd.Roles.Units.Enrolled.{fleet_names}
use healthd.Roles.Units.Own.{own, observations, own_view}
use healthd.Roles.Units.Isolation.{seen, fleet_run-own}
use healthd.Roles.Loops.{
  Wake, ticked, ctx_done, Loops, start_loops, on_tick, on_ctx_done, wake, Wakes, no_wakes,
  then_wake,
}
use mathlib.Core.Option

module _ (go : Platform) where
  -- The checks among the wakes.
  abbrev pub rounds_of : {E : Type 0} → List (Wake go E) → List (Round go E)
  rounds_of [] = []
  rounds_of (ticked c ∷ ws) = c ∷ rounds_of ws
  rounds_of (ctx_done i ∷ ws) = rounds_of ws

  on_tick-inv :
      {E : Type 0} (s t : Loops go) (c : Round go E) (o : Option Bool)
      → on_tick go s c o ≡ some t
      → (o ≡ some true) × (t ≡ record { fleet = fleet_check go s.fleet c; running = s.running })
  on_tick-inv s t c (some true) h = (refl, cc)
  on_tick-inv s t c (some false) h = cc
  on_tick-inv s t c none h = cc

  on_ctx_done-inv :
      (s t : Loops go) (i : ℕ) (o : Option Bool)
      → on_ctx_done go s i o ≡ some t
      → (o ≡ some true) × (t ≡ record { fleet = s.fleet; running = set s.running i false })
  on_ctx_done-inv s t i (some true) h = (refl, cc)
  on_ctx_done-inv s t i (some false) h = cc
  on_ctx_done-inv s t i none h = cc

  -- The fleet is the one that the checks of the wakes lead to.
  Wakes-fleet :
      {E : Type 0} {s t : Loops go} {ws : List (Wake go E)}
      → Wakes go E s ws t
      → t.fleet ≡ fleet_run go s.fleet (rounds_of ws)
  unfolding wake fleet_run
  Wakes-fleet (no_wakes s) = refl
  Wakes-fleet (then_wake {s = s} {t = t} {w = ticked c} {ws = ws} h more) =
      let (on, same) = on_tick-inv s t c (get_elem? s.running c.unit) h in
      Wakes-fleet more ∙ ap (λ u. fleet_run go u.fleet (rounds_of ws)) same
  Wakes-fleet (then_wake {s = s} {t = t} {w = ctx_done i} {ws = ws} h more) =
      let (on, same) = on_ctx_done-inv s t i (get_elem? s.running i) h in
      Wakes-fleet more ∙ ap (λ u. fleet_run go u.fleet (rounds_of ws)) same

  stays_ended :
      (bs : List Bool) (i j : ℕ)
      → get_elem? bs i ≡ some false
      → get_elem? (set bs j false) i ≡ some false
  stays_ended [] i j h = h
  stays_ended (b ∷ bs) zero zero h = refl
  stays_ended (b ∷ bs) zero (suc j) h = h
  stays_ended (b ∷ bs) (suc i) zero h = h
  stays_ended (b ∷ bs) (suc i) (suc j) h = stays_ended bs i j h

  -- A loop that has ended makes no check.
  Wakes-ended :
      {E : Type 0} {s t : Loops go} {ws : List (Wake go E)} (i : ℕ)
      → Wakes go E s ws t
      → get_elem? s.running i ≡ some false
      → own go i (rounds_of ws) ≡ []
  unfolding wake own
  Wakes-ended i (no_wakes s) off = refl
  Wakes-ended i (then_wake {s = s} {t = t} {w = ticked c} {ws = ws} h more) off =
      let (on, same) = on_tick-inv s t c (get_elem? s.running c.unit) h in
      let rest = Wakes-ended i more (ap (λ u. get_elem? u.running i) same ∙ off) in
      elim (Bool-cases (c.unit == i)) [
        | inl e ↦
            let at_i : c.unit ≡ i = ground arith in
            let still : get_elem? s.running i ≡ some true =
              ap (get_elem? s.running) (sym at_i) ∙ on in
            cc
        | inr e ↦ rw e rest
      ]
  Wakes-ended i (then_wake {s = s} {t = t} {w = ctx_done j} {ws = ws} h more) off =
      let (on, same) = on_ctx_done-inv s t j (get_elem? s.running j) h in
      Wakes-ended i more (ap (λ u. get_elem? u.running i) same ∙ stays_ended s.running i j off)

  fleet_run-append :
      {E : Type 0} (f : Fleet go) (cs ds : List (Round go E))
      → fleet_run go f (cs ++ ds) ≡ fleet_run go (fleet_run go f cs) ds
  unfolding fleet_run
  fleet_run-append f [] ds = refl
  fleet_run-append f (c ∷ cs) ds = fleet_run-append (fleet_check go f c) cs ds

  own-append :
      {E : Type 0} (i : ℕ) (cs ds : List (Round go E))
      → own go i ds ≡ []
      → own go i (cs ++ ds) ≡ own go i cs
  unfolding own
  own-append i [] ds h = h
  own-append i (c ∷ cs) ds h =
      ap (λ rest. if c.unit == i then c ∷ rest else rest) (own-append i cs ds h)

  ended_or_running :
      {E : Type 0} {s t : Loops go} (i : ℕ) (ws vs : List (Wake go E)) (b : Bool)
      → Wakes go E s vs t
      → get_elem? s.running i ≡ some b
      → (b ≡ true) ⊎ (own go i (rounds_of ws ++ rounds_of vs) ≡ own go i (rounds_of ws))
  ended_or_running i ws vs true after h = inl refl
  ended_or_running i ws vs false after h =
      inr (own-append i (rounds_of ws) (rounds_of vs) (Wakes-ended i after h))

  -- The loops of a daemon whose units have distinct names do not disturb one another. After two series
  -- of ticks and cancellations, in whatever order these take place, the machine of each unit is the one
  -- that the checks of its own loop lead to, and the registry shows of the unit the status of that
  -- machine, or the fresh one before its first check, and the last 100 of its own check and speed
  -- samples. If the unit's loop does not run after the first series, the second adds no check of it.
  pub Wakes-own :
      {E : Type 0} (pings urls : List (RoleTarget go))
      (internet : Option (ℤ × ℤ × Machine.Config go × List String))
      (speed : Option (ℤ × Machine.Config go × List String)) (i : ℕ) (name : String)
      (u : MonitoredUnit go) (b : Bool) {s t : Loops go} (ws vs : List (Wake go E))
      → Distinct (fleet_names go pings urls internet speed)
      → get_elem? (fleet_names go pings urls internet speed) i ≡ some name
      → get_elem? (new_fleet go pings urls internet speed).units i ≡ some u
      → Wakes go E (start_loops go (new_fleet go pings urls internet speed)) ws s
      → Wakes go E s vs t
      → get_elem? s.running i ≡ some b
      → let mine = own go i (rounds_of ws ++ rounds_of vs) in
        (Option.map (λ u. u.machine) (get_elem? t.fleet.units i)
          ≡ some (observe_all go u.machine (observations go mine)).0)
        × (seen go name t.fleet.registry
            ≡ recent_view go (some (own_view go name u.machine mine (fresh_view go name))))
        × ((b ≡ true) ⊎ (mine ≡ own go i (rounds_of ws)))
  unfolding start_loops
  Wakes-own pings urls internet speed i name u b {s} {t} ws vs d at_i found before after at_b =
      let f = new_fleet go pings urls internet speed in
      let both : t.fleet ≡ fleet_run go f (rounds_of ws ++ rounds_of vs) =
        Wakes-fleet after
        ∙ ap (λ g. fleet_run go g (rounds_of vs)) (Wakes-fleet before)
        ∙ sym (fleet_run-append f (rounds_of ws) (rounds_of vs)) in
      let (machine, view) =
        fleet_run-own go pings urls internet speed i name u (rounds_of ws ++ rounds_of vs) d at_i
          found in
      (
        ap (λ g. Option.map (λ u. u.machine) (get_elem? g.units i)) both ∙ machine,
        ap (λ g. seen go name g.registry) both ∙ view,
        ended_or_running i ws vs b after at_b,
      )
