-- ===== src/Roles/Calls/Pending.antt =====
-- One unit among the moves of all goroutines (internal/roles): what is pending of its round, and the
-- moves that enter a round or return from a loop.
use healthd.Common.{
  ℕ, String, ◌≡◌, ◌≢◌, sym, subst, ap, ◌∙◌, List, some, get_elem?, get_elem?-set_self,
  get_elem?-set_other, set,
}
use healthd.Platform.{Platform}
use healthd.Roles.Units.Sees.{Sees}
use healthd.Roles.Calls.{Phase, waiting, Monitors}
use healthd.Roles.Calls.Outcome.{Outcome, finish}
use healthd.Roles.Calls.Sent.{alerts_from}

module _ (go : Platform) where
  -- What can be seen of the unit `i` is `o`, and its goroutine stands at `p`.
  pub record Follows {E : Type 0} (names : List String) (i : ℕ) (name : String) (s : Monitors go E)
      (o : Outcome go E) (p : Phase go E) : Type 0 where
    pub sees : Sees go names i name s.fleet o.machine o.view
    pub stands_at : get_elem? s.phases i ≡ some p
    pub alerts : alerts_from go i s.sent ≡ o.alerts

  -- What can be seen of the unit once its round is over is `o`.
  pub record Pending {E : Type 0} (names : List String) (i : ℕ) (name : String) (s : Monitors go E)
      (o : Outcome go E) : Type 0 where
    pub now : Outcome go E
    pub phase : Phase go E
    pub follows : Follows names i name s now phase
    pub finishes : finish go name phase now ≡ o

  -- The unit's goroutine leaves its `select`.
  leave-Pending_own :
      {E : Type 0} {names : List String} {i : ℕ} {name : String} {s : Monitors go E}
      {o : Outcome go E} (to : Phase go E)
      → get_elem? s.phases i ≡ some waiting
      → Pending names i name s o
      → Pending names i name (record s { phases = set s.phases i to }) (finish go name to o)
  leave-Pending_own {i = i} {name} {s} {o} to at_select w =
      let there = w.follows.stands_at in
      let here : w.phase ≡ waiting = cc in
      record {
        now = w.now;
        phase = to;
        follows = record {
          sees = w.follows.sees;
          stands_at = get_elem?-set_self s.phases i waiting to at_select;
          alerts = w.follows.alerts;
        };
        finishes = ap (finish go name to) (subst (λ q. finish go name q w.now ≡ o) here w.finishes);
      }

  pub leave-Pending_at :
      {E : Type 0} {names : List String} {i : ℕ} {name : String} {s : Monitors go E}
      {o : Outcome go E} (j : ℕ) (to : Phase go E)
      → j ≡ i
      → get_elem? s.phases j ≡ some waiting
      → Pending names i name s o
      → Pending names i name (record s { phases = set s.phases j to }) (finish go name to o)
  leave-Pending_at {names = names} {i} {name} {s} {o} j to same at_select w =
      subst
        (λ k. Pending names i name (record s { phases = set s.phases k to }) (finish go name to o))
        (sym same) (leave-Pending_own to (ap (get_elem? s.phases) (sym same) ∙ at_select) w)

  -- The goroutine of another unit leaves its `select`.
  pub leave-Pending_other :
      {E : Type 0} {names : List String} {i : ℕ} {name : String} {s : Monitors go E}
      {o : Outcome go E} (j : ℕ) (to : Phase go E)
      → i ≢ j
      → Pending names i name s o
      → Pending names i name (record s { phases = set s.phases j to }) o
  leave-Pending_other {i = i} {s = s} j to other w = record {
    now = w.now;
    phase = w.phase;
    follows = record {
      sees = w.follows.sees;
      stands_at = get_elem?-set_other s.phases i j to other ∙ w.follows.stands_at;
      alerts = w.follows.alerts;
    };
    finishes = w.finishes;
  }
