-- ===== src/Daemon/Supervisor/Valid.antt =====
-- A predicate on the states of the second half of `run` of cmd/healthd/main.go.
use healthd.Common.{
  ℕ, zero, suc, String, ◌≡◌, ◌≢◌, refl, Bool, true, false, List, [], ◌∷◌, Option, none, some, map,
  get_elem?,
}
use healthd.Daemon.Supervisor.{
  Phase, running, failing, cancelling, stopped, MainPhase, waiting, stopping, returned, Supervisor,
  start_role, supervise, all_stopped,
}
use healthd.Daemon.Supervisor.Follows.{recorded}

-- A role of the list has recorded the error.
pub record Blames (roles : List (String × Phase)) (name e : String) : Type 0 where
  pub place : ℕ
  pub phase : Phase
  pub stands : get_elem? roles place ≡ some (name, phase)
  pub erred : recorded phase ≡ some e

abbrev pub Sound : Option (String × String) → Bool → List (String × Phase) → MainPhase → Type 0
Sound fatal c roles waiting = Unit {0}
Sound fatal c roles stopping = c ≡ true
Sound fatal c roles (returned r) = (c ≡ true) × (r ≡ fatal) × (all_stopped roles ≡ true)

-- The recorded error is that of a role, it is there once a role has recorded one, a role that has
-- stopped with an error has cancelled the context, and `run` moves on only when it is cancelled and
-- returns the recorded error only when every role has stopped.
pub record IsValid (s : Supervisor) : Type 0 where
  pub origin : (name e : String) → s.fatal_err ≡ some (name, e) → Blames s.roles name e
  pub kept :
      (i : ℕ) (name e : String) (p : Phase)
      → get_elem? s.roles i ≡ some (name, p)
      → recorded p ≡ some e
      → s.fatal_err ≢ none
  pub down :
      (i : ℕ) (name e : String)
      → get_elem? s.roles i ≡ some (name, stopped (some e))
      → s.cancelled ≡ true
  pub sound : Sound s.fatal_err s.cancelled s.roles s.main

get_elem?-start :
    (names : List String) (i : ℕ) (name : String) (p : Phase)
    → get_elem? (map start_role names) i ≡ some (name, p)
    → p ≡ running
get_elem?-start [] i name p h = cc
get_elem?-start (n ∷ names) zero name p h = cc
get_elem?-start (n ∷ names) (suc i) name p h = get_elem?-start names i name p h

pub supervise-IsValid : (names : List String) → IsValid (supervise names)
unfolding supervise
supervise-IsValid names = record {
  origin = λ name e h. cc;
  kept = λ i name e p h r. let q = get_elem?-start names i name p h in cc;
  down = λ i name e h. let q = get_elem?-start names i name (stopped (some e)) h in cc;
  sound = tt;
}

-- A role that has stopped does not move.
pub all_stopped-set :
    (roles : List (String × Phase)) (i : ℕ) (x : String × Phase) (name : String) (p : Phase)
    → get_elem? roles i ≡ some (name, p)
    → ((o : Option String) → p ≢ stopped o)
    → all_stopped roles ≡ false
unfolding all_stopped
all_stopped-set [] i x name p h n = cc
all_stopped-set ((a, stopped o) ∷ roles) zero x name p h n = absurd (n o cc)
all_stopped-set ((a, running) ∷ roles) zero x name p h n = refl
all_stopped-set ((a, failing e) ∷ roles) zero x name p h n = refl
all_stopped-set ((a, cancelling e) ∷ roles) zero x name p h n = refl
all_stopped-set ((a, stopped o) ∷ roles) (suc i) x name p h n = all_stopped-set roles i x name p h n
all_stopped-set ((a, running) ∷ roles) (suc i) x name p h n = refl
all_stopped-set ((a, failing e) ∷ roles) (suc i) x name p h n = refl
all_stopped-set ((a, cancelling e) ∷ roles) (suc i) x name p h n = refl

-- So `run` has not returned while a role is on its way.
pub Sound-move :
    (fatal fatal' : Option (String × String)) (c c' : Bool) (roles roles' : List (String × Phase))
    (m : MainPhase)
    → all_stopped roles ≡ false
    → (c ≡ true → c' ≡ true)
    → Sound fatal c roles m
    → Sound fatal' c' roles' m
Sound-move fatal fatal' c c' roles roles' waiting busy k s = tt
Sound-move fatal fatal' c c' roles roles' stopping busy k s = k s
Sound-move fatal fatal' c c' roles roles' (returned r) busy k (x, y, z) = cc
