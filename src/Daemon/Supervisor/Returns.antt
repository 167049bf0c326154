-- ===== src/Daemon/Supervisor/Returns.antt =====
-- The errors that the roles' Run returned (cmd/healthd/main.go), among the events of a run.
use healthd.Common.{
  ℕ, zero, suc, String, ◌≡◌, ◌⊎◌, refl, sym, ap, ◌∙◌, List, [], ◌∷◌, Option, none, some, map,
  get_elem?, get_elem?-set_self, get_elem?-set_other, set, inl, inr, Bool-cases, ◌==◌,
}
use healthd.Daemon.Supervisor.{
  RunError, Phase, running, Supervisor, Event, run_returns, start_role, supervise, after_run, step,
  Runs, start, then,
}
use healthd.Daemon.Supervisor.Origins.{
  fatal_of, left_with, left_with-after_run, Changes, ran, went, kept, run_returns-Changes,
  step-Changes, equal, unequal,
}

abbrev pub role_name : String × Phase → String
role_name r = r.0

map-set :
    (roles : List (String × Phase)) (i : ℕ) (name : String) (p q : Phase)
    → get_elem? roles i ≡ some (name, p)
    → map role_name (set roles i (name, q)) ≡ map role_name roles
map-set [] i name p q h = refl
map-set ((n, r) ∷ roles) zero name p q h =
    let same : n ≡ name = cc in ap (λ m. m ∷ map role_name roles) (sym same)
map-set ((n, r) ∷ roles) (suc i) name p q h = ap (λ l. n ∷ l) (map-set roles i name p q h)

-- The role `i` has the name `n`, and its goroutine goes by `o`.
pub record LeftWith (s : Supervisor) (i : ℕ) (n : String) (o : Option String) : Type 0 where
  pub phase : Phase
  pub stands : get_elem? s.roles i ≡ some (n, phase)
  pub goes_by : left_with phase ≡ some o

-- A write at `j`, seen at `i`.
written :
    (roles roles' : List (String × Phase)) (i j : ℕ) (v w : String × Phase)
    → get_elem? roles j ≡ some w
    → roles' ≡ set roles j v
    → ((i ≡ j) × (get_elem? roles' i ≡ some v)) ⊎ (get_elem? roles' i ≡ get_elem? roles i)
written roles roles' i j v w at_j e = elim (Bool-cases (i == j)) [
  | inl b ↦
      let same = equal b in
      inl (
        same,
        ap (λ l. get_elem? l i) e
            ∙ ap (get_elem? (set roles j v)) same
            ∙ get_elem?-set_self roles j w v at_j,
      )
  | inr b ↦ inr (ap (λ l. get_elem? l i) e ∙ get_elem?-set_other roles i j v (unequal b))
]

Changes-LeftWith :
    {ev : Event} {s t : Supervisor} {i : ℕ} {n : String} {o : Option String}
    → Changes ev s t
    → LeftWith s i n o
    → LeftWith t i n o
Changes-LeftWith {s = s} {t} {i} {n} {o} (ran j name x e at_j r) w =
    elim (written s.roles t.roles i j (name, after_run x) (name, running) at_j r) [
      | inl (same, at_t) ↦
          let there = w.stands in
          let at_i : get_elem? s.roles i ≡ some (name, running) =
            ap (get_elem? s.roles) same ∙ at_j in
          let here : w.phase ≡ running = cc in
          let none_left = w.goes_by in absurd (never (sym (ap left_with here) ∙ none_left))
      | inr at_t ↦ record { phase = w.phase; stands = at_t ∙ w.stands; goes_by = w.goes_by }
    ]
  where
    never : {p : Option String} → ◌≡◌ {A = Option (Option String)} none (some p) → ⊥
    never h = cc
Changes-LeftWith {s = s} {t} {i} {n} {o} (went j name p q o' at_j h h' r) w =
    elim (written s.roles t.roles i j (name, q) (name, p) at_j r) [
      | inl (same, at_t) ↦
          let there = w.stands in
          let at_i : get_elem? s.roles i ≡ some (name, p) = ap (get_elem? s.roles) same ∙ at_j in
          let named : name ≡ n = cc in
          let here : w.phase ≡ p = cc in
          record {
            phase = q;
            stands = at_t ∙ ap (λ m. some (m, q)) named;
            goes_by = h' ∙ sym h ∙ sym (ap left_with here) ∙ w.goes_by;
          }
      | inr at_t ↦ record { phase = w.phase; stands = at_t ∙ w.stands; goes_by = w.goes_by }
    ]
Changes-LeftWith {i = i} (kept r) w = record {
  phase = w.phase;
  stands = ap (λ l. get_elem? l i) r ∙ w.stands;
  goes_by = w.goes_by;
}

Runs-LeftWith :
    {s t : Supervisor} {es : List Event} {i : ℕ} {n : String} {o : Option String}
    → Runs s es t
    → LeftWith s i n o
    → LeftWith t i n o
Runs-LeftWith (start s) w = w
Runs-LeftWith (then {e = e} st more) w = Runs-LeftWith more (Changes-LeftWith (step-Changes e st) w)

-- A goroutine goes by what Run returned.
pub returned-LeftWith :
    {s t : Supervisor} {es : List Event} (k i : ℕ) (x : Option RunError)
    → Runs s es t
    → get_elem? es k ≡ some (run_returns i x)
    → (n : String) × LeftWith t i n (fatal_of x)
unfolding step
returned-LeftWith k i x (start s) h = cc
returned-LeftWith zero i x (then {s = s} {t = t} {e = e} st more) h =
    let same : e ≡ run_returns i x = cc in
    let st' = ap (step s) (sym same) ∙ st in
    let (n, at_i, r) = run_returns-Changes s t i x (get_elem? s.roles i) refl st' in
    (
      n,
      Runs-LeftWith more (record {
        phase = after_run x;
        stands =
            ap (λ l. get_elem? l i) r
            ∙ get_elem?-set_self s.roles i (n, running) (n, after_run x) at_i;
        goes_by = left_with-after_run x;
      }),
    )
returned-LeftWith (suc k) i x (then st more) h = returned-LeftWith k i x more h

-- What a goroutine goes by after a step, it went by before, or it is what Run returns in that step.
Changes-back :
    {ev : Event} {s t : Supervisor} {i : ℕ} {n : String} {o : Option String}
    → Changes ev s t
    → LeftWith t i n o
    → LeftWith s i n o ⊎ ((x : Option RunError) × (ev ≡ run_returns i x) × (fatal_of x ≡ o))
Changes-back {s = s} {t} {i} {n} {o} (ran j name x e at_j r) w =
    elim (written s.roles t.roles i j (name, after_run x) (name, running) at_j r) [
      | inl (same, at_t) ↦
          let there = w.stands in
          let here : w.phase ≡ after_run x = cc in
          let both : some (fatal_of x) ≡ some o =
            sym (left_with-after_run x) ∙ sym (ap left_with here) ∙ w.goes_by in
          inr (x, e ∙ ap (λ k. run_returns k x) (sym same), some_inj both)
      | inr at_t ↦
          inl (record { phase = w.phase; stands = sym at_t ∙ w.stands; goes_by = w.goes_by })
    ]
  where
    some_inj : {a b : Option String} → ◌≡◌ {A = Option (Option String)} (some a) (some b) → a ≡ b
    some_inj h = cc
Changes-back {s = s} {t} {i} {n} {o} (went j name p q o' at_j h h' r) w =
    elim (written s.roles t.roles i j (name, q) (name, p) at_j r) [
      | inl (same, at_t) ↦
          let there = w.stands in
          let here : w.phase ≡ q = cc in
          let named : name ≡ n = cc in
          inl (record {
            phase = p;
            stands = ap (get_elem? s.roles) same ∙ at_j ∙ ap (λ m. some (m, p)) named;
            goes_by = h ∙ sym h' ∙ sym (ap left_with here) ∙ w.goes_by;
          })
      | inr at_t ↦
          inl (record { phase = w.phase; stands = sym at_t ∙ w.stands; goes_by = w.goes_by })
    ]
Changes-back {i = i} (kept r) w = inl (record {
  phase = w.phase;
  stands = ap (λ l. get_elem? l i) (sym r) ∙ w.stands;
  goes_by = w.goes_by;
})

-- The Run of the role `i` returned an error for which the goroutine goes by `o`.
pub record Returned (es : List Event) (i : ℕ) (o : Option String) : Type 0 where
  pub place : ℕ
  pub result : Option RunError
  pub happens : get_elem? es place ≡ some (run_returns i result)
  pub fatal : fatal_of result ≡ o

later :
    {e : Event} {es : List Event} {i : ℕ} {o : Option String}
    → Returned es i o
    → Returned (e ∷ es) i o
later w = record { place = suc w.place; result = w.result; happens = w.happens; fatal = w.fatal }

Runs-Returned :
    {s t : Supervisor} {es : List Event} {i : ℕ} {n : String} {o : Option String}
    → Runs s es t
    → LeftWith t i n o
    → LeftWith s i n o ⊎ Returned es i o
Runs-Returned (start s) w = inl w
Runs-Returned (then {e = e} st more) w = elim (Runs-Returned more w) [
  | inr found ↦ inr (later found)
  | inl at_t ↦ elim (Changes-back (step-Changes e st) at_t) [
    | inl at_s ↦ inl at_s
    | inr (x, ran_here, same) ↦
        inr (record { place = 0; result = x; happens = ap some ran_here; fatal = same })
  ]
]

starts_running :
    (names : List String) (i : ℕ) (n : String) (p : Phase)
    → get_elem? (map start_role names) i ≡ some (n, p)
    → p ≡ running
starts_running [] i n p h = cc
starts_running (m ∷ names) zero n p h = cc
starts_running (m ∷ names) (suc i) n p h = starts_running names i n p h

-- In a run from the start, a goroutine goes by what its Run returned.
pub supervise-Returned :
    (names : List String) {t : Supervisor} {es : List Event} {i : ℕ} {n : String}
    {o : Option String}
    → Runs (supervise names) es t
    → LeftWith t i n o
    → Returned es i o
unfolding supervise
supervise-Returned names {i = i} {n} {o} runs w = elim (Runs-Returned runs w) [
  | inr found ↦ found
  | inl at_start ↦
      let still = starts_running names i n at_start.phase at_start.stands in
      absurd (never (sym (ap left_with still) ∙ at_start.goes_by))
]
  where
    never : {p : Option String} → ◌≡◌ {A = Option (Option String)} none (some p) → ⊥
    never h = cc

-- The roles keep their names.
Changes-names :
    {ev : Event} {s t : Supervisor} → Changes ev s t → map role_name t.roles ≡ map role_name s.roles
Changes-names {s = s} (ran i name x e at_i r) =
    ap (map role_name) r ∙ map-set s.roles i name running (after_run x) at_i
Changes-names {s = s} (went i name p q o at_i h h' r) =
    ap (map role_name) r ∙ map-set s.roles i name p q at_i
Changes-names (kept r) = ap (map role_name) r

Runs-names :
    {s t : Supervisor} {es : List Event}
    → Runs s es t
    → map role_name t.roles ≡ map role_name s.roles
Runs-names (start s) = refl
Runs-names (then {e = e} st more) = Runs-names more ∙ Changes-names (step-Changes e st)

pub supervise-names :
    (names : List String) {t : Supervisor} {es : List Event}
    → Runs (supervise names) es t
    → map role_name t.roles ≡ names
unfolding supervise
supervise-names names runs = Runs-names runs ∙ started names
  where
    started : (ns : List String) → map role_name (map start_role ns) ≡ ns
    started [] = refl
    started (n ∷ ns) = ap (λ l. n ∷ l) (started ns)
