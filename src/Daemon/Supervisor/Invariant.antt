-- ===== src/Daemon/Supervisor/Invariant.antt =====
-- What holds in every state that the second half of `run` of cmd/healthd/main.go reaches.
use healthd.Common.{
  get_elem?-set_kept, ap₂, ℕ, String, ◌≡◌, ◌≢◌, inl, inr, refl, sym, subst, ap, ◌∙◌, Bool, true,
  List, Option, none, some, get_elem?, set, get_elem?-set_self, get_elem?-set_cases,
}
use healthd.Daemon.Supervisor.{
  RunError, canceled, failed, Phase, running, failing, cancelling, stopped, MainPhase, waiting,
  stopping, returned, Supervisor, Event, after_run, first_error, move, record_error, cancel, Runs,
  start, then,
}
use healthd.Daemon.Supervisor.Follows.{
  recorded, Follows, ended, blamed, brought_down, signalled, noticed, finished, step-Follows,
}
use healthd.Daemon.Supervisor.Valid.{Blames, IsValid, all_stopped-set, Sound-move, Sound}

Blames-set :
    {roles : List (String × Phase)} (i : ℕ) {a name e : String} {p : Phase} (q : Phase)
    → get_elem? roles i ≡ some (a, p)
    → ((r : String) → recorded p ≡ some r → recorded q ≡ some r)
    → Blames roles name e
    → Blames (set roles i (a, q)) name e
Blames-set {roles} i {a} {name} {e} {p} q at_i k b =
    elim (get_elem?-set_kept roles b.place i (a, q) (a, p) (name, b.phase) at_i b.stands) [
      | inr h ↦ record { place = b.place; phase = b.phase; stands = h; erred = b.erred }
      | inl (x, h) ↦ record {
        place = b.place;
        phase = q;
        stands = h ∙ ap some (ap₂ (λ n r. (n, r)) (sym (ap (λ y. y.0) x)) refl);
        erred = k e (sym (ap (λ y. recorded y.1) x) ∙ b.erred);
      }
    ]

after_run-silent : (r : Option RunError) → recorded (after_run r) ≡ none
unfolding after_run
after_run-silent none = refl
after_run-silent (some canceled) = refl
after_run-silent (some (failed e)) = refl

ended-IsValid :
    (s : Supervisor) (i : ℕ) (name : String) (r : Option RunError)
    → get_elem? s.roles i ≡ some (name, running)
    → IsValid s
    → IsValid (move s i name (after_run r))
ended-IsValid s i name r at_i v =
    let silent = after_run-silent r in
    let busy = all_stopped-set s.roles i (name, running) name running at_i (λ o. cc) in
    record {
      origin = λ n e h. Blames-set i (after_run r) at_i (λ x y. cc) (v.origin n e h);
      kept = λ j n e p h w. elim (get_elem?-set_cases s.roles j i (name, after_run r) (n, p) h) [
        | inl x ↦ let y : recorded p ≡ none = ap (λ z. recorded z.1) x ∙ silent in cc
        | inr old ↦ v.kept j n e p old w
      ];
      down = λ j n e h.
          elim (get_elem?-set_cases s.roles j i (name, after_run r) (n, stopped (some e)) h) [
            | inl x ↦ let y : some e ≡ none = ap (λ z. recorded z.1) x ∙ silent in cc
            | inr old ↦ v.down j n e old
          ];
      sound =
          Sound-move s.fatal_err s.fatal_err s.cancelled s.cancelled s.roles
            (set s.roles i (name, after_run r)) s.main busy (λ x. x) v.sound;
    }

-- The error that is recorded first stays.
first_error-kept : (o : Option (String × String)) (x : String × String) → first_error o x ≢ none
unfolding first_error
first_error-kept none x = λ h. cc
first_error-kept (some y) x = λ h. cc

first_error-origin :
    (roles : List (String × Phase)) (o : Option (String × String)) (a b n e : String)
    → first_error o (a, b) ≡ some (n, e)
    → Blames roles a b
    → ((n e : String) → o ≡ some (n, e) → Blames roles n e)
    → Blames roles n e
unfolding first_error
first_error-origin roles none a b n e h now before =
    let same : ◌≡◌ {A = String × String} (a, b) (n, e) = cc in
    subst (λ x. Blames roles x.0 x.1) same now
first_error-origin roles (some y) a b n e h now before = before n e h

blamed-IsValid :
    (s : Supervisor) (i : ℕ) (name e : String)
    → get_elem? s.roles i ≡ some (name, failing e)
    → IsValid s
    → IsValid (record_error (move s i name (cancelling e)) name e)
blamed-IsValid s i name e at_i v =
    let busy = all_stopped-set s.roles i (name, running) name (failing e) at_i (λ o. cc) in
    let after = set s.roles i (name, cancelling e) in
    record {
      origin = λ n f h.
          first_error-origin after s.fatal_err name e n f h
            (record {
              place = i;
              phase = cancelling e;
              stands = get_elem?-set_self s.roles i (name, failing e) (name, cancelling e) at_i;
              erred = refl;
            })
            (λ n f h. Blames-set i (cancelling e) at_i (λ x y. cc) (v.origin n f h));
      kept = λ j n f p h w. first_error-kept s.fatal_err (name, e);
      down = λ j n f h.
          elim (get_elem?-set_cases s.roles j i (name, cancelling e) (n, stopped (some f)) h) [
            | inl x ↦ cc
            | inr old ↦ v.down j n f old
          ];
      sound =
          Sound-move s.fatal_err (first_error s.fatal_err (name, e)) s.cancelled s.cancelled s.roles
            after s.main busy (λ x. x) v.sound;
    }

brought_down-IsValid :
    (s : Supervisor) (i : ℕ) (name e : String)
    → get_elem? s.roles i ≡ some (name, cancelling e)
    → IsValid s
    → IsValid (cancel (move s i name (stopped (some e))))
brought_down-IsValid s i name e at_i v =
    let busy = all_stopped-set s.roles i (name, running) name (cancelling e) at_i (λ o. cc) in
    let after = set s.roles i (name, stopped (some e)) in
    record {
      origin = λ n f h. Blames-set i (stopped (some e)) at_i (λ x y. y) (v.origin n f h);
      kept = λ j n f p h w.
          elim (get_elem?-set_cases s.roles j i (name, stopped (some e)) (n, p) h) [
            | inl x ↦ v.kept i name e (cancelling e) at_i refl
            | inr old ↦ v.kept j n f p old w
          ];
      down = λ j n f h. refl;
      sound =
          Sound-move s.fatal_err s.fatal_err s.cancelled true s.roles after s.main busy (λ x. refl)
            v.sound;
    }

Sound-cancel :
    (fatal : Option (String × String)) (c : Bool) (roles : List (String × Phase)) (m : MainPhase)
    → Sound fatal c roles m
    → Sound fatal true roles m
Sound-cancel fatal c roles waiting s = tt
Sound-cancel fatal c roles stopping s = refl
Sound-cancel fatal c roles (returned r) (x, y, z) = (refl, y, z)

pub step-IsValid : {s t : Supervisor} → Follows s t → IsValid s → IsValid t
step-IsValid {s} {t} (ended i name r at_i e) v =
    subst IsValid (sym e) (ended-IsValid s i name r at_i v)
step-IsValid {s} {t} (blamed i name x at_i e) v =
    subst IsValid (sym e) (blamed-IsValid s i name x at_i v)
step-IsValid {s} {t} (brought_down i name x at_i e) v =
    subst IsValid (sym e) (brought_down-IsValid s i name x at_i v)
step-IsValid {s} {t} (signalled c e) v = subst IsValid (sym e) (record {
  origin = v.origin;
  kept = v.kept;
  down = λ i n e h. refl;
  sound = Sound-cancel s.fatal_err s.cancelled s.roles s.main v.sound;
})
step-IsValid {s} {t} (noticed m c e) v =
    subst IsValid (sym e) (record { origin = v.origin; kept = v.kept; down = v.down; sound = c })
step-IsValid {s} {t} (finished m all e) v = subst IsValid (sym e) (record {
  origin = v.origin;
  kept = v.kept;
  down = v.down;
  sound = (subst (Sound s.fatal_err s.cancelled s.roles) m v.sound, refl, all);
})

pub run-IsValid : {s t : Supervisor} {es : List Event} → Runs s es t → IsValid s → IsValid t
run-IsValid (start s) v = v
run-IsValid (then {e = e} h more) v = run-IsValid more (step-IsValid (step-Follows e h) v)
