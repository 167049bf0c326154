-- ===== src/Roles/Units/Names.antt =====
-- The names that the roles' constructors register (ping_monitor.go, url_monitor.go, internet_check.go,
-- speed_check.go): targets with distinct addresses have distinct names.
use text.Mathlib.Text.{◌==◌ as str_eq}
use text.Mathlib.TextLemmas.{append_cancel_left, append_inj, append_assoc as text-assoc}
use Prim.Native.String.{count}
use healthd.Common.{
  String, ◌<>◌, ◌≡◌, ◌≢◌, refl, sym, ap, ap₂, ◌∙◌, Bool, true, false, List, [], ◌∷◌, ◌++◌, Option,
  none, some, inl, inr, Bool-cases, eq_iff, if◌then◌else◌,
}
use healthd.Common.Int.{ℤ}
use healthd.Common.Assoc.{contains, contains-append, Distinct}
use healthd.Platform.{Platform}
use healthd.Monitor.StateMachine as Machine
use healthd.Roles.Units.{RoleTarget}
use healthd.Roles.Units.Enrolled.{target_names, name_if, fleet_names}

-- No name of the first list is in the second.
abbrev Apart : List String → List String → Type 0
Apart [] ys = Unit {0}
Apart (x ∷ xs) ys = (contains x ys ≡ false) × Apart xs ys

Distinct-append_list :
    (xs ys : List String) → Distinct xs → Distinct ys → Apart xs ys → Distinct (xs ++ ys)
Distinct-append_list [] ys d e a = e
Distinct-append_list (x ∷ xs) ys d e a = (
  contains-append x xs ys ∙ ap (λ b. if b then true else contains x ys) d.0 ∙ a.0,
  Distinct-append_list xs ys d.1 e a.1,
)

Apart-append : (xs ys zs : List String) → Apart xs zs → Apart ys zs → Apart (xs ++ ys) zs
Apart-append [] ys zs a b = b
Apart-append (x ∷ xs) ys zs a b = (a.0, Apart-append xs ys zs a.1 b)

not_equal : (a b : String) → a ≢ b → str_eq a b ≡ false
not_equal a b h = elim (Bool-cases (str_eq a b)) [
  | inl e ↦ absurd (h ((eq_iff a b).0 e))
  | inr e ↦ e
]

-- Names with different first letters.
first_differs :
    (c d s t : String) → count c ≡ count d → str_eq c d ≡ false → str_eq (c <> s) (d <> t) ≡ false
first_differs c d s t same h = not_equal (c <> s) (d <> t) (λ e.
    let equal : str_eq c d ≡ true = (eq_iff c d).1 (append_inj e same).0 in
    absurd (true_false equal h))
  where
    true_false : {b : Bool} → b ≡ true → b ≡ false → ⊥
    true_false p q = cc

-- Names of units of different roles.
url-ping : (a b : String) → str_eq ("url_monitor:" <> b) ("ping_monitor:" <> a) ≡ false
url-ping a b =
    ap₂ str_eq (text-assoc "u" "rl_monitor:" b) (text-assoc "p" "ing_monitor:" a)
    ∙ first_differs "u" "p" ("rl_monitor:" <> b) ("ing_monitor:" <> a) refl refl

internet-ping : (a : String) → str_eq "internet_check" ("ping_monitor:" <> a) ≡ false
internet-ping a =
    ap (str_eq "internet_check") (text-assoc "p" "ing_monitor:" a)
    ∙ first_differs "i" "p" "nternet_check" ("ing_monitor:" <> a) refl refl

internet-url : (a : String) → str_eq "internet_check" ("url_monitor:" <> a) ≡ false
internet-url a =
    ap (str_eq "internet_check") (text-assoc "u" "rl_monitor:" a)
    ∙ first_differs "i" "u" "nternet_check" ("rl_monitor:" <> a) refl refl

speed-ping : (a : String) → str_eq "speed_check" ("ping_monitor:" <> a) ≡ false
speed-ping a =
    ap (str_eq "speed_check") (text-assoc "p" "ing_monitor:" a)
    ∙ first_differs "s" "p" "peed_check" ("ing_monitor:" <> a) refl refl

speed-url : (a : String) → str_eq "speed_check" ("url_monitor:" <> a) ≡ false
speed-url a =
    ap (str_eq "speed_check") (text-assoc "u" "rl_monitor:" a)
    ∙ first_differs "s" "u" "peed_check" ("rl_monitor:" <> a) refl refl

module _ (go : Platform) where
  abbrev pub addresses : List (RoleTarget go) → List String
  addresses [] = []
  addresses (t ∷ ts) = t.address ∷ addresses ts

  prefix-str_eq : (prefix a b : String) → str_eq (prefix <> b) (prefix <> a) ≡ str_eq b a
  prefix-str_eq prefix a b = elim (Bool-cases (str_eq b a)) [
    | inl e ↦
        (eq_iff (prefix <> b) (prefix <> a)).1 (ap (λ x. prefix <> x) ((eq_iff b a).0 e)) ∙ sym e
    | inr e ↦
        not_equal (prefix <> b) (prefix <> a)
          (λ h. true_false ((eq_iff b a).1 (append_cancel_left prefix b a h)) e)
        ∙ sym e
  ]
    where
      true_false : {b : Bool} → b ≡ true → b ≡ false → ⊥
      true_false p q = cc

  contains-target_names :
      (prefix a : String) (ts : List (RoleTarget go))
      → contains (prefix <> a) (target_names go prefix ts) ≡ contains a (addresses ts)
  contains-target_names prefix a [] = refl
  contains-target_names prefix a (t ∷ ts) =
      ap (λ b. if b then true else contains (prefix <> a) (target_names go prefix ts))
        (prefix-str_eq prefix a t.address)
      ∙ ap (λ b. if str_eq t.address a then true else b) (contains-target_names prefix a ts)

  Distinct-target_names :
      (prefix : String) (ts : List (RoleTarget go))
      → Distinct (addresses ts)
      → Distinct (target_names go prefix ts)
  Distinct-target_names prefix [] d = tt
  Distinct-target_names prefix (t ∷ ts) d =
      (contains-target_names prefix t.address ts ∙ d.0, Distinct-target_names prefix ts d.1)

  contains-name_if :
      {A : Type 0} (o : Option A) (n k : String)
      → str_eq n k ≡ false
      → contains k (name_if go o n) ≡ false
  contains-name_if none n k h = refl
  contains-name_if (some a) n k h = rw h refl

  contains-url_names :
      (a : String) (ts : List (RoleTarget go))
      → contains ("ping_monitor:" <> a) (target_names go "url_monitor:" ts) ≡ false
  contains-url_names a [] = refl
  contains-url_names a (t ∷ ts) = rw (url-ping a t.address) (contains-url_names a ts)

  Apart-target_names :
      (prefix : String) (ts : List (RoleTarget go)) (ys : List String)
      → ((a : String) → contains (prefix <> a) ys ≡ false)
      → Apart (target_names go prefix ts) ys
  Apart-target_names prefix [] ys h = tt
  Apart-target_names prefix (t ∷ ts) ys h = (h t.address, Apart-target_names prefix ts ys h)

  Apart-name_if :
      {A : Type 0} (o : Option A) (n : String) (ys : List String)
      → contains n ys ≡ false
      → Apart (name_if go o n) ys
  Apart-name_if none n ys h = tt
  Apart-name_if (some a) n ys h = (h, tt)

  Distinct-name_if : {A : Type 0} (o : Option A) (n : String) → Distinct (name_if go o n)
  Distinct-name_if none n = tt
  Distinct-name_if (some a) n = (refl, tt)

  -- Targets with distinct addresses have distinct names, and the roles' names never collide.
  pub fleet_names-Distinct :
      (pings urls : List (RoleTarget go))
      (internet : Option (ℤ × ℤ × Machine.Config go × List String))
      (speed : Option (ℤ × Machine.Config go × List String))
      → Distinct (addresses pings)
      → Distinct (addresses urls)
      → Distinct (fleet_names go pings urls internet speed)
  fleet_names-Distinct pings urls internet speed d e =
      let ping_names = target_names go "ping_monitor:" pings in
      let url_names = target_names go "url_monitor:" urls in
      let one = name_if go internet "internet_check" in
      let other = name_if go speed "speed_check" in
      Distinct-append_list ((ping_names ++ url_names) ++ one) other
        (Distinct-append_list (ping_names ++ url_names) one
          (Distinct-append_list ping_names url_names (Distinct-target_names "ping_monitor:" pings d)
            (Distinct-target_names "url_monitor:" urls e)
            (Apart-target_names "ping_monitor:" pings url_names (λ a. contains-url_names a urls)))
          (Distinct-name_if internet "internet_check")
          (Apart-append ping_names url_names one
            (Apart-target_names "ping_monitor:" pings one (λ a.
              contains-name_if internet "internet_check" ("ping_monitor:" <> a) (internet-ping a)))
            (Apart-target_names "url_monitor:" urls one (λ a.
              contains-name_if internet "internet_check" ("url_monitor:" <> a) (internet-url a)))))
        (Distinct-name_if speed "speed_check")
        (Apart-append (ping_names ++ url_names) one other
          (Apart-append ping_names url_names other
            (Apart-target_names "ping_monitor:" pings other
              (λ a. contains-name_if speed "speed_check" ("ping_monitor:" <> a) (speed-ping a)))
            (Apart-target_names "url_monitor:" urls other
              (λ a. contains-name_if speed "speed_check" ("url_monitor:" <> a) (speed-url a))))
          (Apart-name_if internet "internet_check" other
            (contains-name_if speed "speed_check" "internet_check" refl)))
