-- ===== src/Roles/Calls/Sent.antt =====
-- The alerts that each goroutine dispatched (dispatchEvent of internal/roles/roles.go), and the rounds
-- that a series of moves begins.
use healthd.Common.{
  ℕ, ◌≡◌, ◌≢◌, refl, sym, ap, true, false, List, [], ◌∷◌, Option, none, some, inl, inr, Bool-cases,
  arith, ◌==◌, if◌then◌else◌,
}
use healthd.Platform.{Platform}
use healthd.Roles.Check.{Alert}
use healthd.Roles.Units.{Round}
use healthd.Roles.Calls.{sent_with, Move, ticks, calls, returns}
use healthd.Roles.Calls.Outcome.{alerts_with}

pub equal : {a b : ℕ} → (a == b) ≡ true → a ≡ b
equal h = ground arith

pub unequal : {a b : ℕ} → (a == b) ≡ false → b ≢ a
unequal h e = ground arith

equal_self : (a : ℕ) → (a == a) ≡ true
equal_self a = ground arith

pub unequal_other : {a b : ℕ} → b ≢ a → (a == b) ≡ false
unequal_other {a} {b} h = elim (Bool-cases (a == b)) [
  | inl e ↦ absurd (h (sym (equal e)))
  | inr e ↦ e
]

module _ (go : Platform) where
  -- The alerts that one unit dispatched.
  unfoldable pub alerts_from : {E : Type 0} → ℕ → List (ℕ × Alert go E) → List (Alert go E)
  alerts_from i [] = []
  alerts_from i ((j, a) ∷ sent) = let rest = alerts_from i sent in if j == i then a ∷ rest else rest

  -- The rounds that the moves begin.
  abbrev pub begun : {E : Type 0} → List (Move go E) → List (Round go E)
  begun [] = []
  begun (ticks c ∷ mvs) = c ∷ begun mvs
  begun (calls i ∷ mvs) = begun mvs
  begun (returns i ∷ mvs) = begun mvs

  pub alerts_from-sent_own :
      {E : Type 0} (i : ℕ) (a : Option (Alert go E)) (sent : List (ℕ × Alert go E))
      → alerts_from i (sent_with go i a sent) ≡ alerts_with go a (alerts_from i sent)
  unfolding alerts_from
  alerts_from-sent_own i none sent = refl
  alerts_from-sent_own i (some a) [] = rw (equal_self i) refl
  alerts_from-sent_own i (some a) ((j, b) ∷ sent) = elim (Bool-cases (j == i)) [
    | inl e ↦ rw e (ap (λ l. b ∷ l) (alerts_from-sent_own i (some a) sent))
    | inr e ↦ rw e (alerts_from-sent_own i (some a) sent)
  ]

  pub alerts_from-sent_other :
      {E : Type 0} (i j : ℕ) (a : Option (Alert go E)) (sent : List (ℕ × Alert go E))
      → i ≢ j
      → alerts_from i (sent_with go j a sent) ≡ alerts_from i sent
  unfolding alerts_from
  alerts_from-sent_other i j none sent h = refl
  alerts_from-sent_other i j (some a) [] h = rw (unequal_other h) refl
  alerts_from-sent_other i j (some a) ((k, b) ∷ sent) h =
      ap (λ rest. if k == i then b ∷ rest else rest) (alerts_from-sent_other i j (some a) sent h)
