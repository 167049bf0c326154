-- ===== src/Common/Assoc.antt =====
-- A Go map as an association list with the keys in the order of their insertion. An entry for a
-- key that is present is replaced where it stands.
use Prim.Native.String.{String}
use Prim.Native.Nat.{ℕ, zero, suc}
use mathlib.Core.Path.{◌≡◌, refl, ap}
use mathlib.Core.Logic.{◌≢◌}
use mathlib.Core.Bool.{Bool, true, false}
use mathlib.Core.Option.{Option, none, some}
use mathlib.Core.List.{List, [], ◌∷◌, ◌++◌}
use native.Mathlib.Omega.{arith}
use text.Mathlib.Text.{◌==◌}
use text.Mathlib.TextEquality.{eq_iff}
use healthd.Common.Tests.{is_present, if◌then◌else◌}
use healthd.Common.Lists.{get_elem?}

abbrev pub contains : String → List String → Bool
contains k [] = false
contains k (j ∷ ks) = if j == k then true else contains k ks

-- No name stands twice in the list.
abbrev pub Distinct : List String → Type 0
Distinct [] = Unit
Distinct (k ∷ ks) = (contains k ks ≡ false) × Distinct ks

pub contains-append :
    (k : String) (xs ys : List String)
    → contains k (xs ++ ys) ≡ (if contains k xs then true else contains k ys)
contains-append k [] ys = refl
contains-append k (x ∷ xs) ys = ground (arith, contains-append k xs ys)

pub Distinct-append :
    (xs : List String) (k : String) → Distinct xs → contains k xs ≡ false → Distinct (xs ++ k ∷ [])
Distinct-append [] k d h = (refl, tt)
Distinct-append (x ∷ xs) k d h = (
  ground (arith, contains-append x xs (k ∷ []), eq_iff x k, eq_iff k x),
  Distinct-append xs k d.1 (ground (arith, eq_iff x k)),
)

module _ {ℓ} {V : Type ℓ} where
  -- `m[key]`, with none where the key is missing
  unfoldable pub lookup : String → List (String × V) → Option V
  lookup key [] = none
  lookup key (e ∷ es) = if e.0 == key then some e.1 else lookup key es

  -- `m[key] = value`
  unfoldable pub insert : String → V → List (String × V) → List (String × V)
  insert key value [] = (key, value) ∷ []
  insert key value (e ∷ es) = if e.0 == key then (key, value) ∷ es else e ∷ insert key value es

  -- What is found after an assignment.
  pub lookup-insert :
      (key asked : String) (value : V) (es : List (String × V))
      → lookup asked (insert key value es) ≡ (if key == asked then some value else lookup asked es)
  unfolding lookup insert
  lookup-insert key asked value [] = refl
  lookup-insert key asked value (e ∷ es) =
      ground (
        arith,
        lookup-insert key asked value es,
        eq_iff e.0 asked,
        eq_iff e.0 key,
        eq_iff key asked,
      )

  abbrev pub keys : List (String × V) → List String
  keys [] = []
  keys ((j, v) ∷ m) = j ∷ keys m

  pub contains-keys :
      (k : String) (m : List (String × V)) → contains k (keys m) ≡ is_present (lookup k m)
  unfolding lookup
  contains-keys k [] = refl
  contains-keys k ((j, v) ∷ m) = ground (arith, contains-keys k m)

  -- Replacing an entry keeps the keys and their order.
  pub keys-insert_present :
      (k : String) (v : V) (m : List (String × V))
      → is_present (lookup k m) ≡ true
      → keys (insert k v m) ≡ keys m
  unfolding lookup insert
  keys-insert_present k v [] h = cc
  keys-insert_present k v ((j, w) ∷ m) h = ground (arith, keys-insert_present k v m, eq_iff j k)

  -- A new entry comes last.
  pub keys-insert_absent :
      (k : String) (v : V) (m : List (String × V))
      → is_present (lookup k m) ≡ false
      → keys (insert k v m) ≡ keys m ++ k ∷ []
  unfolding lookup insert
  keys-insert_absent k v [] h = refl
  keys-insert_absent k v ((j, w) ∷ m) h = ground (arith, keys-insert_absent k v m, eq_iff j k)

pub contains-get_elem? :
    (ks : List String) (j : ℕ) (k : String) → get_elem? ks j ≡ some k → contains k ks ≡ true
contains-get_elem? [] j k h = cc
contains-get_elem? (x ∷ ks) zero k h = ground (arith, eq_iff x k)
contains-get_elem? (x ∷ ks) (suc j) k h = ground (arith, contains-get_elem? ks j k h)

-- Two positions of distinct names have two names.
pub Distinct-get_elem? :
    (ks : List String) (i j : ℕ) (a b : String)
    → Distinct ks
    → get_elem? ks i ≡ some a
    → get_elem? ks j ≡ some b
    → i ≢ j
    → (b == a) ≡ false
Distinct-get_elem? [] i j a b d p q h = cc
Distinct-get_elem? (k ∷ ks) zero zero a b d p q h = absurd (h refl)
Distinct-get_elem? (k ∷ ks) zero (suc j) a b d p q h =
    ground (arith, contains-get_elem? ks j b q, eq_iff b a)
Distinct-get_elem? (k ∷ ks) (suc i) zero a b d p q h =
    ground (arith, contains-get_elem? ks i a p, eq_iff b a)
Distinct-get_elem? (k ∷ ks) (suc i) (suc j) a b d p q h =
    Distinct-get_elem? ks i j a b d.1 p q (λ e. h (ap suc e))
