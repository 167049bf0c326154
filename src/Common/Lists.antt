-- ===== src/Common/Lists.antt =====
-- Lists measured and indexed by native numbers, under the library's names.
use Prim.Native.Nat.{ℕ, zero, suc, ◌+◌, ◌-◌, ◌≤◌, ◌<◌, min}
use mathlib.Core.Path.{◌≡◌, refl, ap}
use mathlib.Core.Logic.{◌≢◌, ◌⊎◌, inl, inr}
use mathlib.Core.Bool.{Bool, true, false}
use mathlib.Core.List.{List, [], ◌∷◌, ◌++◌}
use mathlib.Core.Option.{Option, none, some}
use native.Mathlib.Omega.{arith}

module _ {ℓ} {A : Type ℓ} where
  abbrev pub length : List A → ℕ
  length [] = 0
  length (x ∷ xs) = suc (length xs)

  abbrev pub get_elem? : List A → ℕ → Option A
  get_elem? [] i = none
  get_elem? (x ∷ xs) zero = some x
  get_elem? (x ∷ xs) (suc i) = get_elem? xs i

  -- A write out of bounds changes nothing.
  abbrev pub set : List A → ℕ → A → List A
  set [] i v = []
  set (x ∷ xs) zero v = v ∷ xs
  set (x ∷ xs) (suc i) v = x ∷ set xs i v

  abbrev pub take : ℕ → List A → List A
  take zero xs = []
  take (suc n) [] = []
  take (suc n) (x ∷ xs) = x ∷ take n xs

  abbrev pub drop : ℕ → List A → List A
  drop zero xs = xs
  drop (suc n) [] = []
  drop (suc n) (x ∷ xs) = drop n xs

  abbrev pub replicate : ℕ → A → List A
  replicate zero a = []
  replicate (suc n) a = a ∷ replicate n a

  pub length-append : (xs ys : List A) → length (xs ++ ys) ≡ length xs + length ys
  length-append [] ys = omega arith
  length-append (x ∷ xs) ys = omega (arith, length-append xs ys)

  pub length-set : (xs : List A) (i : ℕ) (v : A) → length (set xs i v) ≡ length xs
  length-set [] i v = refl
  length-set (x ∷ xs) zero v = refl
  length-set (x ∷ xs) (suc i) v = ap suc (length-set xs i v)

  pub length-take : (n : ℕ) (xs : List A) → length (take n xs) ≡ min n (length xs)
  length-take zero xs = omega arith
  length-take (suc n) [] = omega arith
  length-take (suc n) (x ∷ xs) = omega (arith, length-take n xs)

  pub length-drop : (n : ℕ) (xs : List A) → length (drop n xs) ≡ length xs - n
  length-drop zero xs = omega arith
  length-drop (suc n) [] = omega arith
  length-drop (suc n) (x ∷ xs) = omega (arith, length-drop n xs)

  pub length-replicate : (n : ℕ) (a : A) → length (replicate n a) ≡ n
  length-replicate zero a = refl
  length-replicate (suc n) a = ap suc (length-replicate n a)

  -- Writing just past a prefix extends the prefix.
  pub take-set :
      (xs : List A) (i : ℕ) (v : A)
      → i < length xs
      → take (suc i) (set xs i v) ≡ take i xs ++ v ∷ []
  take-set [] i v h = absurd (omega arith)
  take-set (x ∷ xs) zero v h = refl
  take-set (x ∷ xs) (suc i) v h = ap (λ l. x ∷ l) (take-set xs i v (omega arith))

  -- Nor does a write change what lies behind it.
  pub drop-set : (xs : List A) (i : ℕ) (v : A) → drop (suc i) (set xs i v) ≡ drop (suc i) xs
  drop-set [] i v = refl
  drop-set (x ∷ xs) zero v = refl
  drop-set (x ∷ xs) (suc i) v = drop-set xs i v

  pub drop-get_elem? :
      (xs : List A) (i : ℕ) (x : A) → get_elem? xs i ≡ some x → drop i xs ≡ x ∷ drop (suc i) xs
  drop-get_elem? [] i x h = cc
  drop-get_elem? (y ∷ ys) zero x h = cc
  drop-get_elem? (y ∷ ys) (suc i) x h = drop-get_elem? ys i x h

  pub get_elem?_lt : (xs : List A) (i : ℕ) → i < length xs → (x : A) × (get_elem? xs i ≡ some x)
  get_elem?_lt [] i h = absurd (omega arith)
  get_elem?_lt (x ∷ xs) zero h = (x, refl)
  get_elem?_lt (x ∷ xs) (suc i) h = get_elem?_lt xs i (omega arith)

  pub drop_all : (n : ℕ) (xs : List A) → length xs ≤ n → drop n xs ≡ []
  drop_all zero [] h = refl
  drop_all zero (x ∷ xs) h = absurd (omega arith)
  drop_all (suc n) [] h = refl
  drop_all (suc n) (x ∷ xs) h = drop_all n xs (omega arith)

  pub take_all : (n : ℕ) (xs : List A) → length xs ≤ n → take n xs ≡ xs
  take_all zero [] h = refl
  take_all zero (x ∷ xs) h = absurd (omega arith)
  take_all (suc n) [] h = refl
  take_all (suc n) (x ∷ xs) h = ap (λ l. x ∷ l) (take_all n xs (omega arith))

-- How many entries are true.
abbrev pub count_true : List Bool → ℕ
count_true [] = 0
count_true (true ∷ bs) = suc (count_true bs)
count_true (false ∷ bs) = count_true bs

pub count_true-append : (xs ys : List Bool) → count_true (xs ++ ys) ≡ count_true xs + count_true ys
count_true-append [] ys = omega arith
count_true-append (true ∷ xs) ys = omega (arith, count_true-append xs ys)
count_true-append (false ∷ xs) ys = count_true-append xs ys

pub count_true-le : (bs : List Bool) → count_true bs ≤ length bs
count_true-le [] = omega arith
count_true-le (true ∷ bs) = omega (arith, count_true-le bs)
count_true-le (false ∷ bs) = omega (arith, count_true-le bs)

module _ {ℓ} {A : Type ℓ} where
  -- A read after a write.
  pub get_elem?-set_self :
      (xs : List A) (i : ℕ) (x v : A) → get_elem? xs i ≡ some x → get_elem? (set xs i v) i ≡ some v
  get_elem?-set_self [] i x v h = cc
  get_elem?-set_self (y ∷ ys) zero x v h = refl
  get_elem?-set_self (y ∷ ys) (suc i) x v h = get_elem?-set_self ys i x v h

  pub get_elem?-set_other :
      (xs : List A) (i j : ℕ) (v : A) → i ≢ j → get_elem? (set xs j v) i ≡ get_elem? xs i
  get_elem?-set_other [] i j v h = refl
  get_elem?-set_other (y ∷ ys) zero zero v h = absurd (h refl)
  get_elem?-set_other (y ∷ ys) zero (suc j) v h = refl
  get_elem?-set_other (y ∷ ys) (suc i) zero v h = refl
  get_elem?-set_other (y ∷ ys) (suc i) (suc j) v h =
      get_elem?-set_other ys i j v (λ e. h (ap suc e))

  -- What stands in a list after a write is what was written or stood there before.
  pub get_elem?-set_cases :
      (xs : List A) (i j : ℕ) (v y : A)
      → get_elem? (set xs j v) i ≡ some y
      → (y ≡ v) ⊎ (get_elem? xs i ≡ some y)
  get_elem?-set_cases [] i j v y h = inr h
  get_elem?-set_cases (x ∷ xs) zero zero v y h = inl cc
  get_elem?-set_cases (x ∷ xs) zero (suc j) v y h = inr h
  get_elem?-set_cases (x ∷ xs) (suc i) zero v y h = inr h
  get_elem?-set_cases (x ∷ xs) (suc i) (suc j) v y h = get_elem?-set_cases xs i j v y h

  -- What stood in a list before a write stands there still, unless the write replaced it.
  pub get_elem?-set_kept :
      (xs : List A) (i j : ℕ) (v x y : A)
      → get_elem? xs j ≡ some x
      → get_elem? xs i ≡ some y
      → ((y ≡ x) × (get_elem? (set xs j v) i ≡ some v)) ⊎ (get_elem? (set xs j v) i ≡ some y)
  get_elem?-set_kept [] i j v x y hj h = cc
  get_elem?-set_kept (z ∷ xs) zero zero v x y hj h = inl (cc, refl)
  get_elem?-set_kept (z ∷ xs) zero (suc j) v x y hj h = inr h
  get_elem?-set_kept (z ∷ xs) (suc i) zero v x y hj h = inr h
  get_elem?-set_kept (z ∷ xs) (suc i) (suc j) v x y hj h = get_elem?-set_kept xs i j v x y hj h
