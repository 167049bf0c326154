-- ===== src/Common/Recent.antt =====
-- The most recent `n` entries of a log that grows at its end: what a bounded buffer keeps.
use Prim.Native.Nat.{ℕ, zero, suc, ◌-◌, ◌≤◌, ◌<◌, min}
use mathlib.Core.Path.{◌≡◌, refl, sym, ap, ◌∙◌}
use mathlib.Core.List.{List, [], ◌∷◌, ◌++◌}
use native.Mathlib.Omega.{arith}
use healthd.Common.Lists.{length, drop, length-append, length-drop}

module _ {ℓ} {A : Type ℓ} where
  abbrev pub recent : ℕ → List A → List A
  recent n xs = drop (length xs - n) xs

  drop-append_le : (k : ℕ) (xs ys : List A) → k ≤ length xs → drop k (xs ++ ys) ≡ drop k xs ++ ys
  drop-append_le zero xs ys h = refl
  drop-append_le (suc k) [] ys h = absurd (omega arith)
  drop-append_le (suc k) (x ∷ xs) ys h = drop-append_le k xs ys (omega arith)

  drop_one-drop : (k : ℕ) (xs : List A) → drop 1 (drop k xs) ≡ drop (suc k) xs
  drop_one-drop zero xs = refl
  drop_one-drop (suc k) [] = refl
  drop_one-drop (suc k) (x ∷ xs) = drop_one-drop k xs

  pub length-recent : (n : ℕ) (xs : List A) → length (recent n xs) ≡ min n (length xs)
  length-recent n xs = omega (arith, length-drop (length xs - n) xs)

  pub recent_short : (n : ℕ) (xs : List A) → length xs ≤ n → recent n xs ≡ xs
  recent_short n xs h = let e : length xs - n ≡ 0 = omega arith in rw e

  -- A new entry evicts the oldest once `n` are held.
  pub recent-append_full :
      (n : ℕ) (xs : List A) (v : A)
      → 0 < n
      → n ≤ length xs
      → recent n (xs ++ v ∷ []) ≡ drop 1 (recent n xs) ++ v ∷ []
  recent-append_full n xs v p h =
      let e : length (xs ++ v ∷ []) - n ≡ suc (length xs - n) =
        omega (arith, length-append xs (v ∷ [])) in
      rw e (
        drop-append_le (suc (length xs - n)) xs (v ∷ []) (omega arith)
        ∙ ap (λ l. l ++ v ∷ []) (sym (drop_one-drop (length xs - n) xs)))

  pub recent-append_room :
      (n : ℕ) (xs : List A) (v : A)
      → length xs < n
      → recent n (xs ++ v ∷ []) ≡ recent n xs ++ v ∷ []
  recent-append_room n xs v h =
      recent_short n (xs ++ v ∷ []) (omega (arith, length-append xs (v ∷ [])))
      ∙ ap (λ l. l ++ v ∷ []) (sym (recent_short n xs (omega arith)))
