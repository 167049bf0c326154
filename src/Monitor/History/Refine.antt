-- ===== src/Monitor/History/Refine.antt =====
-- The ring against its specification, the last samples of the log of all of them (history.go).
use healthd.Common.{
  ℕ, zero, suc, ◌+◌, ◌-◌, ◌%◌, ◌≤◌, ◌<◌, min, ◌≡◌, refl, sym, ap, ap₂, subst, ◌∙◌, List, [], ◌∷◌,
  ◌++◌, Option, none, some, length, get_elem?, take, drop, recent, get_elem?_lt, drop-get_elem?,
  append-nil, append_assoc, ◌⊎◌, inl, inr, take_all, length-drop, arith, ltb, ◌==◌, if◌then◌else◌,
}
use native.Mathlib.Decide.{dec_lt}
use native.Mathlib.Nat.{mod-eq_of_lt, zero-add, add-zero, suc-add}
use healthd.Circular.{contents, contents_full, contents_part, Holds, Holds-new, Holds-push}
use healthd.Monitor.History.{Ring, new_ring, add, append_at, slice_from, slice}

index_at : {j n k : ℕ} → (j ≡ k) ⊎ (j ≡ n + k) → k < n → j % n ≡ k
index_at (inl e) h = rw e (mod-eq_of_lt h)
index_at (inr e) h = rw e (grind arith)

module _ {A : Type 0} where
  -- The ring of capacity `capacity` stands for the log `log`.
  abbrev pub Keeps : ℕ → Ring A → List A → Type 0
  Keeps capacity r log = Holds capacity r.buf r.head r.len log

  pub add-Keeps :
      {capacity : ℕ} {r : Ring A} {log : List A} (v : A)
      → Keeps capacity r log
      → Keeps capacity (add r v) (log ++ v ∷ [])
  unfolding add
  add-Keeps {capacity} {r} {log} v k =
      let e : (if ltb r.len (length r.buf) then r.len + 1 else r.len)
          ≡ (if r.len == capacity then r.len else suc r.len) =
        ground (arith, k) in
      rw (e, k.size) (Holds-push v k)

  -- Rounds of the loop whose index, taken modulo the length, is `k` and then goes up by one.
  slice_from-run :
      (buf : List A) (start i k n : ℕ)
      → k + n ≤ length buf
      → (start + i ≡ k) ⊎ (start + i ≡ length buf + k)
      → slice_from buf start i n ≡ take n (drop k buf)
  unfolding slice_from
  slice_from-run buf start i k zero h at = refl
  slice_from-run buf start i k (suc n) h at =
      let (x, found) = get_elem?_lt buf k (omega arith) in
      let e : (start + i) % length buf ≡ k = index_at at (omega arith) in
      rw (e, found, drop-get_elem? buf k x found)
        (ap (λ l. x ∷ l) (slice_from-run buf start (suc i) (suc k) n (omega arith) (omega arith)))

  slice_from-add :
      (buf : List A) (start i a b : ℕ)
      → slice_from buf start i (a + b) ≡ slice_from buf start i a ++ slice_from buf start (i + a) b
  unfolding slice_from
  slice_from-add buf start i zero b = rw (zero-add, add-zero)
  slice_from-add buf start i (suc a) b = rw suc-add (
      ap (append_at (get_elem? buf ((start + i) % length buf))) (
        slice_from-add buf start (suc i) a b
        ∙ ap (λ k. slice_from buf start (suc i) a ++ slice_from buf start k b) later)
      ∙ append_at-append (get_elem? buf ((start + i) % length buf)) _ _)
    where
      later : suc i + a ≡ i + suc a
      later = omega arith

      append_at-append :
          (o : Option A) (xs ys : List A) → append_at o (xs ++ ys) ≡ append_at o xs ++ ys
      append_at-append none xs ys = refl
      append_at-append (some x) xs ys = refl

  slice-contents :
      {capacity : ℕ} {r : Ring A} {log : List A}
      → Keeps capacity r log
      → slice r ≡ contents capacity r.buf r.head r.len
  unfolding slice
  slice-contents {capacity} {r} {log} k = elim (dec_lt r.len capacity) [
    | yes p ↦
        let e : r.head ≡ r.len = k.filling p in
        let s : (r.head + length r.buf - r.len) % length r.buf ≡ 0 =
          index_at (inr (omega (arith, k))) (omega (arith, k)) in
        rw (s, e)
          (slice_from-run r.buf 0 0 0 r.len (omega (arith, k)) (omega arith)
            ∙ sym (contents_part capacity r.buf r.len r.len p))
    | no p ↦
        let e : r.len ≡ capacity = omega (arith, k) in
        let s : (r.head + length r.buf - r.len) % length r.buf ≡ r.head =
          index_at (inl (omega (arith, k))) (omega (arith, k)) in
        let split : r.len ≡ (length r.buf - r.head) + r.head = omega (arith, k) in
        rw s (
          ap (slice_from r.buf r.head 0) split
          ∙ slice_from-add r.buf r.head 0 (length r.buf - r.head) r.head
          ∙ ap₂ ◌++◌
              (slice_from-run r.buf r.head 0 r.head (length r.buf - r.head) (omega (arith, k))
                  (omega arith)
                ∙ take_all (length r.buf - r.head) (drop r.head r.buf)
                    (omega (arith, length-drop r.head r.buf)))
              (slice_from-run r.buf r.head (0 + (length r.buf - r.head)) 0 r.head (omega (arith, k))
                (omega (arith, k)))
          ∙ sym (contents_full capacity r.buf r.head r.len e))
  ]

  -- `slice` returns the last entries of the log, oldest first.
  pub slice-recent :
      {capacity : ℕ} {r : Ring A} {log : List A}
      → Keeps capacity r log
      → slice r ≡ recent capacity log
  slice-recent k = slice-contents k ∙ k.held

  -- The ring after a run of samples.
  abbrev pub add_all : Ring A → List A → Ring A
  add_all r [] = r
  add_all r (v ∷ vs) = add_all (add r v) vs

  pub add_all-Keeps :
      {capacity : ℕ} {r : Ring A} {log : List A} (vs : List A)
      → Keeps capacity r log
      → Keeps capacity (add_all r vs) (log ++ vs)
  add_all-Keeps [] k = rw append-nil k
  add_all-Keeps {capacity} {r} {log} (v ∷ vs) k =
      subst (Keeps capacity (add_all (add r v) vs)) (append_assoc log (v ∷ []) vs)
        (add_all-Keeps {r = add r v} {log = log ++ v ∷ []} vs (add-Keeps v k))

  pub new_ring-Keeps :
      (filler : A) (capacity : ℕ) → 0 < capacity → Keeps capacity (new_ring filler capacity) []
  unfolding new_ring
  new_ring-Keeps filler capacity p = Holds-new capacity filler p

  -- A ring of any capacity above 0, given any samples, returns exactly the last `capacity` of them,
  -- oldest first, and holds as many; `add` writes inside the buffer.
  pub add_all-slice :
      (filler : A) (capacity : ℕ) (vs : List A)
      → 0 < capacity
      → let r = add_all (new_ring filler capacity) vs in
        (slice r ≡ recent capacity vs)
        × (r.len ≡ min capacity (length vs))
        × (r.head < length r.buf)
  add_all-slice filler capacity vs p =
      let k = add_all-Keeps vs (new_ring-Keeps filler capacity p) in
      (slice-recent k, k.len_exact, omega (arith, k))
