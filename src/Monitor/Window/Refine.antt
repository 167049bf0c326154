-- ===== src/Monitor/Window/Refine.antt =====
-- The window against its specification, the last `size` results of the log of all of them.
use healthd.Common.{
  ℕ, zero, suc, ◌-◌, ◌<◌, min, ◌≡◌, refl, sym, subst, ap, ◌∙◌, Bool, true, false, List, [], ◌∷◌,
  ◌++◌, some, arith, length, get_elem?, drop, recent, recent_short, leb, count_true,
  count_true-append, append_assoc, append-nil, recent-append_full, recent-append_room, ◌==◌,
  if◌then◌else◌,
}
use native.Mathlib.Decide.{dec_lt}
use healthd.Circular.{contents, Holds, Holds-new, Holds-push, oldest}
use healthd.Monitor.Window.{Window, new_window, full, len, add, evicted, at}

-- The window `w` stands for the log `log`.
pub record Tracks (w : Window) (log : List Bool) : Type 0 where
  pub holds : Holds w.size w.buf w.head w.len log
  pub sum_exact : w.sum ≡ count_true (recent w.size log)

pub at-get_elem? : (bs : List Bool) (i : ℕ) (b : Bool) → get_elem? bs i ≡ some b → at bs i ≡ b
at-get_elem? [] i b h = cc
at-get_elem? (x ∷ bs) zero b h = cc
at-get_elem? (x ∷ bs) (suc i) b h = at-get_elem? bs i b h

-- An empty window stands for the empty log.
pub new_window-Tracks : (n : ℕ) → 0 < n → Tracks (new_window n) []
unfolding new_window
new_window-Tracks n p = record {
  holds = Holds-new n false p;
  sum_exact = ap count_true (sym (recent_short n [] (omega arith)));
}

count_true-snoc :
    (b : Bool) (k : List Bool)
    → (if b then suc (count_true k) else count_true k) ≡ count_true (k ++ b ∷ [])
count_true-snoc true k = omega (arith, count_true-append k (true ∷ []))
count_true-snoc false k = omega (arith, count_true-append k (false ∷ []))

-- What `add` leaves in the sum before it counts the new result is the number of successes kept.
evicted_lem :
    {w : Window} {log : List Bool} (b : Bool)
    → Tracks w log
    → (k : List Bool) × (evicted w ≡ count_true k) × (recent w.size (log ++ b ∷ []) ≡ k ++ b ∷ [])
unfolding evicted
evicted_lem {w} {log} b t = elim (dec_lt w.len w.size) [
  | yes p ↦
      let e : (w.len == w.size) ≡ false = ground arith in
      (
        recent w.size log,
        rw e t.sum_exact,
        recent-append_room w.size log b (omega (arith, t.holds)),
      )
  | no p ↦
      let e : w.len ≡ w.size = omega (arith, t.holds) in
      let e' : (w.len == w.size) ≡ true = ground arith in
      let (x, found, old) = oldest (subst (λ n. Holds w.size w.buf w.head n log) e t.holds) in
      (
        drop 1 (recent w.size log),
        rw e' (
            rw (at-get_elem? w.buf w.head x found)
              (drop_oldest x _ (t.sum_exact ∙ ap count_true old))),
        recent-append_full w.size log b (omega (arith, t.holds)) (omega (arith, t.holds)),
      )
]
  where
    drop_oldest :
        (x : Bool) (k : List Bool)
        → w.sum ≡ count_true (x ∷ k)
        → (if x then w.sum - 1 else w.sum) ≡ count_true k
    drop_oldest true k h = omega arith
    drop_oldest false k h = h

-- `add` extends the log by one result.
pub add-Tracks :
    {w : Window} {log : List Bool} (b : Bool) → Tracks w log → Tracks (add w b) (log ++ b ∷ [])
unfolding add
add-Tracks {w} {log} b t =
    let (k, sum_kept, now) = evicted_lem b t in
    record { holds = Holds-push b t.holds; sum_exact = rw (now, sum_kept) (count_true-snoc b k) }

-- The window after a run of results.
abbrev pub add_all : Window → List Bool → Window
add_all w [] = w
add_all w (b ∷ bs) = add_all (add w b) bs

pub add_all-Tracks :
    {w : Window} {log : List Bool} (bs : List Bool)
    → Tracks w log
    → Tracks (add_all w bs) (log ++ bs)
add_all-Tracks {w} {log} [] t = rw append-nil t
add_all-Tracks {w} {log} (b ∷ bs) t =
    subst (Tracks (add_all (add w b) bs)) (append_assoc log (b ∷ []) bs)
      (add_all-Tracks {w = add w b} {log = log ++ b ∷ []} bs (add-Tracks b t))

pub size-add_all : (w : Window) (bs : List Bool) → (add_all w bs).size ≡ w.size
unfolding add
size-add_all w [] = refl
size-add_all w (b ∷ bs) = size-add_all (add w b) bs

-- A window of size `n` that has been given any results holds exactly the last `n` of them, oldest
-- first from `head` on, counts them and the successes among them, and is full once `n` have come.
pub add_all-recent :
    (n : ℕ) (bs : List Bool)
    → 0 < n
    → let w = add_all (new_window n) bs in
      (contents n w.buf w.head w.len ≡ recent n bs)
      × (len w ≡ min n (length bs))
      × (w.sum ≡ count_true (recent n bs))
      × (full w ≡ leb n (length bs))
unfolding full new_window len
add_all-recent n bs p =
    let w = add_all (new_window n) bs in
    let t : Tracks w bs = add_all-Tracks bs (new_window-Tracks n p) in
    let e : w.size ≡ n = size-add_all (new_window n) bs in
    let c : w.len ≡ min n (length bs) = rw e at t.holds.len_exact in
    (rw e at t.holds.held, c, rw e at t.sum_exact, rw (e, c) (ground arith))
