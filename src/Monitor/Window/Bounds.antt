-- ===== src/Monitor/Window/Bounds.antt =====
-- The indices and counters of the window (internal/monitor/window.go) against their bounds.
use healthd.Common.{
  ◌≤◌, ◌<◌, ◌≡◌, sym, subst, ap, ◌∷◌, drop, false, ◌∙◌, Bool, true, List, arith, length, recent,
  count_true, count_true-le, length-recent,
}
use healthd.Circular.{Holds, oldest}
use healthd.Monitor.Window.{Window, at}
use healthd.Monitor.Window.Refine.{Tracks, at-get_elem?}

pub record IsValid (w : Window) : Type 0 where
  pub head_in : w.head < length w.buf
  pub len_le : w.len ≤ w.size
  pub sum_le : w.sum ≤ w.len
  pub sum_pos : w.len ≡ w.size → at w.buf w.head ≡ true → 0 < w.sum

-- A window that stands for a log of results has `head` inside the buffer, at most `size` results, no
-- more successes than results, and a success to subtract whenever `Add` evicts one.
pub Tracks-IsValid : {w : Window} {log : List Bool} → Tracks w log → IsValid w
Tracks-IsValid {w} {log} t = record {
  head_in = omega (arith, t.holds);
  len_le = omega (arith, t.holds);
  sum_le = omega (arith, t, count_true-le (recent w.size log), length-recent w.size log);
  sum_pos = λ e b.
      let (x, found, old) = oldest (subst (λ n. Holds w.size w.buf w.head n log) e t.holds) in
      evicts x (sym (at-get_elem? w.buf w.head x found) ∙ b) (t.sum_exact ∙ ap count_true old);
}
  where
    evicts : (x : Bool) → x ≡ true → w.sum ≡ count_true (x ∷ drop 1 (recent w.size log)) → 0 < w.sum
    evicts true h e = omega arith
    evicts false h e = cc
