-- ===== src/Monitor/Window.antt =====
-- internal/monitor/window.go. A method that changes the window returns the new one.
-- `size` is at least 1 (the caller tests WindowSize > 0). Go's `int` is a natural number here; the
-- bounds of the indices and counts are in Window/Bounds.antt.
pub mod Bounds
pub mod Refine
use healthd.Common.{
  ℕ, zero, suc, ◌+◌, ◌-◌, ◌%◌, Bool, true, false, List, [], ◌∷◌, replicate, set, ◌==◌,
  if◌then◌else◌,
}
use healthd.Common.Int.{pos}
use healthd.Platform.{Platform}

pub record Window : Type 0 where
  pub buf : List Bool
  pub size : ℕ
  pub head : ℕ
  pub len : ℕ
  pub sum : ℕ

unfoldable pub new_window : ℕ → Window
new_window n = record { buf = replicate n false; size = n; head = 0; len = 0; sum = 0 }

-- `w.buf[i]`, `false` where Go panics with an index out of range.
abbrev pub at : List Bool → ℕ → Bool
at [] i = false
at (b ∷ bs) zero = b
at (b ∷ bs) (suc i) = at bs i

-- The sum once the oldest result has been evicted from a full window. `w.sum--` runs only where the window holds the success that is evicted, so it stays at 0 or above.
unfoldable pub evicted : Window → ℕ
evicted w = if w.len == w.size then (if at w.buf w.head then w.sum - 1 else w.sum) else w.sum

unfoldable pub add : Window → Bool → Window
add w success = record {
  buf = set w.buf w.head success;
  size = w.size;
  head = (w.head + 1) % w.size;
  len = if w.len == w.size then w.len else suc w.len;
  sum = if success then suc (evicted w) else evicted w;
}

unfoldable pub full : Window → Bool
full w = w.len == w.size

unfoldable pub len : Window → ℕ
len w = w.len

module _ (go : Platform) where
  open go use {Float, of_int, mul_float, div_float}

  -- `float64(a) / float64(b) * 100`
  abbrev pub percentage : ℕ → ℕ → Float
  percentage a b = mul_float (div_float (of_int (pos a)) (of_int (pos b))) (of_int (pos 100))

  unfoldable pub availability : Window → Float
  availability w = if w.len == 0 then of_int (pos 100) else percentage w.sum w.len
