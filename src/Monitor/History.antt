-- ===== src/Monitor/History.antt =====
-- internal/monitor/history.go: the bounded history of a unit. A method that changes the ring returns
-- the new one. Go's `int` is a natural number here; the indices are those of History/Refine.antt.
pub mod Refine
use healthd.Common.{
  ℕ, zero, suc, ◌+◌, ◌-◌, ◌%◌, Bool, false, List, [], ◌∷◌, Option, none, some, length, get_elem?,
  replicate, set, ltb, if◌then◌else◌,
}
use healthd.Common.Int.{pos}
use healthd.Platform.{Platform}

abbrev pub history_cap : ℕ
history_cap = 100

pub record Ring (A : Type 0) : Type 0 where
  pub buf : List A
  pub head : ℕ
  pub len : ℕ

module _ {A : Type 0} where
  -- `make([]T, capacity)`, filled with the zero value of the element type.
  unfoldable pub new_ring : A → ℕ → Ring A
  new_ring zero_value capacity = record { buf = replicate capacity zero_value; head = 0; len = 0 }

  unfoldable pub add : Ring A → A → Ring A
  add r v = record {
    buf = set r.buf r.head v;
    head = (r.head + 1) % length r.buf;
    len = if ltb r.len (length r.buf) then r.len + 1 else r.len;
  }

  -- `append(out, r.buf[i])`, nothing where Go panics with an index out of range.
  abbrev pub append_at : Option A → List A → List A
  append_at none out = out
  append_at (some v) out = v ∷ out

  -- The loop of `slice` with `n` rounds left, at round `i`.
  unfoldable pub slice_from : List A → ℕ → ℕ → ℕ → List A
  slice_from buf start i zero = []
  slice_from buf start i (suc n) =
      append_at (get_elem? buf ((start + i) % length buf)) (slice_from buf start (suc i) n)

  -- `r.head - r.len + len(r.buf)` is not negative, so the order of the sum does not matter.
  unfoldable pub slice : Ring A → List A
  unfolding slice_from
  slice r = slice_from r.buf ((r.head + length r.buf - r.len) % length r.buf) 0 r.len

module _ (go : Platform) where
  open go use {Float, of_int, Time, zero_time}

  pub record CheckSample : Type 0 where
    pub time : Time
    pub success : Bool

  pub record SpeedSample : Type 0 where
    pub time : Time
    pub mbps : Float

  pub record UnitHistory : Type 0 where
    pub checks : Ring CheckSample
    pub speeds : Ring SpeedSample

  unfoldable pub new_unit_history : UnitHistory
  unfolding new_ring
  new_unit_history = record {
    checks = new_ring (record { time = zero_time; success = false }) history_cap;
    speeds = new_ring (record { time = zero_time; mbps = of_int (pos 0) }) history_cap;
  }
