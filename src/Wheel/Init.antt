-- ===== src/Wheel/Init.antt =====
-- zysoft/timer/timing_wheel.h: the wheel that the constructor makes.
use zylib.Prelude.{ℕ, zero, suc, ◌≤◌, ◌≡◌, refl, ap, List, [], arith, length, get_or, replicate}
use zylib.Wheel.{Entry, new_wheel, wheel_entries_count}
use zylib.Wheel.Slot.{holds_all}
use zylib.Wheel.Count.{Tracked}
use zylib.Wheel.Due.{Valid}

module _ (T : Type 0) where
  abbrev no_timers : ℕ → List (List (Entry T))
  no_timers n = replicate n []

  length-replicate : (n : ℕ) → length (no_timers n) ≡ n
  length-replicate zero = refl
  length-replicate (suc n) = ap suc (length-replicate n)

  no_entries : (n : ℕ) → wheel_entries_count (no_timers n) ≡ 0
  unfolding wheel_entries_count
  no_entries zero = refl
  no_entries (suc n) = omega (arith, no_entries n)

  holds_none : (i n : ℕ) → holds_all i (no_timers n) ≡ 0
  holds_none i zero = refl
  holds_none i (suc n) = omega (arith, holds_none i n)

  slots_empty : (i n : ℕ) → get_or (no_timers n) i [] ≡ []
  slots_empty i zero = refl
  slots_empty zero (suc n) = refl
  slots_empty (suc i) (suc n) = slots_empty i n

  new_wheel-Tracked : (n : ℕ) → 1 ≤ n → Tracked (new_wheel T n)
  unfolding new_wheel
  new_wheel-Tracked n h = record {
    some_slots = omega (arith, length-replicate n);
    sizes = omega (arith, no_entries n);
    ids = λ i. omega (arith, holds_none i n);
  }

  -- The wheel of at least one slot that the constructor makes is valid at every tick.
  pub new_wheel-Valid : (c n : ℕ) → 1 ≤ n → Valid c (new_wheel T n)
  unfolding new_wheel
  new_wheel-Valid c n h = record {
    tracked = new_wheel-Tracked n h;
    inside = λ i. rw (slots_empty i n) tt;
    ordered = λ i. rw (slots_empty i n) tt;
    soon = λ i. rw (slots_empty i n) tt;
  }
