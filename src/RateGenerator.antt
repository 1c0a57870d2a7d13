-- ===== src/RateGenerator.antt =====
-- experimental/RateGenerator.h: a draw by weight. A rate is an int that is not negative; `none` is
-- a sum of rates that overflows an int. A draw is given the number that rand() gives.
pub mod Shares
mod Tests
use zylib.Prelude.{
  ℕ, ◌+◌, ◌%◌, ◌&&◌, Option, none, some, List, [], ◌∷◌, ◌++◌, ltb, leb, if◌then◌else◌,
}

pub record RateWrapper (A : Type 0) : Type 0 where
  pub close_min : ℕ
  pub open_max : ℕ
  pub res : A

pub record RateGenarator (A : Type 0) : Type 0 where
  pub m_range_divisor : ℕ
  pub m_ranges : List (RateWrapper A)

module _ {A : Type 0} where
  unfoldable pub rate_genarator : RateGenarator A
  rate_genarator = record { m_range_divisor = 0; m_ranges = [] }

  -- putRes, of an item and what `rates` gives for it.
  unfoldable pub put_res : A → ℕ → RateGenarator A → Option (RateGenarator A)
  put_res item val g =
      let end = g.m_range_divisor + val in
      if ltb end 0x80000000
      then some (record {
        m_range_divisor = end;
        m_ranges =
            g.m_ranges ++ record { close_min = g.m_range_divisor; open_max = end; res = item } ∷ [];
      })
      else none

  -- The constructor from a range of items.
  unfoldable pub put_all : (A → ℕ) → List A → RateGenarator A → Option (RateGenarator A)
  put_all rates [] g = some g
  put_all rates (item ∷ items) g = elim (put_res item (rates item) g) [
    | none ↦ none
    | some next ↦ put_all rates items next
  ]

  -- The loop of randShuffle.
  unfoldable pub find_range : ℕ → List (RateWrapper A) → Option A
  find_range num [] = none
  find_range num (wrapper ∷ ranges) =
      if leb wrapper.close_min num && ltb num wrapper.open_max
      then some wrapper.res
      else find_range num ranges

  unfoldable pub rand_shuffle : ℕ → RateGenarator A → Option A
  rand_shuffle rand g =
      if leb g.m_range_divisor 0 then none else find_range (rand % g.m_range_divisor) g.m_ranges
