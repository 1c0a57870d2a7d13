-- ===== src/RateGenerator/Shares.antt =====
-- experimental/RateGenerator.h: how often each item is drawn.
use zylib.Prelude.{
  ℕ, zero, suc, ◌+◌, ◌%◌, ◌^◌, ◌≤◌, ◌<◌, ◌≡◌, refl, ap, ap₂, ◌∙◌, inl, inr, Bool, true, false,
  Option, none, some, List, [], ◌∷◌, ◌++◌, append-nil, append_assoc, arith, ltb, leb, if◌then◌else◌,
  lt→ltb, ge→ltb, le→leb, gt→leb, Bool-cases,
}
use native.Mathlib.Nat.{mod-eq_of_lt}
use zylib.RateGenerator.{
  RateWrapper, RateGenarator, rate_genarator, put_res, put_all, find_range, rand_shuffle,
}

-- How many of the n numbers from b on pass a test.
pub count_from : (ℕ → Bool) → ℕ → ℕ → ℕ
count_from test b zero = 0
count_from test b (suc n) = (if test b then 1 else 0) + count_from test (suc b) n

count_from-add :
    (test : ℕ → Bool) (b m n : ℕ)
    → count_from test b (m + n) ≡ count_from test b m + count_from test (b + m) n
unfolding count_from
count_from-add test b zero n =
    let e : b + 0 ≡ b = omega arith in let z : 0 + n ≡ n = omega arith in rw (e, z) (omega arith)
count_from-add test b (suc m) n =
    let head : suc m + n ≡ suc (m + n) = omega arith in
    let next : b + suc m ≡ suc b + m = omega arith in
    rw (head, next) (omega (arith, count_from-add test (suc b) m n))

count_from-eq :
    (f g : ℕ → Bool) (b n : ℕ)
    → ((k : ℕ) → b ≤ k → k < b + n → f k ≡ g k)
    → count_from f b n ≡ count_from g b n
unfolding count_from
count_from-eq f g b zero same = refl
count_from-eq f g b (suc n) same = omega (
  arith,
  ap {B = ℕ} (λ (t : Bool). if t then 1 else 0) (same b (omega arith) (omega arith)),
  count_from-eq f g (suc b) n (λ k l h. same k (omega arith) (omega arith)),
)

count_from_all : (b n : ℕ) → count_from (λ k. true) b n ≡ n
unfolding count_from
count_from_all b zero = refl
count_from_all b (suc n) = omega (arith, count_from_all (suc b) n)

count_from_none : (b n : ℕ) → count_from (λ k. false) b n ≡ 0
unfolding count_from
count_from_none b zero = refl
count_from_none b (suc n) = omega (arith, count_from_none (suc b) n)

module _ {A : Type 0} (rates : A → ℕ) where
  -- The sum of the rates of the items that pass a test.
  pub weight : (A → Bool) → List A → ℕ
  weight test [] = 0
  weight test (item ∷ items) = (if test item then rates item else 0) + weight test items

  abbrev pub total : List A → ℕ
  total [] = 0
  total (item ∷ items) = rates item + total items

  -- The ranges of items that are put behind a divisor.
  abbrev ranges_from : ℕ → List A → List (RateWrapper A)
  ranges_from b [] = []
  ranges_from b (item ∷ items) =
      record { close_min = b; open_max = b + rates item; res = item }
      ∷ ranges_from (b + rates item) items

  put_all_lem :
      (items : List A) (g : RateGenarator A)
      → g.m_range_divisor + total items < 2 ^ 31
      → put_all rates items g
        ≡ some (record {
          m_range_divisor = g.m_range_divisor + total items;
          m_ranges = g.m_ranges ++ ranges_from g.m_range_divisor items;
        })
  unfolding put_all put_res
  put_all_lem [] g h = ground (arith, append-nil g.m_ranges)
  put_all_lem (item ∷ items) g h =
      let end = g.m_range_divisor + rates item in
      let wrapper : RateWrapper A = record {
        close_min = g.m_range_divisor;
        open_max = end;
        res = item;
      } in
      let fits : ltb end 0x80000000 ≡ true = lt→ltb _ _ (omega arith) in
      let next : RateGenarator A = record {
        m_range_divisor = end;
        m_ranges = g.m_ranges ++ wrapper ∷ [];
      } in
      let same : end + total items ≡ g.m_range_divisor + (rates item + total items) = omega arith in
      rw (put_all, fits)
        (put_all_lem items next (omega (arith, h))
          ∙ ap₂ (λ n r. some (record { m_range_divisor = n; m_ranges = r })) same
              (append_assoc g.m_ranges (wrapper ∷ []) (ranges_from end items)))

  -- A draw passes a test.
  abbrev pub draws : (A → Bool) → Option A → Bool
  draws test none = false
  draws test (some item) = test item

  -- The numbers in an item's own range draw it.
  own_share :
      (test : A → Bool) (b : ℕ) (item : A) (items : List A)
      → count_from
          (λ num. draws test (find_range num (ranges_from b (item ∷ items))))
          b
          (rates item)
        ≡ (if test item then rates item else 0)
  unfolding find_range
  own_share test b item items =
      count_from-eq (λ num. draws test (find_range num (ranges_from b (item ∷ items))))
        (λ num. test item) b (rates item) hit
      ∙ elim (Bool-cases (test item)) [
        | inl yes_item ↦ rw yes_item (count_from_all b (rates item))
        | inr other ↦ rw other (count_from_none b (rates item))
      ]
    where
      hit :
          (k : ℕ)
          → b ≤ k
          → k < b + rates item
          → draws test (find_range k (ranges_from b (item ∷ items))) ≡ test item
      hit k low high = rw (le→leb b k low, lt→ltb k (b + rates item) high) refl

  -- Those behind it go on to the other items.
  other_share :
      (test : A → Bool) (b n : ℕ) (item : A) (items : List A)
      → count_from
          (λ num. draws test (find_range num (ranges_from b (item ∷ items))))
          (b + rates item)
          n
        ≡ count_from
            (λ num. draws test (find_range num (ranges_from (b + rates item) items)))
            (b + rates item)
            n
  unfolding find_range
  other_share test b n item items = count_from-eq _ _ (b + rates item) n miss
    where
      miss :
          (k : ℕ)
          → b + rates item ≤ k
          → k < b + rates item + n
          → draws test (find_range k (ranges_from b (item ∷ items)))
            ≡ draws test (find_range k (ranges_from (b + rates item) items))
      miss k low high = rw (le→leb b k (omega arith), ge→ltb k (b + rates item) low) refl

  find_range-share :
      (test : A → Bool) (b : ℕ) (items : List A)
      → count_from (λ num. draws test (find_range num (ranges_from b items))) b (total items)
        ≡ weight test items
  unfolding find_range weight count_from
  find_range-share test b [] = refl
  find_range-share test b (item ∷ items) =
      let f : ℕ → Bool = λ num. draws test (find_range num (ranges_from b (item ∷ items))) in
      omega (
        arith,
        count_from-add f b (rates item) (total items),
        own_share test b item items,
        other_share test b (total items) item items,
        find_range-share test (b + rates item) items,
      )

  -- Items are put whose rates sum up to less than 2 ^ 31. Then nothing overflows, and of the numbers below the
  -- sum that rand() may give, as many draw an item that passes a test as the rates of such items sum up to.
  pub rand_shuffle-share :
      (test : A → Bool) (items : List A)
      → total items < 2 ^ 31
      → (g : RateGenarator A) × (put_all rates items rate_genarator ≡ some g)
        × (count_from (λ rand. draws test (rand_shuffle rand g)) 0 (total items)
            ≡ weight test items)
  unfolding rand_shuffle rate_genarator
  rand_shuffle-share test items h = (
    _,
    put_all_lem items rate_genarator (omega arith),
    count_from-eq _ (λ num. draws test (find_range num (ranges_from 0 items))) 0 (total items) whole
        ∙ find_range-share test 0 items,
  )
    where
      whole :
          (k : ℕ)
          → 0 ≤ k
          → k < 0 + total items
          → draws test (
              if leb (0 + total items) 0
              then none
              else find_range (k % (0 + total items)) (ranges_from 0 items))
            ≡ draws test (find_range k (ranges_from 0 items))
      whole k low high = rw (gt→leb (0 + total items) 0 (omega arith), mod-eq_of_lt high) refl
