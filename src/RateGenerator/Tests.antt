-- ===== src/RateGenerator/Tests.antt =====
-- experimental/RateGenerator.h: draws at concrete inputs, those of the comment at its top.
use zylib.Prelude.{ℕ, ◌≡◌, refl, none, some, List, [], ◌∷◌, arith, ◌==◌, if◌then◌else◌}
use zylib.RateGenerator.{RateGenarator, rate_genarator, put_res, put_all, find_range, rand_shuffle}
use zylib.RateGenerator.Shares.{count_from, weight, total, draws, rand_shuffle-share}

abbrev rates : ℕ → ℕ
rates item = if item == 2 then 200 else 100

abbrev items : List ℕ
items = 1 ∷ (2 ∷ (3 ∷ (4 ∷ [])))

third_drawn :
    (elim (put_all rates items rate_genarator) [ none ↦ none | some g ↦ rand_shuffle 1300 g ])
    ≡ some 3
unfolding rand_shuffle put_all put_res rate_genarator find_range
third_drawn = refl

overflows : put_all {A = ℕ} (λ item. 0x40000000) items rate_genarator ≡ none
unfolding put_all put_res rate_genarator
overflows = refl

rand_shuffle-share_example :
    (g : RateGenarator ℕ) × (put_all rates items rate_genarator ≡ some g)
    × (count_from
          (λ rand. draws rates (λ item. item == 2) (rand_shuffle rand g))
          0
          (total rates items)
        ≡ weight rates (λ item. item == 2) items)
rand_shuffle-share_example = rand_shuffle-share rates (λ item. item == 2) items (omega arith)
