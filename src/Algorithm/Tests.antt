-- ===== src/Algorithm/Tests.antt =====
-- experimental/Algorithm.h: the lists of the comments in it.
use zylib.Prelude.{
  ℕ, ◌+◌, ◌^◌, ◌≡◌, refl, some, List, [], ◌∷◌, ◌++◌, arith, ◌==◌, if◌then◌else◌, length,
}
use zylib.Algorithm.{
  combinational_loop, combinational_detail, combinational, permutation_loop, permutation,
}
use zylib.Algorithm.Combinations.{choose, combinational-choose}
use zylib.Algorithm.Counting.{sizes, permutation-sizes}

abbrev src : List ℕ
src = 1 ∷ (2 ∷ (3 ∷ []))

pairs_of_src :
    combinational src 2 (0 ∷ (0 ∷ [])) []
    ≡ some ((1 ∷ (2 ∷ [])) ∷ ((1 ∷ (3 ∷ [])) ∷ ((2 ∷ (3 ∷ [])) ∷ [])))
unfolding combinational combinational_detail combinational_loop
pairs_of_src = refl

all_of_src :
    permutation {A = ℕ} 0 (1 ∷ (2 ∷ [])) [] ≡ some ((1 ∷ []) ∷ ((2 ∷ []) ∷ ((1 ∷ (2 ∷ [])) ∷ [])))
unfolding permutation permutation_loop combinational combinational_detail combinational_loop
all_of_src = refl

combinational-choose_example :
    combinational src 2 (0 ∷ (0 ∷ (0 ∷ []))) [] ≡ some (if 2 == 0 then [] else [] ++ choose 2 src)
combinational-choose_example =
    combinational-choose src 2 (0 ∷ (0 ∷ (0 ∷ []))) [] (omega arith) (omega arith)

permutation-sizes_example :
    (permutation {A = ℕ} 0 src [] ≡ some ([] ++ sizes (length src) 1 src))
    × (length (sizes (length src) 1 src) + 1 ≡ 2 ^ length src)
permutation-sizes_example = permutation-sizes 0 src []
