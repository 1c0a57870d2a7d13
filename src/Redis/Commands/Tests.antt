-- ===== src/Redis/Commands/Tests.antt =====
-- rediscpp: an array of two pairs.
use zylib.Prelude.{ℕ, ◌≡◌, List, [], ◌∷◌, ◌++◌}
use zylib.Redis.Commands.{returns, throws, exception, array_to_pair}
use zylib.Redis.Commands.Reading.{flat, array_to_pair-flat}

abbrev two_pairs : List (List ℕ × List ℕ)
two_pairs = (1 ∷ [], 2 ∷ []) ∷ ([], 3 ∷ []) ∷ []

array_to_pair-flat_example :
    (array_to_pair (flat two_pairs) ≡ returns two_pairs)
    × (array_to_pair (flat two_pairs ++ (4 ∷ []) ∷ []) ≡ throws exception)
array_to_pair-flat_example = array_to_pair-flat two_pairs (4 ∷ [])
