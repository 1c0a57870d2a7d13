-- ===== src/Redis/Commands/Reading.antt =====
-- rediscpp/Utile.cpp: replies that are arrays of pairs, and the text that DEL sends.
use zylib.Prelude.{
  ℕ, ◌%◌, ◌≡◌, refl, ap, List, [], ◌∷◌, ◌++◌, append-nil, append_assoc, arith, length,
}
use zylib.Redis.Commands.{Conn, returns, throws, exception, to_pairs, array_to_pair, c_str}
use zylib.Redis.Commands.Keys.{space, spaced, del}

-- The elements of an array of pairs.
abbrev pub flat : List (List ℕ × List ℕ) → List (List ℕ)
flat [] = []
flat ((key, value) ∷ ps) = key ∷ (value ∷ flat ps)

to_pairs-flat : (ps : List (List ℕ × List ℕ)) → to_pairs (flat ps) ≡ returns ps
unfolding to_pairs
to_pairs-flat [] = refl
to_pairs-flat ((key, value) ∷ ps) = rw (to_pairs, to_pairs-flat ps) refl

length-flat :
    (ps : List (List ℕ × List ℕ)) (rest : List (List ℕ))
    → length (flat ps ++ rest) % 2 ≡ length rest % 2
length-flat [] rest = refl
length-flat ((key, value) ∷ ps) rest = omega (arith, length-flat ps rest)

-- An array of pairs is read as the pairs, in order, and one with another element behind them throws an
-- Exception.
pub array_to_pair-flat :
    (ps : List (List ℕ × List ℕ)) (key : List ℕ)
    → (array_to_pair (flat ps) ≡ returns ps)
      × (array_to_pair (flat ps ++ key ∷ []) ≡ throws exception)
unfolding array_to_pair
array_to_pair-flat ps key =
    let all = append-nil (flat ps) in
    let even : length (flat ps) % 2 ≡ 0 = omega (arith, length-flat ps [], ap length all) in
    let odd : length (flat ps ++ key ∷ []) % 2 ≡ 1 = omega (arith, length-flat ps (key ∷ [])) in
    (rw (array_to_pair, even) (to_pairs-flat ps), rw (array_to_pair, odd) refl)

c_str-zero : (xs ys : List ℕ) → c_str (xs ++ 0 ∷ ys) ≡ c_str xs
c_str-zero [] ys = refl
c_str-zero (x ∷ xs) ys = rw (c_str-zero xs ys) refl

-- The keys of DEL are not kept apart: a key with a space in it is sent as two keys, and behind a zero byte in
-- a key nothing is sent, so the keys behind it are not deleted.
pub del-spaced :
    (conn : Conn) (a b : List ℕ) (keys : List (List ℕ))
    → (del conn ((a ++ space ∷ b) ∷ keys) ≡ del conn (a ∷ (b ∷ keys)))
      × (del conn ((a ++ 0 ∷ b) ∷ keys) ≡ del conn (a ∷ []))
unfolding del
del-spaced conn a b keys =
    let split : (a ++ space ∷ b) ++ spaced keys ≡ a ++ spaced (b ∷ keys) =
      append_assoc a (space ∷ b) (spaced keys) in
    let cut : (a ++ 0 ∷ b) ++ spaced keys ≡ a ++ 0 ∷ (b ++ spaced keys) =
      append_assoc a (0 ∷ b) (spaced keys) in
    (rw split refl, rw (cut, c_str-zero a (b ++ spaced keys), append-nil a) refl)
