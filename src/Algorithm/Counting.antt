-- ===== src/Algorithm/Counting.antt =====
-- experimental/Algorithm.h: permutation, which gives the combinations of every size, and their number.
use zylib.Prelude.{
  ℕ, zero, suc, ◌+◌, ◌^◌, ◌≤◌, ◌<◌, ◌≡◌, refl, sym, ap, ◌∙◌, false, some, List, [], ◌∷◌, ◌++◌, map,
  append-nil, append_assoc, arith, ◌==◌, length, replicate, length-append,
}
use native.Mathlib.Nat.{two-pow-succ}
use zylib.Algorithm.{combinational, permutation_loop, permutation}
use zylib.Algorithm.Combinations.{choose, combinational-choose}

length-replicate {ℓ} : {A : Type ℓ} (n : ℕ) (a : A) → length (replicate n a) ≡ n
length-replicate zero a = refl
length-replicate (suc n) a = ap suc (length-replicate n a)

length-map {ℓ κ} :
    {A : Type ℓ} {B : Type κ} (f : A → B) (xs : List A) → length (map f xs) ≡ length xs
length-map f [] = refl
length-map f (x ∷ xs) = ap suc (length-map f xs)

module _ {A : Type 0} where
  -- The combinations of `rounds` sizes, from size i on.
  abbrev pub sizes : ℕ → ℕ → List A → List (List A)
  sizes zero i src = []
  sizes (suc rounds) i src = choose i src ++ sizes rounds (i + 1) src

  -- The number of combinations of fewer than n elements.
  smaller : ℕ → List A → ℕ
  smaller zero src = 0
  smaller (suc n) src = smaller n src + length (choose n src)

  smaller-cons :
      (n : ℕ) (x : A) (xs : List A) → smaller (suc n) (x ∷ xs) ≡ smaller n xs + smaller (suc n) xs
  unfolding smaller
  smaller-cons zero x xs = omega arith
  smaller-cons (suc n) x xs = omega (
    arith,
    smaller-cons n x xs,
    length-append (map (◌∷◌ x) (choose n xs)) (choose (suc n) xs),
    length-map (◌∷◌ x) (choose n xs),
  )

  smaller_all : (n : ℕ) (xs : List A) → length xs < n → smaller n xs ≡ 2 ^ length xs
  unfolding smaller
  smaller_all zero xs h = absurd (omega arith)
  smaller_all (suc zero) [] h = refl
  smaller_all (suc (suc n)) [] h = omega (arith, smaller_all (suc n) [] (omega arith))
  smaller_all (suc n) (x ∷ xs) h = omega (
    arith,
    smaller-cons n x xs,
    smaller_all n xs (omega arith),
    smaller_all (suc n) xs (omega arith),
    two-pow-succ (length xs),
  )

  smaller-sizes :
      (rounds i : ℕ) (src : List A)
      → smaller (i + rounds) src ≡ smaller i src + length (sizes rounds i src)
  unfolding smaller
  smaller-sizes zero i src = let e : i + 0 ≡ i = omega arith in rw e (omega arith)
  smaller-sizes (suc rounds) i src =
      let e : i + 1 ≡ suc i = omega arith in
      let f : i + suc rounds ≡ suc i + rounds = omega arith in
      rw (e, f)
        (omega (
          arith,
          smaller-sizes rounds (suc i) src,
          length-append (choose i src) (sizes rounds (suc i) src),
        ))

  loop-sizes :
      (default : A) (rounds i : ℕ) (src : List A) (out : List (List A))
      → 1 ≤ i
      → i + rounds ≤ suc (length src)
      → permutation_loop default rounds i src out ≡ some (out ++ sizes rounds i src)
  unfolding permutation_loop
  loop-sizes default zero i src out p h = ap some (sym (append-nil out))
  loop-sizes default (suc rounds) i src out p h =
      let sized : (i == 0) ≡ false = ground arith in
      let ret : combinational src i (replicate i default) [] ≡ some (choose i src) =
        combinational-choose src i (replicate i default) [] (omega arith)
          (omega (arith, length-replicate i default))
        ∙ rw sized refl in
      rw (permutation_loop, ret)
        (loop-sizes default rounds (i + 1) src (out ++ choose i src) (omega arith) (omega arith)
          ∙ ap some (append_assoc out (choose i src) (sizes rounds (i + 1) src)))

  whole :
      (default : A) (src : List A) (out : List (List A))
      → permutation default src out ≡ some (out ++ sizes (length src) 1 src)
  unfolding permutation
  whole default [] out = ap some (sym (append-nil out))
  whole default (x ∷ xs) out =
      let filled : (suc (length xs) == 0) ≡ false = ground arith in
      rw filled (loop-sizes default (suc (length xs)) 1 (x ∷ xs) out (omega arith) (omega arith))

  -- permutation appends the combinations of 1, 2, and so on up to all elements, which are 2 ^ n - 1 lists for n
  -- elements. No assertion fails.
  pub permutation-sizes :
      (default : A) (src : List A) (out : List (List A))
      → (permutation default src out ≡ some (out ++ sizes (length src) 1 src))
        × (length (sizes (length src) 1 src) + 1 ≡ 2 ^ length src)
  unfolding smaller
  permutation-sizes default src out = (
    whole default src out,
    omega (arith, smaller-sizes (length src) 1 src, smaller_all (1 + length src) src (omega arith)),
  )
