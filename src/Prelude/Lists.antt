-- ===== src/Prelude/Lists.antt =====
-- Lists measured and indexed by native numbers, under the library's names.
use Prim.Native.Nat.{ℕ, zero, suc, ◌+◌, ◌-◌, ◌≤◌, ◌<◌, min}
use mathlib.Core.Path.{◌≡◌, refl, ap}
use mathlib.Core.Logic.{◌≢◌, ◌⊎◌, inl, inr}
use mathlib.Core.Bool.{Bool, true, false}
use mathlib.Core.List.{List, [], ◌∷◌, ◌++◌}
use mathlib.Core.Option.{Option, none, some}
use native.Mathlib.Omega.{arith}

module _ {ℓ} {A : Type ℓ} where
  abbrev pub length : List A → ℕ
  length [] = 0
  length (x ∷ xs) = suc (length xs)

  abbrev pub is_nil : List A → Bool
  is_nil [] = true
  is_nil (x ∷ xs) = false

  abbrev pub get_elem? : List A → ℕ → Option A
  get_elem? [] i = none
  get_elem? (x ∷ xs) zero = some x
  get_elem? (x ∷ xs) (suc i) = get_elem? xs i

  abbrev pub get_or : List A → ℕ → A → A
  get_or [] i d = d
  get_or (x ∷ xs) zero d = x
  get_or (x ∷ xs) (suc i) d = get_or xs i d

  -- A write out of bounds changes nothing.
  abbrev pub set : List A → ℕ → A → List A
  set [] i v = []
  set (x ∷ xs) zero v = v ∷ xs
  set (x ∷ xs) (suc i) v = x ∷ set xs i v

  abbrev pub take : ℕ → List A → List A
  take zero xs = []
  take (suc n) [] = []
  take (suc n) (x ∷ xs) = x ∷ take n xs

  abbrev pub drop : ℕ → List A → List A
  drop zero xs = xs
  drop (suc n) [] = []
  drop (suc n) (x ∷ xs) = drop n xs

  abbrev pub replicate : ℕ → A → List A
  replicate zero a = []
  replicate (suc n) a = a ∷ replicate n a

  -- `std::vector::resize(n)`, with the value that new places get.
  abbrev pub resize : ℕ → A → List A → List A
  resize zero a xs = []
  resize (suc n) a [] = a ∷ resize n a []
  resize (suc n) a (x ∷ xs) = x ∷ resize n a xs

  pub length-append : (xs ys : List A) → length (xs ++ ys) ≡ length xs + length ys
  length-append [] ys = omega arith
  length-append (x ∷ xs) ys = omega (arith, length-append xs ys)

  pub length_pos : (xs : List A) → xs ≢ [] → 1 ≤ length xs
  length_pos [] ne = absurd (ne refl)
  length_pos (x ∷ xs) ne = omega arith

  pub take-append-drop : (n : ℕ) (xs : List A) → take n xs ++ drop n xs ≡ xs
  take-append-drop zero xs = refl
  take-append-drop (suc n) [] = refl
  take-append-drop (suc n) (x ∷ xs) = rw (take-append-drop n xs)

  pub length-take : (n : ℕ) (xs : List A) → length (take n xs) ≡ min n (length xs)
  length-take zero xs = omega arith
  length-take (suc n) [] = omega arith
  length-take (suc n) (x ∷ xs) = omega (arith, length-take n xs)

  pub length-drop : (n : ℕ) (xs : List A) → length (drop n xs) ≡ length xs - n
  length-drop zero xs = omega arith
  length-drop (suc n) [] = omega arith
  length-drop (suc n) (x ∷ xs) = omega (arith, length-drop n xs)

  pub length-resize : (n : ℕ) (a : A) (xs : List A) → length (resize n a xs) ≡ n
  length-resize zero a xs = refl
  length-resize (suc n) a [] = ap suc (length-resize n a [])
  length-resize (suc n) a (x ∷ xs) = ap suc (length-resize n a xs)

  pub drop-drop : (m n k : ℕ) (xs : List A) → k ≡ m + n → drop k xs ≡ drop n (drop m xs)
  drop-drop zero n k xs e = let e' : k ≡ n = omega arith in ap (λ i. drop i xs) e'
  drop-drop (suc m) n zero xs e = absurd (omega arith)
  drop-drop (suc m) zero (suc k) [] e = refl
  drop-drop (suc m) (suc n) (suc k) [] e = refl
  drop-drop (suc m) n (suc k) (x ∷ xs) e = drop-drop m n k xs (omega arith)

  -- Taking all, and dropping all, of a first part.
  pub take-all : (n : ℕ) (xs ys : List A) → n ≡ length xs → take n (xs ++ ys) ≡ xs
  take-all zero [] ys e = refl
  take-all zero (x ∷ xs) ys e = absurd (omega arith)
  take-all (suc n) [] ys e = absurd (omega arith)
  take-all (suc n) (x ∷ xs) ys e = ap (◌∷◌ x) (take-all n xs ys (omega arith))

  pub drop-all : (n : ℕ) (xs ys : List A) → n ≡ length xs → drop n (xs ++ ys) ≡ ys
  drop-all zero [] ys e = refl
  drop-all zero (x ∷ xs) ys e = absurd (omega arith)
  drop-all (suc n) [] ys e = absurd (omega arith)
  drop-all (suc n) (x ∷ xs) ys e = drop-all n xs ys (omega arith)

  pub take-length : (n : ℕ) (xs : List A) → n ≡ length xs → take n xs ≡ xs
  take-length zero [] e = refl
  take-length zero (x ∷ xs) e = absurd (omega arith)
  take-length (suc n) [] e = refl
  take-length (suc n) (x ∷ xs) e = ap (◌∷◌ x) (take-length n xs (omega arith))

  pub drop-ge : (n : ℕ) (xs : List A) → length xs ≤ n → drop n xs ≡ []
  drop-ge zero [] h = refl
  drop-ge zero (x ∷ xs) h = absurd (omega arith)
  drop-ge (suc n) [] h = refl
  drop-ge (suc n) (x ∷ xs) h = drop-ge n xs (omega arith)

  pub get_or-append :
      (xs ys : List A) (i : ℕ) (d : A) → suc i ≤ length xs → get_or (xs ++ ys) i d ≡ get_or xs i d
  get_or-append [] ys i d h = absurd (omega arith)
  get_or-append (x ∷ xs) ys zero d h = refl
  get_or-append (x ∷ xs) ys (suc i) d h = get_or-append xs ys i d (omega arith)

  -- Growing and then cutting back, or cutting to a first part.
  pub resize-append : (n : ℕ) (a : A) (xs ys : List A) → n ≡ length xs → resize n a (xs ++ ys) ≡ xs
  resize-append zero a [] ys e = refl
  resize-append zero a (x ∷ xs) ys e = absurd (omega arith)
  resize-append (suc n) a [] ys e = absurd (omega arith)
  resize-append (suc n) a (x ∷ xs) ys e = ap (◌∷◌ x) (resize-append n a xs ys (omega arith))

  pub resize-length : (n : ℕ) (a : A) (xs : List A) → n ≡ length xs → resize n a xs ≡ xs
  resize-length zero a [] e = refl
  resize-length zero a (x ∷ xs) e = absurd (omega arith)
  resize-length (suc n) a [] e = absurd (omega arith)
  resize-length (suc n) a (x ∷ xs) e = ap (◌∷◌ x) (resize-length n a xs (omega arith))

module _ {ℓ} {A : Type ℓ} where
  pub length-set : (xs : List A) (i : ℕ) (v : A) → length (set xs i v) ≡ length xs
  length-set [] i v = refl
  length-set (x ∷ xs) zero v = refl
  length-set (x ∷ xs) (suc i) v = ap suc (length-set xs i v)

  pub get_or-set_self :
      (xs : List A) (i : ℕ) (v d : A) → i < length xs → get_or (set xs i v) i d ≡ v
  get_or-set_self [] i v d h = absurd (omega arith)
  get_or-set_self (x ∷ xs) zero v d h = refl
  get_or-set_self (x ∷ xs) (suc i) v d h = get_or-set_self xs i v d (omega arith)

  pub get_or-set_ne :
      (xs : List A) (i j : ℕ) (v d : A) → i ≢ j → get_or (set xs i v) j d ≡ get_or xs j d
  get_or-set_ne [] i j v d h = refl
  get_or-set_ne (x ∷ xs) zero zero v d h = absurd (h refl)
  get_or-set_ne (x ∷ xs) zero (suc j) v d h = refl
  get_or-set_ne (x ∷ xs) (suc i) zero v d h = refl
  get_or-set_ne (x ∷ xs) (suc i) (suc j) v d h = get_or-set_ne xs i j v d (λ e. h (ap suc e))

  -- `memmove(data, data + from, n)` inside one array.
  unfoldable pub memmove_front : ℕ → ℕ → List A → List A
  memmove_front from n xs = take n (drop from xs) ++ drop n xs

  -- `memcpy(data + at, src, length of src)`: the bytes written over those from `at` on.
  unfoldable pub memcpy_at : ℕ → List A → List A → List A
  memcpy_at at src xs = take at xs ++ (src ++ drop (at + length src) xs)

  pub length-memcpy_at :
      (at : ℕ) (src xs : List A)
      → at + length src ≤ length xs
      → length (memcpy_at at src xs) ≡ length xs
  unfolding memcpy_at
  length-memcpy_at at src xs h = omega (
    arith,
    length-append (take at xs) (src ++ drop (at + length src) xs),
    length-append src (drop (at + length src) xs),
    length-take at xs,
    length-drop (at + length src) xs,
  )

-- Two ways to cut one list: one of the first parts begins with the other.
module _ {ℓ} {A : Type ℓ} where
  pub append_split :
      (us bs cs ds : List A)
      → us ++ bs ≡ cs ++ ds
      → ((e : List A) × (us ≡ cs ++ e) × (e ++ bs ≡ ds))
        ⊎ ((e : List A) × (cs ≡ us ++ e) × (e ≢ []))
  append_split us bs [] ds h = inl (us, refl, h)
  append_split [] bs (c ∷ cs) ds h = inr (c ∷ cs, refl, λ e. cc)
  append_split (u ∷ us) bs (c ∷ cs) ds h = elim (append_split us bs cs ds (cc)) [
    | inl (e, p, q) ↦ inl (e, cc, q)
    | inr (e, p, ne) ↦ inr (e, cc, ne)
  ]

  pub append-ne-nil : (us bs : List A) → bs ≢ [] → us ++ bs ≢ []
  append-ne-nil [] bs ne e = ne e
  append-ne-nil (u ∷ us) bs ne e = cc
