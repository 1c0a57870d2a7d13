-- ===== src/Algorithm/Combinations.antt =====
-- experimental/Algorithm.h: the combinations, against their definition by recursion.
use zylib.Prelude.{
  ℕ, zero, suc, ◌+◌, ◌-◌, ◌≤◌, ◌<◌, ◌≡◌, refl, sym, ap, ap₂, ◌∙◌, inl, inr, true, false, some, List,
  [], ◌∷◌, ◌++◌, map, append-nil, append_assoc, arith, ltb, ◌==◌, if◌then◌else◌, ltb→lt, le→leb,
  Bool-cases, length, set, take, length-set,
}
use mathlib.Core.Path.{subst}
use zylib.Algorithm.{combinational_loop, combinational_detail, combinational}

module _ {A : Type 0} where
  -- The lists of k elements, in the order of xs.
  abbrev pub choose : ℕ → List A → List (List A)
  choose zero xs = [] ∷ []
  choose (suc k) [] = []
  choose (suc k) (x ∷ xs) = map (◌∷◌ x) (choose k xs) ++ choose (suc k) xs

  choose_short : (k : ℕ) (xs : List A) → length xs < k → choose k xs ≡ []
  choose_short zero xs h = absurd (omega arith)
  choose_short (suc k) [] h = refl
  choose_short (suc k) (x ∷ xs) h =
      rw (choose_short k xs (omega arith), choose_short (suc k) xs (omega arith)) refl

  take-set :
      (b : List A) (p : ℕ) (x : A) → p < length b → take (suc p) (set b p x) ≡ take p b ++ x ∷ []
  take-set [] p x h = absurd (omega arith)
  take-set (y ∷ b) zero x h = refl
  take-set (y ∷ b) (suc p) x h = ap (◌∷◌ y) (take-set b p x (omega arith))

  take_front : (b : List A) (p : ℕ) → take p (take (suc p) b) ≡ take p b
  take_front b zero = refl
  take_front [] (suc p) = refl
  take_front (y ∷ b) (suc p) = ap (◌∷◌ y) (take_front b p)

  take-set_front : (b : List A) (p : ℕ) (x : A) → take p (set b p x) ≡ take p b
  take-set_front [] p x = refl
  take-set_front (y ∷ b) zero x = refl
  take-set_front (y ∷ b) (suc p) x = ap (◌∷◌ y) (take-set_front b p x)

  -- The lists that have `us` in front.
  abbrev behind : List A → List (List A) → List (List A)
  behind us [] = []
  behind us (xs ∷ xss) = (us ++ xs) ∷ behind us xss

  behind-append :
      (us : List A) (xss yss : List (List A))
      → behind us (xss ++ yss) ≡ behind us xss ++ behind us yss
  behind-append us [] yss = refl
  behind-append us (xs ∷ xss) yss = ap (◌∷◌ (us ++ xs)) (behind-append us xss yss)

  behind_next :
      (us : List A) (x : A) (xss : List (List A))
      → behind (us ++ x ∷ []) xss ≡ behind us (map (◌∷◌ x) xss)
  behind_next us x [] = refl
  behind_next us x (xs ∷ xss) = ap₂ ◌∷◌ (append_assoc us (x ∷ []) xs) (behind_next us x xss)

  behind_nil : (xss : List (List A)) → behind [] xss ≡ xss
  behind_nil [] = refl
  behind_nil (xs ∷ xss) = ap (◌∷◌ xs) (behind_nil xss)

  -- The combinations are appended, behind what the buffer begins with, and that beginning stays.
  abbrev Adds : ℕ → List A → List (List A) → List (List A) → List A × List (List A) → Type 0
  Adds p buffer out found (b, o) =
      (o ≡ out ++ behind (take p buffer) found)
      × (take p b ≡ take p buffer)
      × (length b ≡ length buffer)

  found_more :
      (p : ℕ) (buffer : List A) (out found more : List (List A)) (d r : List A × List (List A))
      → Adds p buffer out found d
      → Adds p d.0 d.1 more r
      → Adds p buffer out (found ++ more) r
  found_more p buffer out found more (b, o) (b', o') (e, t, l) (e', t', l') = (
    e'
        ∙ (ap₂ (λ u v. u ++ behind v more) e t
            ∙ (append_assoc out (behind (take p buffer) found) (behind (take p buffer) more)
                ∙ ap (◌++◌ out) (sym (behind-append (take p buffer) found more)))),
    t' ∙ t,
    l' ∙ l,
  )

  -- The call for the elements behind x, where x has been written.
  found_behind :
      (p : ℕ) (buffer : List A) (x : A) (out found : List (List A)) (d : List A × List (List A))
      → p < length buffer
      → Adds (suc p) (set buffer p x) out found d
      → Adds p buffer out (map (◌∷◌ x) found) d
  found_behind p buffer x out found (b, o) h (e, t, l) =
      let first = take-set buffer p x h in
      (
        e ∙ ap (◌++◌ out) (ap (λ u. behind u found) first ∙ behind_next (take p buffer) x found),
        sym (take_front b p)
            ∙ (ap (take p) t ∙ (take_front (set buffer p x) p ∙ take-set_front buffer p x)),
        l ∙ length-set buffer p x,
      )

  -- The recursive call, or the test that it begins by.
  deeper-Adds :
      (need p m : ℕ) (rest buffer : List A) (x : A) (out : List (List A))
      → need ≡ p + suc m
      → need ≤ length buffer
      → ((p m : ℕ) (buffer : List A) (out : List (List A))
          → need ≡ p + suc m
          → need ≤ length buffer
          → Adds p buffer out (choose (suc m) rest) (combinational_loop need rest p buffer out))
      → Adds p buffer out (map (◌∷◌ x) (choose m rest)) (elim (p + 1 == need) [
        | true ↦ (set buffer p x, out ++ take need (set buffer p x) ∷ [])
        | false ↦ combinational_loop need rest (p + 1) (set buffer p x) out
      ])
  deeper-Adds need p zero rest buffer x out n l ih =
      let e : need ≡ suc p = omega arith in
      let done : (p + 1 == need) ≡ true = ground arith in
      rw (done, e)
        (
          ap (λ u. out ++ u ∷ []) (take-set buffer p x (omega arith)),
          take-set_front buffer p x,
          length-set buffer p x,
        )
  deeper-Adds need p (suc m) rest buffer x out n l ih =
      let e : p + 1 ≡ suc p = omega arith in
      let more : (p + 1 == need) ≡ false = ground arith in
      rw more (
        subst
          (λ k.
            Adds p buffer out (map (◌∷◌ x) (choose (suc m) rest))
              (combinational_loop need rest k (set buffer p x) out))
          (sym e)
          (found_behind p buffer x out (choose (suc m) rest)
            (combinational_loop need rest (suc p) (set buffer p x) out) (omega arith)
            (ih (suc p) m (set buffer p x) out (omega arith)
              (omega (arith, length-set buffer p x)))))

  loop-Adds :
      (need p m : ℕ) (suffix buffer : List A) (out : List (List A))
      → need ≡ p + suc m
      → need ≤ length buffer
      → Adds p buffer out (choose (suc m) suffix) (combinational_loop need suffix p buffer out)
  unfolding combinational_loop
  loop-Adds need p m [] buffer out n l = (sym (append-nil out), refl, refl)
  loop-Adds need p m (x ∷ rest) buffer out n l =
      elim (Bool-cases (ltb (length (x ∷ rest)) (need - p))) [
        | inl short ↦
            rw
              (
                short,
                choose_short (suc m) (x ∷ rest)
                    (omega (arith, ltb→lt (length (x ∷ rest)) (need - p) short)),
              )
              (sym (append-nil out), refl, refl)
        | inr enough ↦
            let d : List A × List (List A) = elim (p + 1 == need) [
              | true ↦ (set buffer p x, out ++ take need (set buffer p x) ∷ [])
              | false ↦ combinational_loop need rest (p + 1) (set buffer p x) out
            ] in
            let found : Adds p buffer out (map (◌∷◌ x) (choose m rest)) d =
              deeper-Adds need p m rest buffer x out n l
                (λ p' m' b o n' l'. loop-Adds need p' m' rest b o n' l') in
            rw enough (
              found_more p buffer out (map (◌∷◌ x) (choose m rest)) (choose (suc m) rest) d
                (combinational_loop need rest p d.0 d.1) found
                (loop-Adds need p m rest d.0 d.1 n (omega (arith, found.2))))
      ]

  -- Where the assertion holds and the buffer has room for need elements, out gets the combinations in their
  -- order, and nothing for need = 0.
  pub combinational-choose :
      (src : List A) (need : ℕ) (buffer : List A) (out : List (List A))
      → need ≤ length src
      → need ≤ length buffer
      → combinational src need buffer out ≡ some (if need == 0 then out else out ++ choose need src)
  unfolding combinational combinational_detail
  combinational-choose src zero buffer out h l = rw (le→leb 0 (length src) h) refl
  combinational-choose src (suc m) buffer out h l =
      let all = loop-Adds (suc m) 0 m src buffer out (omega arith) l in
      let some_needed : (suc m == 0) ≡ false = ground arith in
      let at_start : (0 == suc m) ≡ false = ground arith in
      rw (le→leb (suc m) (length src) h, some_needed, at_start)
        (ap some (all.0 ∙ ap (◌++◌ out) (behind_nil (choose (suc m) src))))
