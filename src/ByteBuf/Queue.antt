-- ===== src/ByteBuf/Queue.antt =====
-- nel/ByteBuf: a buffer as a queue of bytes.
use zylib.Prelude.{
  ℕ, zero, suc, ◌+◌, ◌-◌, ◌≤◌, ◌<◌, ◌≡◌, refl, sym, ap, ◌∙◌, Bool, true, false, some, List, [], ◌∷◌,
  ◌++◌, append-nil, append_assoc, arith, ltb, ◌==◌, if◌then◌else◌, lt→ltb, ltb→ge, ge→ltb, ==_iff,
  length, take, drop, resize, length-append, length-take, length-drop, length-resize, drop-drop,
  take-all, take-length, resize-append, memmove_front, memcpy_at,
}
use zylib.ByteBuf.{
  ByteBuf, thrown, returned, overflow, byte_size, append, read, read_skip, shrink_to_fit, grown,
}

-- The two places are in order and within the vector.
pub record Valid (b : ByteBuf) : Type 0 where
  pub ordered : b.rpos ≤ b.wpos
  pub within : b.wpos ≤ length b.storage

-- The bytes written and not yet read.
unfoldable pub content : ByteBuf → List ℕ
content b = drop b.rpos (take b.wpos b.storage)

module _ {A : Type 0} where
  drop-take : (r w : ℕ) (xs : List A) → drop r (take w xs) ≡ take (w - r) (drop r xs)
  drop-take zero w xs = ap (λ n. take n xs) (omega arith)
  drop-take (suc r) zero xs =
      let none_left : 0 ≡ 0 - suc r = omega arith in ap (λ n. take n (drop (suc r) xs)) none_left
  drop-take (suc r) (suc w) [] = sym (take-nil (suc w - suc r))
    where
      take-nil : (n : ℕ) → take {A = A} n [] ≡ []
      take-nil zero = refl
      take-nil (suc n) = refl
  drop-take (suc r) (suc w) (x ∷ xs) =
      let same : w - r ≡ suc w - suc r = omega arith in
      drop-take r w xs ∙ ap (λ n. take n (drop r xs)) same

  take-take : (n m : ℕ) (xs : List A) → n ≤ m → take n (take m xs) ≡ take n xs
  take-take zero m xs h = refl
  take-take (suc n) zero xs h = absurd (omega arith)
  take-take (suc n) (suc m) [] h = refl
  take-take (suc n) (suc m) (x ∷ xs) h = ap (◌∷◌ x) (take-take n m xs (omega arith))

  take-resize :
      (n m : ℕ) (a : A) (xs : List A) → n ≤ m → n ≤ length xs → take n (resize m a xs) ≡ take n xs
  take-resize zero m a xs h k = refl
  take-resize (suc n) zero a xs h k = absurd (omega arith)
  take-resize (suc n) (suc m) a [] h k = absurd (omega arith)
  take-resize (suc n) (suc m) a (x ∷ xs) h k =
      ap (◌∷◌ x) (take-resize n m a xs (omega arith) (omega arith))

  drop-append_le : (n : ℕ) (xs ys : List A) → n ≤ length xs → drop n (xs ++ ys) ≡ drop n xs ++ ys
  drop-append_le zero xs ys h = refl
  drop-append_le (suc n) [] ys h = absurd (omega arith)
  drop-append_le (suc n) (x ∷ xs) ys h = drop-append_le n xs ys (omega arith)

  -- What a write leaves up to its end.
  take-memcpy_at :
      (w : ℕ) (src xs : List A)
      → w ≤ length xs
      → take (w + length src) (memcpy_at w src xs) ≡ take w xs ++ src
  unfolding memcpy_at
  take-memcpy_at w src xs h =
      ap (take (w + length src)) (sym (append_assoc (take w xs) src (drop (w + length src) xs)))
      ∙ take-all (w + length src) (take w xs ++ src) (drop (w + length src) xs)
          (omega (arith, length-append (take w xs) src, length-take w xs))

pub length-content : (b : ByteBuf) → Valid b → length (content b) ≡ b.wpos - b.rpos
unfolding content
length-content b v =
    let within : b.wpos ≤ length b.storage = v.within in
    omega (arith, length-drop b.rpos (take b.wpos b.storage), length-take b.wpos b.storage)

pub byte_size_lem : (b : ByteBuf) → Valid b → byte_size b ≡ returned (length (content b))
unfolding byte_size
byte_size_lem b v =
    let ordered : b.rpos ≤ b.wpos = v.ordered in rw (length-content b v) (ground arith)

take-grown :
    (w n : ℕ) (xs : List ℕ)
    → w ≤ n
    → w ≤ length xs
    → (take w (grown n xs) ≡ take w xs) × (n ≤ length (grown n xs))
unfolding grown
take-grown w n xs h k =
    elim (ltb (length xs) n)
        as (λ b.
          ltb (length xs) n ≡ b
          → (take w (if b then resize n 0 xs else xs) ≡ take w xs)
            × (n ≤ length (if b then resize n 0 xs else xs))) [
              | true ↦ λ e. (take-resize w n 0 xs h k, omega (arith, length-resize n 0 xs))
              | false ↦ λ e. (refl, ltb→ge (length xs) n e)
            ]
      refl

append_pos :
    (b : ByteBuf) (bytes : List ℕ) (n : ℕ)
    → append b (some bytes) (suc n) ≡ record {
      rpos = b.rpos;
      wpos = b.wpos + suc n;
      storage = memcpy_at b.wpos (take (suc n) bytes) (grown (b.wpos + suc n) b.storage);
    }
unfolding append
append_pos b bytes n = ground arith

length-append_pos :
    (w : ℕ) (src xs : List ℕ) → w ≤ length xs → w + length src ≤ length (memcpy_at w src xs)
unfolding memcpy_at
length-append_pos w src xs h = omega (
  arith,
  length-append (take w xs) (src ++ drop (w + length src) xs),
  length-append src (drop (w + length src) xs),
  length-take w xs,
)

-- The buffer that writes `src` at its end.
abbrev extended : ByteBuf → List ℕ → ℕ → ByteBuf
extended b src n = record {
  rpos = b.rpos;
  wpos = b.wpos + n;
  storage = memcpy_at b.wpos src (grown (b.wpos + n) b.storage);
}

extended-content :
    (b : ByteBuf) (src : List ℕ) (n : ℕ)
    → Valid b
    → n ≡ length src
    → Valid (extended b src n) × (content (extended b src n) ≡ content b ++ src)
unfolding content
extended-content b src n v e =
    let bytes = grown (b.wpos + n) b.storage in
    let (old, enough) = take-grown b.wpos (b.wpos + n) b.storage (omega arith) v.within in
    let wide : b.wpos ≤ length bytes = omega arith in
    (
      record {
        ordered = omega (arith, v.ordered);
        within = omega (arith, e, length-append_pos b.wpos src bytes wide);
      },
      ap (λ k. drop b.rpos (take (b.wpos + k) (memcpy_at b.wpos src bytes))) e
          ∙ ap (drop b.rpos) (take-memcpy_at b.wpos src bytes wide)
          ∙ ap (λ t. drop b.rpos (t ++ src)) old
          ∙ drop-append_le b.rpos (take b.wpos b.storage) src
              (omega (arith, v.ordered, v.within, length-take b.wpos b.storage)),
    )

append_zero : (b : ByteBuf) (bytes : List ℕ) → append b (some bytes) 0 ≡ b
unfolding append
append_zero b bytes = refl

-- Appending bytes to a valid buffer keeps it valid and puts the first `cnt` of them behind its content.
pub append-content :
    (b : ByteBuf) (bytes : List ℕ) (cnt : ℕ)
    → Valid b
    → cnt ≤ length bytes
    → Valid (append b (some bytes) cnt)
      × (content (append b (some bytes) cnt) ≡ content b ++ take cnt bytes)
append-content b bytes zero v h = rw (append_zero b bytes) (v, sym (append-nil (content b)))
append-content b bytes (suc n) v h =
    rw (append_pos b bytes n)
      (extended-content b (take (suc n) bytes) (suc n) v (omega (arith, length-take (suc n) bytes)))

take-content :
    (b : ByteBuf) (n : ℕ)
    → Valid b
    → n ≤ length (content b)
    → take n (drop b.rpos b.storage) ≡ take n (content b)
unfolding content
take-content b n v h = sym (
    ap (take n) (drop-take b.rpos b.wpos b.storage)
    ∙ take-take n (b.wpos - b.rpos) (drop b.rpos b.storage) (omega (arith, length-content b v, h)))

pub skipped-content :
    (b : ByteBuf) (n : ℕ)
    → Valid b
    → n ≤ length (content b)
    → Valid (record b { rpos = b.rpos + n })
      × (content (record b { rpos = b.rpos + n }) ≡ drop n (content b))
unfolding content
skipped-content b n v h = (
  record { ordered = omega (arith, length-content b v, v.ordered, h); within = v.within },
  drop-drop b.rpos n (b.rpos + n) (take b.wpos b.storage) refl,
)

pub read-within :
    (b : ByteBuf) (n : ℕ)
    → Valid b
    → n ≤ length (content b)
    → (read b n ≡ returned (take n (content b)))
      × (read_skip b n ≡ returned (record b { rpos = b.rpos + n }))
unfolding read read_skip
read-within b n v h =
    rw (byte_size_lem b v, ge→ltb (length (content b)) n h)
      (ap returned (take-content b n v h), refl)

-- Reading and skipping `n` bytes of a valid buffer gives the first `n` of its content and leaves the
-- rest, and more bytes than it has are refused.
pub read-content :
    (b : ByteBuf) (n : ℕ)
    → Valid b
    → (n ≤ length (content b)
        → (read b n ≡ returned (take n (content b)))
          × ((c : ByteBuf) × (read_skip b n ≡ returned c)
              × Valid c
              × (content c ≡ drop n (content b))))
      × (length (content b) < n
          → (read b n ≡ thrown (overflow b.rpos n (length (content b))))
            × (read_skip b n ≡ thrown (overflow b.rpos n (length (content b)))))
unfolding read read_skip
read-content b n v = (
  λ h.
      let (bytes, skipped) = read-within b n v h in
      let (valid, rest) = skipped-content b n v h in
      (bytes, (record b { rpos = b.rpos + n }, skipped, valid, rest)),
  λ h. rw (byte_size_lem b v, lt→ltb (length (content b)) n h) (refl, refl),
)

moved-content :
    (b : ByteBuf)
    → Valid b
    → resize (length (content b)) 0 (memmove_front b.rpos (length (content b)) b.storage)
      ≡ content b
unfolding memmove_front
moved-content b v =
    rw
      (
        take-content b (length (content b)) v (omega arith),
        take-length (length (content b)) (content b) refl,
      )
      (resize-append (length (content b)) 0 (content b) (drop (length (content b)) b.storage) refl)

of_content :
    (bytes : List ℕ) (n : ℕ)
    → n ≡ length bytes
    → Valid (record { rpos = 0; wpos = n; storage = bytes })
      × (content (record { rpos = 0; wpos = n; storage = bytes }) ≡ bytes)
unfolding content
of_content bytes n e =
    (record { ordered = omega arith; within = omega arith }, take-length n bytes e)

empty-content : (b : ByteBuf) → length (content b) ≡ 0 → [] ≡ content b
empty-content b e = no_bytes (content b) e
  where
    no_bytes : (xs : List ℕ) → length xs ≡ 0 → [] ≡ xs
    no_bytes [] e = refl
    no_bytes (x ∷ xs) e = absurd (omega arith)

cleared-content :
    (b : ByteBuf) → length (content b) ≡ 0 → content (record b { rpos = 0; wpos = 0 }) ≡ content b
unfolding content
cleared-content b e = empty-content b e

-- shrinkToFit does not throw on a valid buffer: it keeps it valid, keeps its content, and puts the
-- place to read from at 0.
pub shrink_to_fit-content :
    (b : ByteBuf)
    → Valid b
    → (c : ByteBuf) × (shrink_to_fit b ≡ returned c)
      × Valid c
      × (content c ≡ content b)
      × (c.rpos ≡ 0)
unfolding shrink_to_fit
shrink_to_fit-content b v = go (b.rpos == 0) (length (content b) == 0) refl refl
  where
    go :
        (z e : Bool)
        → (b.rpos == 0) ≡ z
        → (length (content b) == 0) ≡ e
        → (c : ByteBuf) × (shrink_to_fit b ≡ returned c)
          × Valid c
          × (content c ≡ content b)
          × (c.rpos ≡ 0)
    go true e z_is e_is = (b, rw (z_is) refl, v, refl, (==_iff b.rpos 0).0 z_is)
    go false true z_is e_is = (
      record b { rpos = 0; wpos = 0 },
      rw (z_is, byte_size_lem b v, e_is) refl,
      record { ordered = omega arith; within = omega arith },
      cleared-content b ((==_iff (length (content b)) 0).0 e_is),
      refl,
    )
    go false false z_is e_is =
        let bytes =
          resize (length (content b)) 0 (memmove_front b.rpos (length (content b)) b.storage) in
        let moved : length (content b) ≡ length bytes = sym (
          length-resize (length (content b)) 0
            (memmove_front b.rpos (length (content b)) b.storage)) in
        let (valid, same) = of_content bytes (length (content b)) moved in
        (
          record { rpos = 0; wpos = length (content b); storage = bytes },
          rw (z_is, byte_size_lem b v, e_is) refl,
          valid,
          same ∙ moved-content b v,
          refl,
        )
