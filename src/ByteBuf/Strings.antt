-- ===== src/ByteBuf/Strings.antt =====
-- Reading the whole of a ByteBuf as a string, and what shrinkToFit does to it.
use zylib.Prelude.{
  ℕ, zero, suc, ◌+◌, ◌≤◌, ◌<◌, ◌≡◌, refl, sym, ap, ◌∙◌, ◌↔◌, Bool, true, false, some, List, [], ◌∷◌,
  ◌++◌, arith, ◌==◌, ==_iff, length, take, take-append-drop, length-drop,
}
use zylib.ByteBuf.{
  ByteBuf, returned, thrown, overflow, byte_empty, read_chars, read_string, shrink_to_fit,
}
use zylib.ByteBuf.Queue.{
  Valid, content, length-content, read-within, read-content, skipped-content, byte_size_lem,
}

byte_empty_lem : (b : ByteBuf) → (byte_empty b ≡ true) ↔ (b.rpos ≡ length b.storage)
unfolding byte_empty
byte_empty_lem b = ==_iff b.rpos (length b.storage)

read_chars-end :
    (fuel : ℕ) (b : ByteBuf) → byte_empty b ≡ true → read_chars fuel b ≡ some (returned ([], b))
unfolding read_chars
read_chars-end zero b e = rw (e) refl
read_chars-end (suc fuel) b e = rw (e) refl

read_chars-throws :
    (fuel : ℕ) (b : ByteBuf)
    → Valid b
    → 0 < fuel
    → byte_empty b ≡ false
    → content b ≡ []
    → read_chars fuel b ≡ some (thrown (overflow b.rpos 1 0))
unfolding read_chars
read_chars-throws zero b v h f e = absurd (omega arith)
read_chars-throws (suc fuel) b v h f e =
    let size : length (content b) ≡ 0 = ap length e in
    rw (f, ((read-content b 1 v).1 (omega arith)).0, size) refl

no_content : (b : ByteBuf) → length (content b) ≡ 0 → content b ≡ []
no_content b e = none_in (content b) e
  where
    none_in : (xs : List ℕ) → length xs ≡ 0 → xs ≡ []
    none_in [] e = refl
    none_in (x ∷ xs) e = absurd (omega arith)

-- What the loop has to give.
Drained : ℕ → ByteBuf → ByteBuf → Type 0
Drained fuel b c = (read_chars fuel b ≡ some (returned (content b, c))) × Valid c × (content c ≡ [])

read_chars-ended :
    (fuel : ℕ) (b : ByteBuf)
    → Valid b
    → b.wpos ≡ length b.storage
    → byte_empty b ≡ true
    → Drained fuel b b
unfolding Drained
read_chars-ended fuel b v e t =
    let place = (byte_empty_lem b).0 t in
    let nothing = no_content b (omega (arith, length-content b v, e, place)) in
    (read_chars-end fuel b t ∙ ap (λ x. some (returned (x, b))) (sym nothing), v, nothing)

read_chars-step :
    (fuel : ℕ) (b c : ByteBuf)
    → Valid b
    → byte_empty b ≡ false
    → 1 ≤ length (content b)
    → Drained fuel (record b { rpos = b.rpos + 1 }) c
    → Drained (suc fuel) b c
unfolding Drained read_chars
read_chars-step fuel b c v t h (got, valid, nothing) =
    let (bytes, skipped) = read-within b 1 v h in
    let rest = (skipped-content b 1 v h).1 in
    (
      rw (t, bytes, skipped, got)
          (ap (λ x. some (returned (x, c)))
            (ap (λ r. take 1 (content b) ++ r) rest ∙ take-append-drop 1 (content b))),
      valid,
      nothing,
    )

not_empty_lem :
    (b : ByteBuf)
    → Valid b
    → b.wpos ≡ length b.storage
    → byte_empty b ≡ false
    → b.rpos < length b.storage
unfolding byte_empty
not_empty_lem b v e t = let ordered : b.rpos ≤ b.wpos = v.ordered in ground arith

left-content :
    (b : ByteBuf)
    → Valid b
    → b.wpos ≡ length b.storage
    → byte_empty b ≡ false
    → 1 ≤ length (content b)
left-content b v e t = omega (arith, length-content b v, e, not_empty_lem b v e t)

-- The loop, on a buffer that is written to the end of its vector.
read_chars-content :
    (fuel : ℕ) (b : ByteBuf)
    → Valid b
    → b.wpos ≡ length b.storage
    → length (content b) ≤ fuel
    → (c : ByteBuf) × Drained fuel b c
read_chars-content zero b v e h = (
  b,
  read_chars-ended 0 b v e ((byte_empty_lem b).1 (omega (arith, length-content b v, v.ordered, e))),
)
read_chars-content (suc fuel) b v e h = go (read_chars-content fuel) (byte_empty b) refl
  where
    go :
        ((d : ByteBuf)
          → Valid d
          → d.wpos ≡ length d.storage
          → length (content d) ≤ fuel
          → (c : ByteBuf) × Drained fuel d c)
        → (t : Bool) → byte_empty b ≡ t
        → (c : ByteBuf) × Drained (suc fuel) b c
    go again true t = (b, read_chars-ended (suc fuel) b v e t)
    go again false t =
        let some_left = left-content b v e t in
        let (valid, rest) = skipped-content b 1 v some_left in
        let (c, drained) =
          again (record b { rpos = b.rpos + 1 }) valid e
            (omega (arith, ap length rest, length-drop 1 (content b), some_left, h)) in
        (c, read_chars-step fuel b c v t some_left drained)

-- Reading a string from a valid buffer that is written to the end of its vector ends, without an exception, with the
-- whole content, and nothing is left.
pub read_string-content :
    (b : ByteBuf)
    → Valid b
    → b.wpos ≡ length b.storage
    → (c : ByteBuf) × (read_string b ≡ some (returned (content b, c))) × Valid c × (content c ≡ [])
unfolding read_string Drained
read_string-content b v e =
    let (c, (got, valid, nothing)) =
      read_chars-content (length b.storage) b v e (omega (arith, length-content b v, v.ordered)) in
    (c, got, valid, nothing)

reset_not_empty :
    (b : ByteBuf) → 0 < length b.storage → byte_empty (record b { rpos = 0; wpos = 0 }) ≡ false
unfolding byte_empty
reset_not_empty b h = ground arith

reset-content : (b : ByteBuf) → content (record b { rpos = 0; wpos = 0 }) ≡ []
unfolding content
reset-content b = refl

-- A valid buffer, written to the end of its vector and read to its end, from which at least one byte has
-- been read, gives the empty string at the next read of a string; but shrunk, it throws there, since
-- the vector keeps its bytes.
pub shrink_to_fit-breaks :
    (b : ByteBuf)
    → Valid b
    → content b ≡ []
    → 0 < b.rpos
    → b.wpos ≡ length b.storage
    → (read_string b ≡ some (returned ([], b)))
      × ((c : ByteBuf) × (shrink_to_fit b ≡ returned c)
          × (read_string c ≡ some (thrown (overflow 0 1 0))))
unfolding read_string shrink_to_fit
shrink_to_fit-breaks b v e h k =
    let size : length (content b) ≡ 0 = ap length e in
    let place : b.rpos ≡ length b.storage = omega (arith, length-content b v, v.ordered) in
    let moved = false-iff b.rpos (omega arith) in
    (
      read_chars-end (length b.storage) b ((byte_empty_lem b).1 place),
      (
        record b { rpos = 0; wpos = 0 },
        rw (moved, byte_size_lem b v, size) refl,
        read_chars-throws (length b.storage) (record b { rpos = 0; wpos = 0 })
            (record { ordered = omega arith; within = omega arith }) (omega arith)
            (reset_not_empty b (omega (arith, h, place))) (reset-content b),
      ),
    )
  where
    false-iff : (n : ℕ) → 0 < n → (n == 0) ≡ false
    false-iff n h = ground arith
