-- ===== src/ByteBuf/Numbers.antt =====
-- nel/ByteBuf: numbers written and read.
use zylib.Prelude.{
  ℕ, zero, suc, ◌+◌, ◌*◌, ◌/◌, ◌^◌, ◌≤◌, ◌<◌, ◌≡◌, refl, sym, ap, ◌∙◌, List, [], ◌∷◌, ◌++◌,
  append-nil, append_assoc, arith, length, take, drop, length-append, take-all, drop-all,
  take-length,
}
use native.Mathlib.Numerals.{unary_clauses}
use mathlib.Core.Path.{subst}
use zylib.ByteBuf.{
  ByteBuf, Result, returned, then_with, read_number, write_number, bytes_of, number_of,
}
use zylib.ByteBuf.Queue.{Valid, content, append-content, read-within, skipped-content}

pub length-bytes_of : (w v : ℕ) → length (bytes_of w v) ≡ w
length-bytes_of zero v = refl
length-bytes_of (suc w) v = ap suc (length-bytes_of w (v / 256))

pow_suc : (w : ℕ) → 256 ^ suc w ≡ 256 * 256 ^ w
pow_suc w = simp unary_clauses (omega arith)

pub number_of-bytes_of : (w v : ℕ) → v < 256 ^ w → number_of (bytes_of w v) ≡ v
number_of-bytes_of zero v h = omega arith
number_of-bytes_of (suc w) v h =
    let less : v / 256 < 256 ^ w = omega (arith, pow_suc w) in
    omega (arith, number_of-bytes_of w (v / 256) less)

-- A number at the front of the content is read, and the bytes behind it stay.
read_number-content :
    (w v : ℕ) (b : ByteBuf) (rest : List ℕ)
    → Valid b
    → v < 256 ^ w
    → content b ≡ bytes_of w v ++ rest
    → (c : ByteBuf) × (read_number w b ≡ returned (v, c)) × Valid c × (content c ≡ rest)
unfolding read_number
read_number-content w v b rest valid h e =
    let long : w ≤ length (content b) =
      subst (λ t. w ≤ length t) (sym e)
        (omega (arith, length-append (bytes_of w v) rest, length-bytes_of w v)) in
    let (bytes, skipped) = read-within b w valid long in
    let (valid', left) = skipped-content b w valid long in
    let front : number_of (take w (content b)) ≡ v =
      ap (λ t. number_of (take w t)) e
      ∙ ap number_of (take-all w (bytes_of w v) rest (sym (length-bytes_of w v)))
      ∙ number_of-bytes_of w v h in
    (
      record b { rpos = b.rpos + w },
      rw (bytes, skipped) (ap (λ n. returned (n, record b { rpos = b.rpos + w })) front),
      valid',
      left ∙ ap (drop w) e ∙ drop-all w (bytes_of w v) rest (sym (length-bytes_of w v)),
    )

write_number-content :
    (w v : ℕ) (b : ByteBuf)
    → Valid b
    → Valid (write_number w b v) × (content (write_number w b v) ≡ content b ++ bytes_of w v)
unfolding write_number
write_number-content w v b valid =
    let size = length-bytes_of w v in
    let (valid', e) = append-content b (bytes_of w v) w valid (omega (arith, size)) in
    (valid', e ∙ ap (◌++◌ (content b)) (take-length w (bytes_of w v) (sym size)))

-- A number with its width in bytes.
abbrev pub Item : Type 0
Item = ℕ × ℕ

-- A sequence of `operator<<`, and of `operator>>`.
unfoldable pub write_numbers : List Item → ByteBuf → ByteBuf
write_numbers [] b = b
write_numbers ((w, v) ∷ items) b = write_numbers items (write_number w b v)

unfoldable pub read_numbers : List Item → ByteBuf → Result (List ℕ × ByteBuf)
read_numbers [] b = returned ([], b)
read_numbers ((w, v) ∷ items) b =
    then_with (read_number w b)
      (λ r. then_with (read_numbers items r.1) (λ s. returned (r.0 ∷ s.0, s.1)))

abbrev pub bytes_of_items : List Item → List ℕ
bytes_of_items [] = []
bytes_of_items ((w, v) ∷ items) = bytes_of w v ++ bytes_of_items items

abbrev pub values : List Item → List ℕ
values [] = []
values ((w, v) ∷ items) = v ∷ values items

-- Each number fits its width.
abbrev pub AllFit : List Item → Type 0
AllFit [] = Unit
AllFit ((w, v) ∷ items) = (v < 256 ^ w) × AllFit items

write_numbers-content :
    (items : List Item) (b : ByteBuf)
    → Valid b
    → Valid (write_numbers items b)
      × (content (write_numbers items b) ≡ content b ++ bytes_of_items items)
unfolding write_numbers
write_numbers-content [] b valid = (valid, sym (append-nil (content b)))
write_numbers-content ((w, v) ∷ items) b valid =
    let (valid', e) = write_number-content w v b valid in
    let (valid'', rest) = write_numbers-content items (write_number w b v) valid' in
    (
      valid'',
      rest
          ∙ ap (λ t. t ++ bytes_of_items items) e
          ∙ append_assoc (content b) (bytes_of w v) (bytes_of_items items),
    )

read_numbers-content :
    (items : List Item) (b : ByteBuf)
    → Valid b
    → AllFit items
    → content b ≡ bytes_of_items items
    → (c : ByteBuf) × (read_numbers items b ≡ returned (values items, c))
      × Valid c
      × (content c ≡ [])
unfolding read_numbers
read_numbers-content [] b valid fit e = (b, refl, valid, e)
read_numbers-content ((w, v) ∷ items) b valid fit e =
    let (c, got, valid', rest) = read_number-content w v b (bytes_of_items items) valid fit.0 e in
    let (d, others, valid'', none_left) = read_numbers-content items c valid' fit.1 rest in
    (d, rw (got, others) refl, valid'', none_left)

-- Numbers of any widths, written in a row to a valid buffer with no content, are read back in the same
-- order if each fits its width, and nothing is left.
pub read_numbers-write_numbers :
    (items : List Item) (b : ByteBuf)
    → Valid b
    → content b ≡ []
    → AllFit items
    → (c : ByteBuf) × (read_numbers items (write_numbers items b) ≡ returned (values items, c))
      × Valid c
      × (content c ≡ [])
read_numbers-write_numbers items b valid none_yet fit =
    let (valid', e) = write_numbers-content items b valid in
    read_numbers-content items (write_numbers items b) valid' fit
      (e ∙ ap (λ t. t ++ bytes_of_items items) none_yet)
