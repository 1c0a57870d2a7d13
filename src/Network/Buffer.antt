-- ===== src/Network/Buffer.antt =====
-- zysoft/src/network/Buffer.h, class FlatBuffer: a vector of bytes that grows at its end and is
-- consumed at its front. A byte is a number below 256; a pointer is `none` (null) or the bytes
-- that it leads to. Only the content of the vector is kept, so `Reverse` changes nothing.
use zylib.Prelude.{
  ℕ, ◌+◌, ◌-◌, ◌≤◌, ◌≡◌, refl, sym, ap, Bool, true, false, Option, none, some, List, [], ◌∷◌, ◌++◌,
  append-nil, arith, ltb, ◌==◌, if◌then◌else◌, length, take, drop, resize, length-drop, take-length,
  resize-append, memmove_front,
}

pub record FlatBuffer : Type 0 where
  pub buffer : List ℕ

abbrev pub empty_buffer : FlatBuffer
empty_buffer = record { buffer = [] }

unfoldable pub is_empty : FlatBuffer → Bool
is_empty b = length b.buffer == 0

-- `Append(data, length)`: `length` bytes are read at `data`.
unfoldable pub append : FlatBuffer → Option (List ℕ) → ℕ → FlatBuffer
append b none n = b
append b (some bytes) n = if n == 0 then b else record { buffer = b.buffer ++ take n bytes }

-- `Consume(length)`: the remaining bytes move to the front, then the vector shrinks.
unfoldable pub consume : FlatBuffer → ℕ → FlatBuffer × Bool
consume b n =
    if ltb (length b.buffer) n
    then (b, false)
    else let remain = length b.buffer - n in
      (record { buffer = resize remain 0 (memmove_front n remain b.buffer) }, true)

unfoldable pub resized : FlatBuffer → ℕ → FlatBuffer
resized b n = record { buffer = resize n 0 b.buffer }

unfoldable pub reserved : FlatBuffer → ℕ → FlatBuffer
reserved b n = b

unfoldable pub clear : FlatBuffer → FlatBuffer
clear b = empty_buffer

-- The bytes that `Consume` leaves are those behind the first `n`.
remain-lem :
    (n : ℕ) (xs : List ℕ)
    → n ≤ length xs
    → resize (length xs - n) 0 (memmove_front n (length xs - n) xs) ≡ drop n xs
unfolding memmove_front
remain-lem n xs h = rw (take-length (length xs - n) (drop n xs) (omega (arith, length-drop n xs))) (
    resize-append (length xs - n) 0 (drop n xs) (drop (length xs - n) xs)
      (omega (arith, length-drop n xs)))

-- Consuming within the length succeeds and leaves exactly the bytes behind the first `n`;
-- consuming more fails and changes nothing.
pub consume_lem :
    (b : FlatBuffer) (n : ℕ)
    → (n ≤ length b.buffer → consume b n ≡ (record { buffer = drop n b.buffer }, true))
      × (length b.buffer + 1 ≤ n → consume b n ≡ (b, false))
unfolding consume
consume_lem b n = (λ h. ground (arith, remain-lem n b.buffer h), λ h. ground arith)

-- Appending all of the bytes.
pub append_all :
    (b : FlatBuffer) (bytes : List ℕ)
    → append b (some bytes) (length bytes) ≡ record { buffer = b.buffer ++ bytes }
unfolding append
append_all b [] = ap wrap (sym (append-nil b.buffer))
  where
    wrap : List ℕ → FlatBuffer
    wrap bs = record { buffer = bs }
append_all b (x ∷ bytes) = ground (arith, take-length (length (x ∷ bytes)) (x ∷ bytes) refl)
