-- ===== src/ByteBuf.antt =====
-- nel/ByteBuf.h and nel/ByteBuf.cpp, class ByteBuf: a vector of bytes with a place to read from and a
-- place to write to. A byte is a number below 256; a pointer is `none` (null) or the bytes that it leads
-- to; an exception is a value. The arithmetic types are unsigned numbers of some bytes, the lowest
-- byte first. The capacity of the vector is left out.
pub mod Queue
pub mod Numbers
pub mod Strings
mod Tests
use mathlib.Core.Option
use zylib.Prelude.{
  ℕ, zero, suc, ◌+◌, ◌-◌, ◌*◌, ◌/◌, ◌%◌, Bool, Option, none, some, List, [], ◌∷◌, ◌++◌, map, ltb,
  ◌==◌, if◌then◌else◌, length, take, drop, resize, memmove_front, memcpy_at,
}

-- ByteBufException with "byteSize read overflow" and with "buf is empty!", and
-- ByteBufOverflowException.
pub data Failure : Type 0 where
  read_overflow : Failure
  buf_is_empty : Failure
  overflow : ℕ → ℕ → ℕ → Failure

pub data Result (A : Type 0) : Type 0 where
  thrown : Failure → Result A
  returned : A → Result A

abbrev pub then_with : {A B : Type 0} → Result A → (A → Result B) → Result B
then_with (thrown e) f = thrown e
then_with (returned a) f = f a

pub record ByteBuf : Type 0 where
  pub rpos : ℕ
  pub wpos : ℕ
  pub storage : List ℕ

-- `ByteBuf()` and `ByteBuf(res)`
abbrev pub new_buf : ByteBuf
new_buf = record { rpos = 0; wpos = 0; storage = [] }

-- `ByteBuf(buf)` and `ByteBuf(src, len)`
unfoldable pub of_bytes : List ℕ → ByteBuf
of_bytes bytes = record { rpos = 0; wpos = length bytes; storage = bytes }

unfoldable pub byte_size : ByteBuf → Result ℕ
byte_size b = if ltb b.wpos b.rpos then thrown read_overflow else returned (b.wpos - b.rpos)

unfoldable pub byte_empty : ByteBuf → Bool
byte_empty b = b.rpos == length b.storage

unfoldable pub clear : ByteBuf → ByteBuf
clear b = new_buf

unfoldable pub resized : ByteBuf → ℕ → ByteBuf
resized b n =
    let bytes = resize n 0 b.storage in record { rpos = 0; wpos = length bytes; storage = bytes }

-- The bytes from `data()` on.
unfoldable pub data_of : ByteBuf → Result (List ℕ)
data_of b = if byte_empty b then thrown buf_is_empty else returned (drop b.rpos b.storage)

-- `m_storage.resize(n)` where the vector is shorter.
unfoldable pub grown : ℕ → List ℕ → List ℕ
grown n bytes = if ltb (length bytes) n then resize n 0 bytes else bytes

-- `append(src, cnt)`: `cnt` bytes are read at `src`.
unfoldable pub append : ByteBuf → Option (List ℕ) → ℕ → ByteBuf
append b none cnt = b
append b (some bytes) cnt = if cnt == 0 then b else record {
  rpos = b.rpos;
  wpos = b.wpos + cnt;
  storage = memcpy_at b.wpos (take cnt bytes) (grown (b.wpos + cnt) b.storage);
}

-- `read(dest, len)`: the bytes copied to `dest`.
unfoldable pub read : ByteBuf → ℕ → Result (List ℕ)
read b n = then_with (byte_size b) (λ size.
    if ltb size n
    then thrown (overflow b.rpos n size)
    else returned (take n (drop b.rpos b.storage)))

unfoldable pub read_skip : ByteBuf → ℕ → Result ByteBuf
read_skip b skip = then_with (byte_size b) (λ size.
    if ltb size skip
    then thrown (overflow b.rpos skip size)
    else returned (record b { rpos = b.rpos + skip }))

unfoldable pub shrink_to_fit : ByteBuf → Result ByteBuf
shrink_to_fit b =
    if b.rpos == 0
    then returned b
    else then_with (byte_size b) (λ n.
      if n == 0
      then returned (record b { rpos = 0; wpos = 0 })
      else returned
          (record { rpos = 0; wpos = n; storage = resize n 0 (memmove_front b.rpos n b.storage) }))

-- The bytes of an unsigned number in `w` bytes, and the number that bytes make.
abbrev pub bytes_of : ℕ → ℕ → List ℕ
bytes_of zero v = []
bytes_of (suc w) v = v % 256 ∷ bytes_of w (v / 256)

abbrev pub number_of : List ℕ → ℕ
number_of [] = 0
number_of (x ∷ bytes) = x + 256 * number_of bytes

-- `operator<<` of a `w`-byte number, of a bool, of a string.
unfoldable pub write_number : ℕ → ByteBuf → ℕ → ByteBuf
write_number w b v = append b (some (bytes_of w v)) w

unfoldable pub write_bool : ByteBuf → Bool → ByteBuf
write_bool b v = write_number 1 b (if v then 1 else 0)

unfoldable pub write_string : ByteBuf → List ℕ → ByteBuf
write_string b s = if length s == 0 then b else append b (some s) (length s)

-- `operator>>` of a `w`-byte number.
unfoldable pub read_number : ℕ → ByteBuf → Result (ℕ × ByteBuf)
read_number w b =
    then_with (read b w) (λ bytes. then_with (read_skip b w) (λ c. returned (number_of bytes, c)))

-- The loop of `operator>>` into a string, with a bound on its rounds; `none` where that is too low.
unfoldable pub read_chars : ℕ → ByteBuf → Option (Result (List ℕ × ByteBuf))
read_chars zero b = if byte_empty b then some (returned ([], b)) else none
read_chars (suc fuel) b = if byte_empty b then some (returned ([], b)) else elim (read b 1) [
  | thrown e ↦ some (thrown e)
  | returned bytes ↦ elim (read_skip b 1) [
    | thrown e ↦ some (thrown e)
    | returned c ↦
        Option.map (λ r. then_with r (λ s. returned (bytes ++ s.0, s.1))) (read_chars fuel c)
  ]
]

-- `operator>>` into a string: one round for each byte of the vector is enough.
unfoldable pub read_string : ByteBuf → Option (Result (List ℕ × ByteBuf))
read_string b = read_chars (length b.storage) b

-- `operator>>` into a vector.
unfoldable pub read_all : ByteBuf → Result (List ℕ × ByteBuf)
read_all b =
    if byte_empty b
    then returned ([], b)
    else then_with (byte_size b) (λ size.
      then_with (data_of b)
        (λ bytes. then_with (read_skip b size) (λ c. returned (take size bytes, c))))
