-- ===== src/Base64.antt =====
-- zylib/Base64.cpp, namespace zylib::base64. A string is the list of its bytes, each below 256, where
-- `>>`, `<<` and `&` are `/`, `*` and `%`; `isalnum` is that of the "C" locale. win32/Base64.cpp has the same
-- code.
pub mod Table
pub mod RoundTrip
mod Tests
use zylib.Prelude.{
  ℕ, zero, suc, ◌+◌, ◌*◌, ◌/◌, ◌%◌, ◌^◌, Bool, not, ◌&&◌, ◌||◌, List, [], ◌∷◌, ◌++◌, leb, ◌==◌,
  if◌then◌else◌, length, get_or, take,
}

-- `n` numbers from `first` on.
abbrev pub run : ℕ → ℕ → List ℕ
run first zero = []
run first (suc n) = first ∷ run (suc first) n

-- base64_chars: A to Z, a to z, 0 to 9, + and /.
abbrev pub base64_chars : List ℕ
base64_chars = run 65 26 ++ (run 97 26 ++ (run 48 10 ++ 43 ∷ 47 ∷ []))

-- `base64_chars[i]`
unfoldable pub char_at : ℕ → ℕ
char_at i = get_or base64_chars i 0

-- The place of a byte in a list, as std::string::find gives it; npos as an unsigned char is 255.
unfoldable pub find_from : ℕ → List ℕ → ℕ → ℕ
find_from i [] x = 255
find_from i (c ∷ cs) x = if c == x then i else find_from (suc i) cs x

unfoldable pub find : ℕ → ℕ
unfolding find_from
find x = find_from 0 base64_chars x

abbrev pub between : ℕ → ℕ → ℕ → Bool
between low high x = leb low x && leb x high

-- is_base64
unfoldable pub is_base64 : ℕ → Bool
is_base64 x = between 48 57 x || between 65 90 x || between 97 122 x || x == 43 || x == 47

-- The four characters of char_array_3.
unfoldable pub quad : ℕ → ℕ → ℕ → List ℕ
quad a b c =
    char_at (a / 4)
    ∷ char_at (a % 4 * 16 + b / 16)
    ∷ char_at (b % 16 * 4 + c / 64)
    ∷ char_at (c % 64)
    ∷ []

-- char_array_3 with the first `i` bytes filled.
pub data Filled : Type 0 where
  no_bytes : Filled
  one_byte : ℕ → Filled
  two_bytes : ℕ → ℕ → Filled

-- What follows the loop of Encode: the characters of a last group, and `=` for the missing ones.
unfoldable pub encode_tail : Filled → List ℕ
unfolding quad
encode_tail no_bytes = []
encode_tail (one_byte a) = take 2 (quad a 0 0) ++ 61 ∷ 61 ∷ []
encode_tail (two_bytes a b) = take 3 (quad a b 0) ++ 61 ∷ []

unfoldable pub encode_loop : Filled → List ℕ → List ℕ
unfolding encode_tail quad
encode_loop f [] = encode_tail f
encode_loop no_bytes (x ∷ xs) = encode_loop (one_byte x) xs
encode_loop (one_byte a) (x ∷ xs) = encode_loop (two_bytes a x) xs
encode_loop (two_bytes a b) (x ∷ xs) = quad a b x ++ encode_loop no_bytes xs

-- Encode of a string, whose length is cast to an unsigned int.
unfoldable pub encode : List ℕ → List ℕ
unfolding encode_loop
encode s = encode_loop no_bytes (take (length s % 2 ^ 32) s)

-- The three bytes of char_array_4, whose characters are looked up first.
unfoldable pub triple : ℕ → ℕ → ℕ → ℕ → List ℕ
triple a b c d =
    (find a * 4 + find b / 16 % 4) % 256
    ∷ (find b % 16 * 16 + find c / 4 % 16) % 256
    ∷ (find c % 4 * 64 + find d) % 256
    ∷ []

-- char_array_4 with the first `i` characters filled.
pub data Read : Type 0 where
  no_chars : Read
  one_char : ℕ → Read
  two_chars : ℕ → ℕ → Read
  three_chars : ℕ → ℕ → ℕ → Read

-- What follows the loop of Decode: one byte less than there are characters; the others are 0.
unfoldable pub decode_tail : Read → List ℕ
unfolding triple
decode_tail no_chars = []
decode_tail (one_char a) = []
decode_tail (two_chars a b) = take 1 (triple a b 0 0)
decode_tail (three_chars a b c) = take 2 (triple a b c 0)

-- The condition of the loop of Decode on the next character.
unfoldable pub goes_on : ℕ → Bool
unfolding is_base64
goes_on x = not (x == 61) && is_base64 x

unfoldable pub decode_loop : Read → List ℕ → List ℕ
decode_loop r [] = decode_tail r
decode_loop no_chars (x ∷ xs) =
    let rest = decode_loop (one_char x) xs in if goes_on x then rest else decode_tail no_chars
decode_loop (one_char a) (x ∷ xs) =
    let rest = decode_loop (two_chars a x) xs in
    if goes_on x then rest else decode_tail (one_char a)
decode_loop (two_chars a b) (x ∷ xs) =
    let rest = decode_loop (three_chars a b x) xs in
    if goes_on x then rest else decode_tail (two_chars a b)
decode_loop (three_chars a b c) (x ∷ xs) =
    let rest = decode_loop no_chars xs in
    if goes_on x then triple a b c x ++ rest else decode_tail (three_chars a b c)

-- Decode
unfoldable pub decode : List ℕ → List ℕ
unfolding decode_loop
decode s = decode_loop no_chars s
