-- ===== src/Base64/RoundTrip.antt =====
-- zylib/Base64.cpp: Decode on what Encode writes, and on other input.
use zylib.Prelude.{ℕ, ◌<◌, ◌≡◌, refl, false, List, [], ◌∷◌, ◌++◌, All}
use zylib.Base64.{decode_loop, decode, goes_on, no_chars, one_char, two_chars, three_chars, Read}

-- Every number is a byte.
abbrev pub Bytes : List ℕ → Type 0
Bytes = All (λ b. b < 256)

-- Decode ends at the first character that is not of the alphabet: what follows it does not matter.
decode_loop_stops :
    (r : Read) (s : List ℕ) (x : ℕ) (t : List ℕ)
    → goes_on x ≡ false
    → decode_loop r (s ++ x ∷ t) ≡ decode_loop r s
unfolding decode_loop
decode_loop_stops no_chars [] x t e = rw (e) refl
decode_loop_stops (one_char a) [] x t e = rw (e) refl
decode_loop_stops (two_chars a b) [] x t e = rw (e) refl
decode_loop_stops (three_chars a b c) [] x t e = rw (e) refl
decode_loop_stops no_chars (y ∷ s) x t e = rw (decode_loop_stops (one_char y) s x t e) refl
decode_loop_stops (one_char a) (y ∷ s) x t e = rw (decode_loop_stops (two_chars a y) s x t e) refl
decode_loop_stops (two_chars a b) (y ∷ s) x t e =
    rw (decode_loop_stops (three_chars a b y) s x t e) refl
decode_loop_stops (three_chars a b c) (y ∷ s) x t e = rw (decode_loop_stops no_chars s x t e) refl

-- Decode ends at the first character that is not of the alphabet, `=` among them: it gives the same
-- whatever stands there and behind it.
pub decode_stops :
    (s : List ℕ) (x : ℕ) (t : List ℕ) → goes_on x ≡ false → decode (s ++ x ∷ t) ≡ decode s
unfolding decode
decode_stops s x t e = decode_loop_stops no_chars s x t e
