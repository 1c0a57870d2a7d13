-- ===== src/Base64/Tests.antt =====
-- Short strings in base64.
use zylib.Prelude.{ℕ, ◌≡◌, refl, false, List, [], ◌∷◌}
use zylib.Base64.{char_at, encode, goes_on}

-- "Many" and "M".
abbrev many : List ℕ
many = 77 ∷ 97 ∷ 110 ∷ 121 ∷ []

-- TWFueQ==
encode-many : encode many ≡ 84 ∷ 87 ∷ 70 ∷ 117 ∷ 101 ∷ 81 ∷ 61 ∷ 61 ∷ []
unfolding encode char_at
encode-many = refl

blank_stops : goes_on 32 ≡ false
unfolding goes_on
blank_stops = refl
