-- ===== src/Network/Decoder/Tests.antt =====
-- The decoder at concrete bytes.
use zylib.Prelude.{ℕ, ◌≡◌, ◌⊎◌, true, some, List, [], ◌∷◌, arith}
use zylib.Network.Buffer.{FlatBuffer}
use zylib.Network.Decoder.{Message, decode}
use zylib.Network.Decoder.Endless.{MeetsZero, decode-ends}

abbrev zeros : List ℕ
zeros = 0 ∷ 0 ∷ 0 ∷ 0 ∷ 0 ∷ 0 ∷ 0 ∷ 0 ∷ 0 ∷ 0 ∷ 0 ∷ 0 ∷ []

-- A head with the length field -16.
abbrev bad_head : FlatBuffer
bad_head = record { buffer = 240 ∷ 255 ∷ 255 ∷ 255 ∷ zeros }

decode-ends_example :
    ((r : FlatBuffer × List Message) × (decode true 17 bad_head [] ≡ some r))
    ⊎ MeetsZero bad_head.buffer
decode-ends_example = decode-ends 17 bad_head [] (omega arith)
