-- ===== src/Vnet/Message/Tests.antt =====
-- ChatMessage of network/vnetwork/VNetwork.cpp at concrete inputs.
use zylib.Prelude.{ℕ, ◌≡◌, refl, false, List, [], ◌∷◌}
use zylib.Vnet.Message.{
  new_message, create, decode_header, fill_head, sent, prepare_body, encode_header, fill_body,
}

-- A head, and then the body.
sent_two :
    sent (create (8 ∷ 9 ∷ []) new_message)
    ≡ 2 ∷ 0 ∷ 0 ∷ 0 ∷ 0 ∷ 0 ∷ 0 ∷ 0 ∷ 0 ∷ 0 ∷ 0 ∷ 0 ∷ 0 ∷ 0 ∷ 0 ∷ 0 ∷ 8 ∷ 9 ∷ []
unfolding sent create new_message prepare_body encode_header fill_body
sent_two = refl

-- A head that states 513 bytes.
abbrev long_head : List ℕ
long_head = 1 ∷ 2 ∷ 0 ∷ 0 ∷ 0 ∷ 0 ∷ 0 ∷ 0 ∷ 0 ∷ 0 ∷ 0 ∷ 0 ∷ 0 ∷ 0 ∷ 0 ∷ 0 ∷ []

too_long : (decode_header (fill_head long_head new_message)).0 ≡ false
unfolding decode_header fill_head new_message
too_long = refl
