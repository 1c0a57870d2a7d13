-- ===== src/Vnet/Message/Framing.antt =====
-- ChatMessage of network/vnetwork/VNetwork.cpp: a message written, and its head read back.
use zylib.Prelude.{
  ℕ, zero, suc, ◌+◌, ◌*◌, ◌/◌, ◌%◌, ◌^◌, ◌≤◌, ◌<◌, ◌≡◌, refl, sym, ap, ◌∙◌, true, false, List, [],
  ◌∷◌, ◌++◌, append-nil, arith, length, take, drop, replicate, take-all, drop-all, take-length,
  drop-ge,
}
use zylib.Network.Decoder.{bytes32}
use zylib.Vnet.Message.{
  ChatMessage, new_message, header_length, max_body_length, body, prepare_body, encode_header,
  fill_body, create, decode_header, fill_head, sent,
}

abbrev pub head_of : List ℕ → List ℕ
head_of bytes = bytes32 (length bytes) ++ replicate 12 0

-- The bytes of a message.
abbrev pub framed : List ℕ → List ℕ
framed bytes = head_of bytes ++ bytes

length-replicate : (n a : ℕ) → length (replicate n a) ≡ n
length-replicate zero a = refl
length-replicate (suc n) a = ap suc (length-replicate n a)

take-past :
    (head xs : List ℕ) (n k : ℕ) → n ≡ length head + k → take n (head ++ xs) ≡ head ++ take k xs
take-past [] xs n k e = let e' : n ≡ k = omega arith in ap (λ i. take i xs) e'
take-past (h ∷ head) xs zero k e = absurd (omega arith)
take-past (h ∷ head) xs (suc n) k e = ap (◌∷◌ h) (take-past head xs n k (omega arith))

drop-past : (head xs : List ℕ) (n k : ℕ) → n ≡ length head + k → drop n (head ++ xs) ≡ drop k xs
drop-past [] xs n k e = let e' : n ≡ k = omega arith in ap (λ i. drop i xs) e'
drop-past (h ∷ head) xs zero k e = absurd (omega arith)
drop-past (h ∷ head) xs (suc n) k e = drop-past head xs n k (omega arith)

-- Room of the length of the data is all filled.
filled :
    (head bytes : List ℕ) (n : ℕ)
    → length head ≡ header_length
    → n ≡ header_length + length bytes
    → drop n (head ++ replicate (length bytes) 0) ≡ []
filled head bytes n e f =
    drop-past head (replicate (length bytes) 0) n (length bytes) (omega arith)
    ∙ drop-ge (length bytes) (replicate (length bytes) 0)
        (omega (arith, length-replicate (length bytes) 0))

-- The head, and then the data.
pub sent-create :
    (bytes : List ℕ) → length bytes < 2 ^ 31 → sent (create bytes new_message) ≡ framed bytes
unfolding sent create prepare_body encode_header fill_body new_message
sent-create bytes h =
    let small : length bytes % 2 ^ 32 ≡ length bytes = omega arith in
    let full = filled (replicate header_length 0) bytes (header_length + length bytes) refl refl in
    let cut =
      take-past (head_of bytes) bytes (header_length + length bytes) (length bytes) refl
      ∙ ap (◌++◌ (head_of bytes)) (take-length (length bytes) bytes refl) in
    rw (small, full, append-nil bytes) cut

-- A head that states a length which is allowed.
pub decode_header-head_of :
    (bytes : List ℕ) (m : ChatMessage)
    → length bytes ≤ max_body_length
    → decode_header (fill_head (head_of bytes) m) ≡ (
      true,
      record { body_length = length bytes; buffer = head_of bytes ++ replicate (length bytes) 0 },
    )
unfolding decode_header fill_head prepare_body
decode_header-head_of bytes m h =
    let n = length bytes in
    let read : n % 256
          + 256 * (n / 256 % 256)
          + 65536 * (n / 65536 % 256)
          + 16777216 * (n / 16777216 % 256)
        ≡ n =
      omega arith in
    rw read (ground arith)

pub decode_header-long :
    (bytes : List ℕ) (m : ChatMessage)
    → max_body_length < length bytes
    → length bytes < 2 ^ 32
    → (decode_header (fill_head (head_of bytes) m)).0 ≡ false
unfolding decode_header fill_head
decode_header-long bytes m h b = ground arith

pub body-fill_body :
    (bytes head : List ℕ) (n : ℕ)
    → length head ≡ header_length
    → body
        (fill_body bytes (record { body_length = n; buffer = head ++ replicate (length bytes) 0 }))
      ≡ bytes
unfolding fill_body
body-fill_body bytes head n e =
    let room = replicate (length bytes) 0 in
    let full = filled head bytes (header_length + length bytes) e refl in
    let top = take-all header_length head room (sym e) in
    rw (full, top, append-nil bytes) (drop-all header_length head bytes (sym e))
