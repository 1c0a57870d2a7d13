-- ===== src/Vnet/Message.antt =====
-- ChatMessage of network/vnetwork/VNetwork.cpp: a body behind a head of 16 bytes, which starts with its
-- length. `body_length` is the bit pattern of an int32_t, and the machine is little-endian. A length
-- of 2 ^ 31 or more, which is negative, is not followed where the source makes a buffer of it:
-- `resize` throws for it.
pub mod Framing
mod Tests
use zylib.Prelude.{
  ℕ, ◌+◌, ◌%◌, ◌^◌, Bool, true, false, List, ◌++◌, ltb, leb, if◌then◌else◌, length, take, drop,
  replicate,
}
use zylib.Network.Decoder.{bytes32, read32}

abbrev pub header_length : ℕ
header_length = 16

abbrev pub max_body_length : ℕ
max_body_length = 512

pub record ChatMessage : Type 0 where
  pub body_length : ℕ
  pub buffer : List ℕ

unfoldable pub new_message : ChatMessage
new_message = record { body_length = 0; buffer = replicate header_length 0 }

-- Body and BodyLength
abbrev pub body : ChatMessage → List ℕ
body m = drop header_length m.buffer

-- PrepareBody
unfoldable pub prepare_body : ℕ → ChatMessage → ChatMessage
prepare_body n m = record m { buffer = take header_length m.buffer ++ replicate n 0 }

-- EncodeHeader
unfoldable pub encode_header : ChatMessage → ChatMessage
encode_header m = record m {
  buffer = bytes32 m.body_length ++ (replicate 12 0 ++ drop header_length m.buffer);
}

-- Bytes that memcpy, or a read, puts into the body.
unfoldable pub fill_body : List ℕ → ChatMessage → ChatMessage
fill_body bytes m = record m {
  buffer = take header_length m.buffer ++ (bytes ++ drop (header_length + length bytes) m.buffer);
}

-- Create, with `*out` and the data; its length is below 2 ^ 31.
unfoldable pub create : List ℕ → ChatMessage → ChatMessage
unfolding prepare_body fill_body encode_header
create bytes m =
    let n = length bytes % 2 ^ 32 in
    encode_header (fill_body bytes (prepare_body n (record m { body_length = n })))

-- DecodeHeader: the result, and the message.
unfoldable pub decode_header : ChatMessage → Bool × ChatMessage
unfolding prepare_body
decode_header m =
    let body_len = read32 0 m.buffer in
    if leb (2 ^ 31) body_len
    then (false, m)
    else if ltb max_body_length body_len
    then (false, m)
    else (true, prepare_body body_len (record m { body_length = body_len }))

unfoldable pub reset : ChatMessage → ChatMessage
reset m = record m { buffer = replicate header_length 0 }

-- A read that fills the head.
unfoldable pub fill_head : List ℕ → ChatMessage → ChatMessage
fill_head bytes m = record m { buffer = bytes ++ drop header_length m.buffer }

-- What is sent of a message: `Length` bytes from `Data`.
unfoldable pub sent : ChatMessage → List ℕ
sent m = take (header_length + m.body_length) m.buffer
