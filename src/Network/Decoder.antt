-- ===== src/Network/Decoder.antt =====
-- zysoft/src/network/MessageDecoder.h and Message.h: DefaultMessageDecoder, which puts a message
-- behind a head of four int32_t and cuts the received bytes into such messages. An int32_t is its
-- bit pattern, below 2 ^ 32. `memcpy` of the head is read on a little-endian machine, where int
-- arithmetic wraps. `asserts` says whether `assert` is compiled in (no NDEBUG): the source makes
-- its call of `Consume` inside `NETWORK_ASSERT`.
pub mod Head
pub mod Stream
pub mod Endless
mod Tests
use zylib.Prelude.{
  ℕ, zero, suc, ◌+◌, ◌-◌, ◌*◌, ◌/◌, ◌%◌, ◌^◌, Bool, Option, none, some, List, [], ◌∷◌, ◌++◌, ltb,
  if◌then◌else◌, length, get_or, drop,
}
use zylib.Network.Buffer.{FlatBuffer, empty_buffer, append, consume, reserved}

-- A Message is the buffer that it holds.
abbrev pub Message : Type 0
Message = FlatBuffer

-- sizeof(MessageHead)
abbrev pub head_length : ℕ
head_length = 16

pub record MessageHead : Type 0 where
  pub body_length : ℕ
  pub unknown_0 : ℕ
  pub unknown_1 : ℕ
  pub unknown_2 : ℕ

abbrev pub zero_head : MessageHead
zero_head = record { body_length = 0; unknown_0 = 0; unknown_1 = 0; unknown_2 = 0 }

-- The four bytes of a 32-bit pattern, the lowest first.
abbrev pub bytes32 : ℕ → List ℕ
bytes32 n = (n % 256) ∷ (n / 256 % 256) ∷ (n / 65536 % 256) ∷ (n / 16777216 % 256) ∷ []

abbrev pub head_bytes : MessageHead → List ℕ
head_bytes h =
    bytes32 h.body_length ++ (bytes32 h.unknown_0 ++ (bytes32 h.unknown_1 ++ bytes32 h.unknown_2))

-- The pattern of the four bytes from place `i` on.
abbrev pub read32 : ℕ → List ℕ → ℕ
read32 i bs =
    get_or bs i 0
    + 256 * get_or bs (suc i) 0
    + 65536 * get_or bs (suc (suc i)) 0
    + 16777216 * get_or bs (suc (suc (suc i))) 0

unfoldable pub read_head : List ℕ → MessageHead
read_head bs = record {
  body_length = read32 0 bs;
  unknown_0 = read32 4 bs;
  unknown_1 = read32 8 bs;
  unknown_2 = read32 12 bs;
}

-- `std::size_t msg_length = HEAD_LENGTH + head.m_body_length`: the sum is an int, which is then
-- sign-extended to 64 bits.
unfoldable pub msg_length : MessageHead → ℕ
msg_length h =
    let sum = (head_length + h.body_length) % 2 ^ 32 in
    if ltb sum (2 ^ 31) then sum else 2 ^ 64 - 2 ^ 32 + sum

unfoldable pub encode : Option (List ℕ) → ℕ → Message → Message
encode body n out =
    let head = record zero_head { body_length = n % 2 ^ 32 } in
    append (append (reserved out (head_length + n)) (some (head_bytes head)) head_length) body n

-- `none` is a return of false. The buffer is consumed only where the assertion is compiled in.
unfoldable pub decode_once : Bool → FlatBuffer → Option (Message × FlatBuffer)
decode_once asserts b =
    if ltb (length b.buffer) head_length
    then none
    else let n = msg_length (read_head b.buffer) in
      if ltb (length b.buffer) n
      then none
      else some (append empty_buffer (some b.buffer) n, if asserts then (consume b n).0 else b)

-- The loop of `Decode`, with fuel; `none` means that the fuel ran out.
unfoldable pub decode : Bool → ℕ → FlatBuffer → List Message → Option (FlatBuffer × List Message)
decode asserts zero b vec = none
decode asserts (suc fuel) b vec = elim (decode_once asserts b) [
  | none ↦ some (b, vec)
  | some (msg, b') ↦ decode asserts fuel b' (vec ++ msg ∷ [])
]

-- Message::BodyLength
unfoldable pub body_length_of : Message → ℕ
body_length_of m = if ltb (length m.buffer) head_length then 0 else length m.buffer - head_length

-- The bytes from Message::BodyPtr on.
unfoldable pub body_bytes : Message → List ℕ
body_bytes m = drop head_length m.buffer
