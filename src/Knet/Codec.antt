-- ===== src/Knet/Codec.antt =====
-- knet/detail/MessageDetail.cpp, MessageDecoder: a message on the wire is the sender's id, a zero
-- byte, the receiver's id, a zero byte, the four bytes of the message id, and the payload. The key
-- travels beside it. A string is its bytes; a MsgID is the pattern of its int32_t.
pub mod RoundTrip
pub mod Accepting
mod Tests
use zylib.Prelude.{
  ℕ, ◌+◌, ◌-◌, Bool, true, false, ◌||◌, Option, none, some, List, [], ◌∷◌, ltb, leb, ◌==◌,
  if◌then◌else◌, length, take, drop, resize, memcpy_at,
}
use zylib.Network.Decoder.{bytes32, read32}

pub record SendMsg : Type 0 where
  pub from_sid : List ℕ
  pub to_sid : List ℕ
  pub msg_id : ℕ
  pub payload : List ℕ
  pub key : List ℕ
  pub buffer : List ℕ

pub record ReceivedMsg : Type 0 where
  pub from_sid : List ℕ
  pub to_sid : List ℕ
  pub msg_id : ℕ
  pub payload : List ℕ
  pub key : List ℕ

-- The constructor, which makes an empty buffer.
unfoldable pub new_send_msg : List ℕ → List ℕ → ℕ → List ℕ → List ℕ → SendMsg
new_send_msg from to id payload key = record {
  from_sid = from;
  to_sid = to;
  msg_id = id;
  payload = payload;
  key = key;
  buffer = [];
}

abbrev pub is_nil : List ℕ → Bool
is_nil [] = true
is_nil (_ ∷ _) = false

-- sizeof(MsgID)
abbrev pub id_size : ℕ
id_size = 4

-- Encode: the buffer takes its full size, and the parts are copied to their places in it.
unfoldable pub encode : SendMsg → SendMsg
encode m =
    if is_nil m.from_sid || is_nil m.to_sid
    then m
    else (let to_pos = length m.from_sid + 1 in
        let id_pos = to_pos + (length m.to_sid + 1) in
        let payload_pos = id_pos + id_size in
        record m {
          buffer = memcpy_at payload_pos m.payload (
              memcpy_at id_pos (bytes32 m.msg_id) (
                memcpy_at to_pos m.to_sid
                  (memcpy_at 0 m.from_sid (resize (payload_pos + length m.payload) 0 m.buffer))));
        })

-- The loop of Decode: the places of the first two zero bytes, from place `i` on.
unfoldable pub scan : ℕ → Option ℕ → List ℕ → Option ℕ × Option ℕ
scan i from [] = (from, none)
scan i none (b ∷ bs) = scan (i + 1) (if b == 0 then some i else none) bs
scan i (some f) (b ∷ bs) = if b == 0 then (some f, some i) else scan (i + 1) (some f) bs

-- Decode behind the loop, with the places that it found.
unfoldable pub decode_at : List ℕ → List ℕ → ℕ → ℕ → Option ReceivedMsg
decode_at p key f t =
    let from = take f p in
    let to = take (t - (f + 1)) (drop (f + 1) p) in
    let pos = t + 1 in
    if is_nil from
    then none
    else if is_nil to
    then none
    else if ltb (length p) (pos + id_size)
    then none
    else some (record {
      from_sid = from;
      to_sid = to;
      msg_id = read32 0 (drop pos p);
      payload = drop (pos + id_size) p;
      key = key;
    })

abbrev pub decode_found : List ℕ → List ℕ → Option ℕ × Option ℕ → Option ReceivedMsg
decode_found p key (some f, some t) = decode_at p key f t
decode_found p key (some f, none) = none
decode_found p key (none, t) = none

-- Decode; the key is `none` for a null pointer.
unfoldable pub decode : List ℕ → Option (List ℕ) → Option ReceivedMsg
decode p none = none
decode p (some key) =
    if leb (length p) 4
    then none
    else if is_nil key
    then none
    else decode_found p key (scan 0 none p)
