-- ===== src/Network/Decoder/Head.antt =====
-- The head of a message, written and read back.
use zylib.Prelude.{
  ℕ, suc, ◌+◌, ◌%◌, ◌^◌, ◌≤◌, ◌<◌, ◌≡◌, refl, sym, ap, ◌∙◌, ◌≢◌, inl, inr, true, none, some, List,
  [], ◌∷◌, ◌++◌, append-nil, append_assoc, arith, ltb, ltb→ge, Bool-cases, length, length-append,
  length_pos, take-all, drop-all, take-length, get_or-append,
}
use zylib.Network.Buffer.{empty_buffer, append, reserved, consume_lem}
use zylib.Network.Decoder.{
  zero_head, head_length, head_bytes, read32, read_head, msg_length, encode, decode_once, Message,
}

-- The message that `Encode` makes of a body.
abbrev pub frame : List ℕ → Message
frame body = encode (some body) (length body) empty_buffer

-- A body whose message length an int holds.
abbrev pub Fits : List ℕ → Type 0
Fits body = length body + head_length < 2 ^ 31

abbrev pub head_of : List ℕ → List ℕ
head_of body = head_bytes (record zero_head { body_length = length body % 2 ^ 32 })

-- A message is its head and then its body.
pub buffer-frame : (body : List ℕ) → (frame body).buffer ≡ head_of body ++ body
unfolding encode append reserved
buffer-frame [] = refl
buffer-frame (x ∷ xs) = ground (arith, take-length (length (x ∷ xs)) (x ∷ xs) refl)

pub length-frame : (body : List ℕ) → length (frame body).buffer ≡ head_length + length body
length-frame body = rw (buffer-frame body) (omega arith)

-- The length is read back from the first four bytes.
pub msg_length_of_head :
    (body rest : List ℕ)
    → Fits body
    → msg_length (read_head (head_of body ++ rest)) ≡ head_length + length body
unfolding msg_length read_head
msg_length_of_head body rest h = ground arith

pub read32-append :
    (i : ℕ) (bs rest : List ℕ) → i + 4 ≤ length bs → read32 i (bs ++ rest) ≡ read32 i bs
read32-append i bs rest h = rw (
  get_or-append bs rest i 0 (omega arith),
  get_or-append bs rest (suc i) 0 (omega arith),
  get_or-append bs rest (suc (suc i)) 0 (omega arith),
  get_or-append bs rest (suc (suc (suc i))) 0 (omega arith),
)

-- Bytes behind the head do not change what is read as the head.
pub read_head-append :
    (bs rest : List ℕ) → head_length ≤ length bs → read_head (bs ++ rest) ≡ read_head bs
unfolding read_head
read_head-append bs rest h = λ i. record {
  body_length = read32-append 0 bs rest (omega arith) i;
  unknown_0 = read32-append 4 bs rest (omega arith) i;
  unknown_1 = read32-append 8 bs rest (omega arith) i;
  unknown_2 = read32-append 12 bs rest (omega arith) i;
}

pub msg_length-frame :
    (body rest : List ℕ)
    → Fits body
    → msg_length (read_head ((frame body).buffer ++ rest)) ≡ head_length + length body
msg_length-frame body rest h =
    rw (buffer-frame body, append_assoc (head_of body) body rest)
      (msg_length_of_head body (body ++ rest) h)

-- Bytes whose head states their length are cut off as a message, and the rest stays.
decode_once-cut :
    (bs rest : List ℕ) (n : ℕ)
    → head_length ≤ n
    → n ≡ length bs
    → msg_length (read_head (bs ++ rest)) ≡ n
    → decode_once true (record { buffer = bs ++ rest })
      ≡ some (record { buffer = bs }, record { buffer = rest })
unfolding decode_once append
decode_once-cut bs rest n big e m = rw m (
    ground (
      arith,
      length-append bs rest,
      take-all n bs rest e,
      drop-all n bs rest e,
      (consume_lem (record { buffer = bs ++ rest }) n).0,
    ))

-- A whole message at the front is cut off, and the rest stays.
pub decode_once-frame :
    (body rest : List ℕ)
    → Fits body
    → decode_once true (record { buffer = (frame body).buffer ++ rest })
      ≡ some (frame body, record { buffer = rest })
decode_once-frame body rest h =
    decode_once-cut (frame body).buffer rest (head_length + length body) (omega arith)
      (sym (length-frame body)) (msg_length-frame body rest h)

-- A part of a message that is not all of it stays in the buffer.
pub decode_once-part :
    (body part rest : List ℕ)
    → Fits body
    → part ++ rest ≡ (frame body).buffer
    → rest ≢ []
    → decode_once true (record { buffer = part }) ≡ none
unfolding decode_once
decode_once-part body part rest h e ne = elim (Bool-cases (ltb (length part) head_length)) [
  | inl short ↦ rw short
  | inr long ↦ ground (arith, stated (ltb→ge _ _ long), shorter)
]
  where
    total : length part + length rest ≡ head_length + length body
    total = sym (length-append part rest) ∙ ap length e ∙ length-frame body

    shorter : length part < head_length + length body
    shorter = omega (arith, length_pos rest ne, total)

    stated : head_length ≤ length part → msg_length (read_head part) ≡ head_length + length body
    stated l =
        rw (← read_head-append part rest l, e, ← append-nil (frame body).buffer)
          (msg_length-frame body [] h)
