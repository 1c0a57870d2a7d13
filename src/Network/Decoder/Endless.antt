-- ===== src/Network/Decoder/Endless.antt =====
-- Where the loop of `Decode` ends, and where it does not.
use zylib.Prelude.{
  ℕ, zero, suc, ◌+◌, ◌-◌, ◌^◌, ◌≤◌, ◌<◌, ◌≡◌, refl, ◌∙◌, ◌⊎◌, inl, inr, Bool, true, false, none,
  some, List, [], ◌∷◌, ◌++◌, arith, ltb, if◌then◌else◌, ltb→ge, ge→ltb, Bool-cases, length, drop,
  length-append, length-drop,
}
use zylib.Network.Buffer.{FlatBuffer, empty_buffer, append, consume, consume_lem}
use zylib.Network.Decoder.{
  Message, head_length, MessageHead, read_head, msg_length, decode_once, decode,
}
use zylib.Network.Decoder.Head.{frame, Fits, length-frame, msg_length-frame}

-- A call on a buffer that holds as many bytes as its head states.
once-whole :
    (asserts : Bool) (b : FlatBuffer) (n : ℕ)
    → head_length ≤ length b.buffer
    → n ≤ length b.buffer
    → msg_length (read_head b.buffer) ≡ n
    → decode_once asserts b
      ≡ some (append empty_buffer (some b.buffer) n, if asserts then (consume b n).0 else b)
unfolding decode_once
once-whole asserts b n h k e = rw (e, ge→ltb _ _ h, ge→ltb _ _ k)

once-drop :
    (b : FlatBuffer) (n : ℕ)
    → head_length ≤ length b.buffer
    → n ≤ length b.buffer
    → msg_length (read_head b.buffer) ≡ n
    → decode_once true b
      ≡ some (append empty_buffer (some b.buffer) n, record { buffer = drop n b.buffer })
once-drop b n h k e = once-whole true b n h k e ∙ rw ((consume_lem b n).0 k)

-- A call that leaves the buffer as it was comes back to itself.
decode-loops :
    (asserts : Bool) (b : FlatBuffer) (msg : Message)
    → decode_once asserts b ≡ some (msg, b)
    → (fuel : ℕ) (vec : List Message) → decode asserts fuel b vec ≡ none
unfolding decode
decode-loops asserts b msg e zero vec = refl
decode-loops asserts b msg e (suc fuel) vec =
    rw (e, decode) (decode-loops asserts b msg e fuel (vec ++ msg ∷ []))

-- The pattern of the int32_t -16.
abbrev pub minus_head_length : ℕ
minus_head_length = 2 ^ 32 - head_length

stated-minus_head : (h : MessageHead) → h.body_length ≡ minus_head_length → msg_length h ≡ 0
unfolding msg_length
stated-minus_head h e = rw e

-- A received head whose length field is -16 keeps `Decode` in its loop for ever, for every amount
-- of fuel, whatever else has been received.
pub decode-minus_head :
    (b : FlatBuffer) (fuel : ℕ) (vec : List Message)
    → head_length ≤ length b.buffer
    → (read_head b.buffer).body_length ≡ minus_head_length
    → decode true fuel b vec ≡ none
decode-minus_head b fuel vec h e =
    decode-loops true b _ (once-drop b 0 h (omega arith) (stated-minus_head (read_head b.buffer) e))
      fuel vec

-- Where `assert` is compiled out, nothing is consumed: one whole message in the buffer keeps
-- `Decode` in its loop for ever.
pub decode-no_asserts :
    (body rest : List ℕ) (fuel : ℕ) (vec : List Message)
    → Fits body
    → decode false fuel (record { buffer = (frame body).buffer ++ rest }) vec ≡ none
decode-no_asserts body rest fuel vec h =
    decode-loops false b _
      (once-whole false b (head_length + length body) (omega (arith, size)) (omega (arith, size))
        (msg_length-frame body rest h))
      fuel vec
  where
    b : FlatBuffer
    b = record { buffer = (frame body).buffer ++ rest }

    size : length b.buffer ≡ head_length + length body + length rest
    size = omega (arith, length-append (frame body).buffer rest, length-frame body)

-- A head that states the message length 0 stands at the front, or behind whole messages with other lengths.
pub data MeetsZero : List ℕ → Type 0 where
  here : {bs : List ℕ} → head_length ≤ length bs → msg_length (read_head bs) ≡ 0 → MeetsZero bs
  behind :
      {bs : List ℕ} (n : ℕ)
      → msg_length (read_head bs) ≡ suc n
      → suc n ≤ length bs
      → MeetsZero (drop (suc n) bs)
      → MeetsZero bs

once-cases :
    (b : FlatBuffer)
    → (decode_once true b ≡ none)
      ⊎ ((msg : Message) × (n : ℕ) × (n ≤ length b.buffer)
          × (head_length ≤ length b.buffer)
          × (msg_length (read_head b.buffer) ≡ n)
          × (decode_once true b ≡ some (msg, record { buffer = drop n b.buffer })))
unfolding decode_once
once-cases b = elim (Bool-cases (ltb (length b.buffer) head_length)) [
  | inl short ↦ inl (rw short)
  | inr h ↦ elim (Bool-cases (ltb (length b.buffer) (msg_length (read_head b.buffer)))) [
    | inl short ↦ inl (ground arith)
    | inr k ↦ inr (
      append empty_buffer (some b.buffer) (msg_length (read_head b.buffer)),
      msg_length (read_head b.buffer),
      ltb→ge _ _ k,
      ltb→ge _ _ h,
      refl,
      unfold decode_once in (once-drop b _ (ltb→ge _ _ h) (ltb→ge _ _ k) refl),
    )
  ]
]

-- With assertions compiled in: with more fuel than bytes the loop ends, or a head that states the message
-- length 0 stands in the buffer behind whole messages.
pub decode-ends :
    (fuel : ℕ) (b : FlatBuffer) (vec : List Message)
    → length b.buffer < fuel
    → ((r : FlatBuffer × List Message) × (decode true fuel b vec ≡ some r)) ⊎ MeetsZero b.buffer
unfolding decode
decode-ends zero b vec h = absurd (omega arith)
decode-ends (suc fuel) b vec h = elim (once-cases b) [
  | inl e ↦ inl ((b, vec), rw (e, decode))
  | inr (msg, zero, k, l, m, e) ↦ inr (here l m)
  | inr (msg, suc n, k, l, m, e) ↦
      elim (decode-ends fuel (record { buffer = drop (suc n) b.buffer }) (vec ++ msg ∷ [])
        (omega (arith, length-drop (suc n) b.buffer))) [
          | inl (r, d) ↦ inl (r, rw (e, decode) d)
          | inr z ↦ inr (behind n m k z)
        ]
]
