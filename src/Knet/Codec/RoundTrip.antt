-- ===== src/Knet/Codec/RoundTrip.antt =====
-- knet/detail/MessageDetail.cpp: what Encode writes, and Decode on it.
use zylib.Prelude.{
  ℕ, zero, suc, ◌+◌, ◌-◌, ◌^◌, ◌<◌, ◌≡◌, refl, sym, ap, ◌∙◌, ◌≢◌, false, none, some, List, [], ◌∷◌,
  ◌++◌, append-nil, append_assoc, arith, ltb, leb, ◌==◌, ge→ltb, gt→leb, length, take, drop, resize,
  length-append, length-resize, drop-drop, take-all, drop-all, memcpy_at, All,
}
use zylib.Network.Decoder.{bytes32, read32}
use zylib.Knet.Codec.{new_send_msg, is_nil, encode, scan, decode_at, decode, id_size}

-- No byte is zero.
abbrev pub NoZero : List ℕ → Type 0
NoZero = All (λ b. b ≢ 0)

-- The bytes of a message.
abbrev pub wire : List ℕ → List ℕ → ℕ → List ℕ → List ℕ
wire from to id payload = from ++ (0 ∷ (to ++ (0 ∷ (bytes32 id ++ payload))))

abbrev zeros : ℕ → List ℕ
zeros n = resize n 0 []

zeros-add : (m n k : ℕ) → k ≡ m + n → zeros k ≡ zeros m ++ zeros n
zeros-add zero n k e = let e' : k ≡ n = omega arith in ap zeros e'
zeros-add (suc m) n zero e = absurd (omega arith)
zeros-add (suc m) n (suc k) e = ap (◌∷◌ 0) (zeros-add m n k (omega arith))

-- Copying over as many bytes behind a first part.
memcpy_at-over :
    (n : ℕ) (pre src old post whole : List ℕ)
    → whole ≡ pre ++ (old ++ post)
    → n ≡ length pre
    → length old ≡ length src
    → memcpy_at n src whole ≡ pre ++ (src ++ post)
unfolding memcpy_at
memcpy_at-over n pre src old post whole w e s = rw (
  w,
  take-all n pre (old ++ post) e,
  drop-drop n (length src) (n + length src) (pre ++ (old ++ post)) refl,
  drop-all n pre (old ++ post) e,
  drop-all (length src) old post (sym s),
)

-- The four copies of Encode, one after another, into zero bytes.
copies :
    (from to id payload : List ℕ) (id_pos payload_pos total : ℕ)
    → length id ≡ 4
    → id_pos ≡ length from + 1 + (length to + 1)
    → payload_pos ≡ id_pos + 4
    → total ≡ payload_pos + length payload
    → memcpy_at payload_pos payload
        (memcpy_at id_pos id (memcpy_at (length from + 1) to (memcpy_at 0 from (zeros total))))
      ≡ from ++ (0 ∷ (to ++ (0 ∷ (id ++ payload))))
copies from to id payload id_pos payload_pos total i4 ip pp tt' =
    memcpy_at-over payload_pos (from ++ (0 ∷ (to ++ (0 ∷ id)))) payload (zeros p) [] _
      (third ∙ simp (append_assoc, append-nil))
      (omega
        (arith, length-append from (0 ∷ (to ++ (0 ∷ id))), length-append to (0 ∷ id), ip, pp, i4))
      (length-resize {A = ℕ} p 0 [])
    ∙ simp (append_assoc, append-nil)
  where
    f : ℕ
    f = length from

    t : ℕ
    t = length to

    p : ℕ
    p = length payload

    blank : zeros total ≡ zeros f ++ (0 ∷ (zeros t ++ (0 ∷ (zeros 4 ++ zeros p))))
    blank =
        zeros-add f (suc (t + suc (4 + p))) total (omega arith)
        ∙ ap (λ z. zeros f ++ (0 ∷ z)) (zeros-add t (suc (4 + p)) (t + suc (4 + p)) refl)
        ∙ ap (λ z. zeros f ++ (0 ∷ (zeros t ++ (0 ∷ z)))) (zeros-add 4 p (4 + p) refl)

    first : memcpy_at 0 from (zeros total) ≡ from ++ (0 ∷ (zeros t ++ (0 ∷ (zeros 4 ++ zeros p))))
    first = memcpy_at-over 0 [] from (zeros f) _ _ blank refl (length-resize f 0 [])

    second :
        memcpy_at (f + 1) to (memcpy_at 0 from (zeros total))
        ≡ from ++ (0 ∷ (to ++ (0 ∷ (zeros 4 ++ zeros p))))
    second =
        memcpy_at-over (f + 1) (from ++ 0 ∷ []) to (zeros t) (0 ∷ (zeros 4 ++ zeros p)) _
          (first ∙ simp append_assoc) (sym (length-append from (0 ∷ []))) (length-resize t 0 [])
        ∙ simp append_assoc

    third :
        memcpy_at id_pos id (memcpy_at (f + 1) to (memcpy_at 0 from (zeros total)))
        ≡ from ++ (0 ∷ (to ++ (0 ∷ (id ++ zeros p))))
    third =
        memcpy_at-over id_pos (from ++ (0 ∷ (to ++ 0 ∷ []))) id (zeros 4) (zeros p) _
          (second ∙ simp append_assoc)
          (omega (arith, length-append from (0 ∷ (to ++ 0 ∷ [])), length-append to (0 ∷ []), ip))
          (length-resize {A = ℕ} 4 0 [] ∙ sym i4)
        ∙ simp append_assoc

-- Encode fills the buffer with exactly the bytes of the message.
pub buffer-encode :
    (from to : List ℕ) (id : ℕ) (payload key : List ℕ)
    → is_nil from ≡ false
    → is_nil to ≡ false
    → (encode (new_send_msg from to id payload key)).buffer ≡ wire from to id payload
unfolding encode new_send_msg
buffer-encode from to id payload key f t =
    rw (f, t) (copies from to (bytes32 id) payload _ _ _ refl refl refl refl)

ne→== : (b : ℕ) → b ≢ 0 → (b == 0) ≡ false
ne→== b h = ground arith

scan-from :
    (i : ℕ) (from rest : List ℕ)
    → NoZero from
    → scan i none (from ++ (0 ∷ rest)) ≡ scan (i + length from + 1) (some (i + length from)) rest
unfolding scan
scan-from i [] rest h = let e : i ≡ i + 0 = omega arith in ap (λ k. scan (k + 1) (some k) rest) e
scan-from i (b ∷ from) rest h =
    rw (ne→== b h.0, scan)
      (scan-from (i + 1) from rest h.1
        ∙ (let e : i + 1 + length from ≡ i + suc (length from) = omega arith in
            ap (λ k. scan (k + 1) (some k) rest) e))

scan-to :
    (i f : ℕ) (to rest : List ℕ)
    → NoZero to
    → scan i (some f) (to ++ (0 ∷ rest)) ≡ (some f, some (i + length to))
unfolding scan
scan-to i f [] rest h = ground arith
scan-to i f (b ∷ to) rest h = rw (ne→== b h.0, scan) (scan-to (i + 1) f to rest h.1 ∙ ground arith)

length-wire :
    (from to : List ℕ) (id : ℕ) (payload : List ℕ)
    → length (wire from to id payload) ≡ length from + length to + 6 + length payload
length-wire from to id payload = omega (
  arith,
  length-append from (0 ∷ (to ++ (0 ∷ (bytes32 id ++ payload)))),
  length-append to (0 ∷ (bytes32 id ++ payload)),
)

read32-bytes32 : (id : ℕ) (rest : List ℕ) → id < 2 ^ 32 → read32 0 (bytes32 id ++ rest) ≡ id
read32-bytes32 id rest h = omega arith

-- Past the first `n` bytes of `from`, the zero byte and `k` bytes more.
pub drop-past :
    (from rest : List ℕ) (n : ℕ) → n ≡ length from + 1 → drop n (from ++ (0 ∷ rest)) ≡ rest
drop-past from rest n e =
    ap (drop n) (sym (append_assoc from (0 ∷ []) rest))
    ∙ drop-all n (from ++ 0 ∷ []) rest (omega (arith, length-append from (0 ∷ [])))

pub decode_at-wire :
    (from to : List ℕ) (id : ℕ) (payload key : List ℕ)
    → is_nil from ≡ false
    → is_nil to ≡ false
    → id < 2 ^ 32
    → decode_at (wire from to id payload) key (length from) (length from + 1 + length to)
      ≡ some (record { from_sid = from; to_sid = to; msg_id = id; payload = payload; key = key })
unfolding decode_at
decode_at-wire from to id payload key f t small =
    rw (from_is, to_is, f, t, fits, body_is, payload_is, read32-bytes32 id payload small)
  where
    p : List ℕ
    p = wire from to id payload

    tail : List ℕ
    tail = to ++ (0 ∷ (bytes32 id ++ payload))

    from_is : take (length from) p ≡ from
    from_is = take-all (length from) from (0 ∷ tail) refl

    to_is : take (length from + 1 + length to - (length from + 1)) (drop (length from + 1) p) ≡ to
    to_is =
        rw (drop-past from tail (length from + 1) refl)
          (take-all _ to (0 ∷ (bytes32 id ++ payload)) (omega arith))

    body_is : drop (length from + 1 + length to + 1) p ≡ bytes32 id ++ payload
    body_is =
        drop-drop (length from + 1) (length to + 1) (length from + 1 + length to + 1) p
          (omega arith)
        ∙ ap (drop (length to + 1)) (drop-past from tail (length from + 1) refl)
        ∙ drop-past to (bytes32 id ++ payload) (length to + 1) refl

    payload_is : drop (length from + 1 + length to + 1 + id_size) p ≡ payload
    payload_is = drop-drop (length from + 1 + length to + 1) 4 _ p refl ∙ ap (drop 4) body_is

    fits : ltb (length p) (length from + 1 + length to + 1 + id_size) ≡ false
    fits = ge→ltb _ _ (omega (arith, length-wire from to id payload))

-- Decode reads back what Encode wrote: the two ids, if they are not empty and hold no zero byte, the
-- message id, the payload and the key.
pub decode-encode :
    (from to : List ℕ) (id : ℕ) (payload key : List ℕ)
    → is_nil from ≡ false
    → is_nil to ≡ false
    → NoZero from
    → NoZero to
    → id < 2 ^ 32
    → is_nil key ≡ false
    → decode (encode (new_send_msg from to id payload key)).buffer (some key)
      ≡ some (record { from_sid = from; to_sid = to; msg_id = id; payload = payload; key = key })
unfolding decode
decode-encode from to id payload key f t nf nt small k =
    rw (buffer-encode from to id payload key f t)
      (rw (long, k, found) (decode_at-wire from to id payload key f t small))
  where
    long : leb (length (wire from to id payload)) 4 ≡ false
    long = gt→leb _ _ (omega (arith, length-wire from to id payload))

    found :
        scan 0 none (wire from to id payload)
        ≡ (some (length from), some (length from + 1 + length to))
    found =
        scan-from 0 from (to ++ (0 ∷ (bytes32 id ++ payload))) nf
        ∙ scan-to (0 + length from + 1) (0 + length from) to (bytes32 id ++ payload) nt
        ∙ ground arith
