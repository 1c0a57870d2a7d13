-- ===== src/Knet/Codec/Accepting.antt =====
-- knet/detail/MessageDetail.cpp: what Decode accepts.
use zylib.Prelude.{
  ℕ, ◌+◌, ◌-◌, ◌/◌, ◌%◌, ◌^◌, ◌≤◌, ◌<◌, ◌≡◌, refl, sym, ap, ◌∙◌, Bool, true, false, Option, none,
  some, List, [], ◌∷◌, ◌++◌, arith, ltb, leb, ◌==◌, if◌then◌else◌, ltb→ge, ==_iff, length, take,
  drop, length-append, take-all, All, All-right,
}
use mathlib.Core.Path.{subst}
use mathlib.Core.Option.{some-injective}
use zylib.Network.Decoder.{bytes32, read32}
use zylib.Knet.Codec.{
  ReceivedMsg, new_send_msg, is_nil, encode, scan, decode_at, decode_found, decode, id_size,
}
use zylib.Knet.Codec.RoundTrip.{wire, buffer-encode, decode_at-wire, drop-past}

-- The places of two zero bytes, with what stands before, between and behind them.
record Split (p : List ℕ) (i f t : ℕ) : Type 0 where
  pub from : List ℕ
  pub to : List ℕ
  pub rest : List ℕ
  pub is : p ≡ from ++ (0 ∷ (to ++ (0 ∷ rest)))
  pub from_at : f ≡ i + length from
  pub to_at : t ≡ i + length from + 1 + length to

record SplitOnce (p : List ℕ) (i t : ℕ) : Type 0 where
  pub to : List ℕ
  pub rest : List ℕ
  pub is : p ≡ to ++ (0 ∷ rest)
  pub to_at : t ≡ i + length to

scan-SplitOnce :
    (i g f t : ℕ) (bs : List ℕ) → scan i (some g) bs ≡ (some f, some t) → (f ≡ g) × SplitOnce bs i t
unfolding scan
scan-SplitOnce i g f t [] h = cc
scan-SplitOnce i g f t (b ∷ bs) h = go (b == 0) refl h (scan-SplitOnce (i + 1) g f t bs)
  where
    go :
        (zero_byte : Bool)
        → (b == 0) ≡ zero_byte
        → (let found : Option ℕ × Option ℕ =
              if zero_byte then (some g, some i) else scan (i + 1) (some g) bs in
            found ≡ (some f, some t))
        → (scan (i + 1) (some g) bs ≡ (some f, some t) → (f ≡ g) × SplitOnce bs (i + 1) t)
        → (f ≡ g) × SplitOnce (b ∷ bs) i t
    go true e k next =
        let at : t ≡ i = cc in
        (
          cc,
          record {
            to = [];
            rest = bs;
            is = ap (λ x. x ∷ bs) ((==_iff b 0).0 e);
            to_at = omega (arith, at);
          },
        )
    go false e k next =
        let (same, s) = next k in
        (
          same,
          record {
            to = b ∷ s.to;
            rest = s.rest;
            is = ap (◌∷◌ b) s.is;
            to_at = omega (arith, s.to_at);
          },
        )

scan-Split : (i f t : ℕ) (bs : List ℕ) → scan i none bs ≡ (some f, some t) → Split bs i f t
unfolding scan
scan-Split i f t [] h = cc
scan-Split i f t (b ∷ bs) h = go (b == 0) refl h (scan-Split (i + 1) f t bs)
  where
    go :
        (zero_byte : Bool)
        → (b == 0) ≡ zero_byte
        → scan (i + 1) (if zero_byte then some i else none) bs ≡ (some f, some t)
        → (scan (i + 1) none bs ≡ (some f, some t) → Split bs (i + 1) f t)
        → Split (b ∷ bs) i f t
    go true e k next =
        let (same, s) = scan-SplitOnce (i + 1) i f t bs k in
        record {
          from = [];
          to = s.to;
          rest = s.rest;
          is = ap (λ x. x ∷ bs) ((==_iff b 0).0 e) ∙ ap (◌∷◌ 0) s.is;
          from_at = omega (arith, same);
          to_at = omega (arith, s.to_at);
        }
    go false e k next =
        let s = next k in
        record {
          from = b ∷ s.from;
          to = s.to;
          rest = s.rest;
          is = ap (◌∷◌ b) s.is;
          from_at = omega (arith, s.from_at);
          to_at = omega (arith, s.to_at);
        }

-- Four bytes are those of the number that they are read as.
bytes32-read32 :
    (rest : List ℕ)
    → All (λ b. b < 256) rest
    → 4 ≤ length rest
    → rest ≡ bytes32 (read32 0 rest) ++ drop 4 rest
bytes32-read32 [] h l = absurd (omega arith)
bytes32-read32 (a ∷ []) h l = absurd (omega arith)
bytes32-read32 (a ∷ b ∷ []) h l = absurd (omega arith)
bytes32-read32 (a ∷ b ∷ c ∷ []) h l = absurd (omega arith)
bytes32-read32 (a ∷ b ∷ c ∷ d ∷ rest) (ha, (hb, (hc, (hd, hr)))) l =
    let n = read32 0 (a ∷ b ∷ c ∷ d ∷ rest) in
    let first : a ≡ n % 256 = omega arith in
    let second : b ≡ n / 256 % 256 = omega arith in
    let third : c ≡ n / 65536 % 256 = omega arith in
    let fourth : d ≡ n / 16777216 % 256 = omega arith in cc

read32-small : (rest : List ℕ) → All (λ b. b < 256) rest → 4 ≤ length rest → read32 0 rest < 2 ^ 32
read32-small [] h l = absurd (omega arith)
read32-small (a ∷ []) h l = absurd (omega arith)
read32-small (a ∷ b ∷ []) h l = absurd (omega arith)
read32-small (a ∷ b ∷ c ∷ []) h l = absurd (omega arith)
read32-small (a ∷ b ∷ c ∷ d ∷ rest) (ha, (hb, (hc, (hd, hr)))) l = omega arith

-- What has passed three tests.
guards :
    {A : Type 0} (a b c : Bool) (x : Option A) (m : A)
    → (if a then none else if b then none else if c then none else x) ≡ some m
    → (a ≡ false) × (b ≡ false) × (c ≡ false) × (x ≡ some m)
guards true b c x m h = cc
guards false true c x m h = cc
guards false false true x m h = cc
guards false false false x m h = (refl, refl, refl, h)

decode_found-some :
    (p key : List ℕ) (o : Option ℕ × Option ℕ) (m : ReceivedMsg)
    → decode_found p key o ≡ some m
    → (f : ℕ) × (t : ℕ) × (o ≡ (some f, some t)) × (decode_at p key f t ≡ some m)
decode_found-some p key (some f, some t) m h = (f, t, refl, h)
decode_found-some p key (some f, none) m h = cc
decode_found-some p key (none, t) m h = cc

-- What Encode makes of a message is what Decode found it in.
at-encode :
    (p key : List ℕ) (m : ReceivedMsg) (f t : ℕ)
    → All (λ b. b < 256) p
    → Split p 0 f t
    → decode_at p key f t ≡ some m
    → ((encode (new_send_msg m.from_sid m.to_sid m.msg_id m.payload m.key)).buffer ≡ p)
      × (m.key ≡ key)
unfolding decode_at
at-encode p key m f t bytes s e =
    subst
      (λ x.
        ((encode (new_send_msg x.from_sid x.to_sid x.msg_id x.payload x.key)).buffer ≡ p)
        × (x.key ≡ key))
      (some-injective _ _ (sym found ∙ e))
      (buffer-encode s.from s.to id payload key from_some to_some ∙ sym p_is, refl)
  where
    passed :
        (is_nil (take f p) ≡ false)
        × (is_nil (take (t - (f + 1)) (drop (f + 1) p)) ≡ false)
        × (ltb (length p) (t + 1 + id_size) ≡ false)
        × (some (record {
          from_sid = take f p;
          to_sid = take (t - (f + 1)) (drop (f + 1) p);
          msg_id = read32 0 (drop (t + 1) p);
          payload = drop (t + 1 + id_size) p;
          key = key;
        })
            ≡ some m)
    passed = guards _ _ _ _ m e

    from_at : f ≡ length s.from
    from_at = omega (arith, s.from_at)

    to_at : t ≡ length s.from + 1 + length s.to
    to_at = omega (arith, s.to_at)

    from_is : take f p ≡ s.from
    from_is = ap (take f) s.is ∙ take-all f s.from _ from_at

    to_is : take (t - (f + 1)) (drop (f + 1) p) ≡ s.to
    to_is =
        ap (λ x. take (t - (f + 1)) (drop (f + 1) x)) s.is
        ∙ ap (take (t - (f + 1))) (drop-past s.from _ (f + 1) (omega (arith, from_at)))
        ∙ take-all (t - (f + 1)) s.to _ (omega (arith, from_at, to_at))

    from_some : is_nil s.from ≡ false
    from_some = subst (λ x. is_nil x ≡ false) from_is passed.0

    to_some : is_nil s.to ≡ false
    to_some = subst (λ x. is_nil x ≡ false) to_is passed.1

    room : 4 ≤ length s.rest
    room = omega (
      arith,
      ltb→ge _ _ passed.2,
      ap length s.is,
      length-append s.from (0 ∷ (s.to ++ (0 ∷ s.rest))),
      length-append s.to (0 ∷ s.rest),
      to_at,
    )

    rest_bytes : All (λ b. b < 256) s.rest
    rest_bytes =
        (All-right _ s.to (0 ∷ s.rest)
          (All-right _ s.from (0 ∷ (s.to ++ (0 ∷ s.rest)))
            (subst (All (λ b. b < 256)) s.is bytes)).1).1

    id : ℕ
    id = read32 0 s.rest

    payload : List ℕ
    payload = drop 4 s.rest

    p_is : p ≡ wire s.from s.to id payload
    p_is =
        s.is ∙ ap (λ x. s.from ++ (0 ∷ (s.to ++ (0 ∷ x)))) (bytes32-read32 s.rest rest_bytes room)

    found :
        decode_at p key f t
        ≡ some
            (record { from_sid = s.from; to_sid = s.to; msg_id = id; payload = payload; key = key })
    found =
        ap (λ x. decode_at x key f t) p_is
        ∙ ap (λ n. decode_at (wire s.from s.to id payload) key n t) from_at
        ∙ ap (decode_at (wire s.from s.to id payload) key (length s.from)) to_at
        ∙ decode_at-wire s.from s.to id payload key from_some to_some
            (read32-small s.rest rest_bytes room)

-- If Decode accepts some bytes, then Encode writes these very bytes for the message that it returned,
-- whose key is the one that came with them.
pub encode-decode :
    (p key : List ℕ) (m : ReceivedMsg)
    → All (λ b. b < 256) p
    → decode p (some key) ≡ some m
    → ((encode (new_send_msg m.from_sid m.to_sid m.msg_id m.payload m.key)).buffer ≡ p)
      × (m.key ≡ key)
unfolding decode
encode-decode p key m bytes e =
    let (long, some_key, same, d) =
      guards (leb (length p) 4) (is_nil key) false (decode_found p key (scan 0 none p)) m e in
    let (f, t, o, at) = decode_found-some p key (scan 0 none p) m d in
    at-encode p key m f t bytes (scan-Split 0 f t p o) at
