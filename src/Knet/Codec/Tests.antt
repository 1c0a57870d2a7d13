-- ===== src/Knet/Codec/Tests.antt =====
-- Messages between two services, at concrete bytes.
use zylib.Prelude.{ℕ, ◌<◌, ◌≡◌, refl, some, List, [], ◌∷◌, arith, All}
use zylib.Knet.Codec.{ReceivedMsg, decode_at, scan, encode, decode, new_send_msg}
use zylib.Knet.Codec.RoundTrip.{NoZero, decode-encode}
use zylib.Knet.Codec.Accepting.{encode-decode}

abbrev gate : List ℕ
gate = 71 ∷ 49 ∷ []

abbrev room : List ℕ
room = 82 ∷ []

abbrev text : List ℕ
text = 1 ∷ 0 ∷ 2 ∷ []

gate-NoZero : NoZero gate
gate-NoZero = ((λ e. absurd (omega arith)), ((λ e. absurd (omega arith)), tt))

room-NoZero : NoZero room
room-NoZero = ((λ e. absurd (omega arith)), tt)

decode-encode_example :
    decode (encode (new_send_msg gate room 258 text (9 ∷ []))).buffer (some (9 ∷ []))
    ≡ some (record { from_sid = gate; to_sid = room; msg_id = 258; payload = text; key = 9 ∷ [] })
decode-encode_example =
    decode-encode gate room 258 text (9 ∷ []) refl refl gate-NoZero room-NoZero (omega arith) refl

abbrev sent : List ℕ
sent = 71 ∷ 49 ∷ 0 ∷ 82 ∷ 0 ∷ 2 ∷ 1 ∷ 0 ∷ 0 ∷ 1 ∷ 0 ∷ 2 ∷ []

abbrev got : ReceivedMsg
got = record { from_sid = gate; to_sid = room; msg_id = 258; payload = text; key = 9 ∷ [] }

sent-Bytes : All (λ b. b < 256) sent
sent-Bytes = (
  omega arith,
  (
    omega arith,
    (
      omega arith,
      (
        omega arith,
        (
          omega arith,
          (
            omega arith,
            (
              omega arith,
              (omega arith, (omega arith, (omega arith, (omega arith, (omega arith, tt))))),
            ),
          ),
        ),
      ),
    ),
  ),
)

decode_sent : decode sent (some (9 ∷ [])) ≡ some got
unfolding decode decode_at scan
decode_sent = refl

encode-decode_example :
    ((encode (new_send_msg gate room 258 text (9 ∷ []))).buffer ≡ sent) × (got.key ≡ 9 ∷ [])
encode-decode_example = encode-decode sent (9 ∷ []) got sent-Bytes decode_sent
