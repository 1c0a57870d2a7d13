-- ===== src/Vnet/Session/Sending.antt =====
-- ServerSession of network/vnetwork/VNetwork.cpp: the order of what is written, and when the server is told
-- of the end, over whole histories of a session.
use zylib.Prelude.{
  ℕ, ◌^◌, ◌<◌, ◌≡◌, refl, sym, ap, ◌∙◌, inl, inr, Bool, true, false, Option, none, some, List, [],
  ◌∷◌, ◌++◌, map, append-nil, append_assoc, arith, Bool-cases, length, is_nil, concat, All,
}
use zylib.Vnet.Message.{ChatMessage, new_message, create, sent}
use zylib.Vnet.Message.Framing.{framed, sent-create}
use zylib.Vnet.Session.{
  Session, Phase, no_read, reads_header, reads_body, call, shutdown, do_read_header, do_read_body,
  do_write, async_send, async_send_bytes, header_read, body_read, written, written_on, on_read,
  Input, sends, read, wrote, closes, step,
}

unfoldable pub run : Session → List Input → Session
run s [] = s
run s (i ∷ is) = run (step s i) is

-- What was asked to be sent.
abbrev pub bodies_of : List Input → List (List ℕ)
bodies_of [] = []
bodies_of (sends bytes ∷ is) = bytes ∷ bodies_of is
bodies_of (read bytes ∷ is) = bodies_of is
bodies_of (wrote ok ∷ is) = bodies_of is
bodies_of (closes ∷ is) = bodies_of is

-- What the socket has taken, and what is to be written behind it.
abbrev pub stream : Session → List ℕ
stream s = s.wire ++ concat (map sent s.write_msgs)

-- The session is left as it was but for its reads and its calls.
record Apart (s t : Session) : Type 0 where
  msgs : t.write_msgs ≡ s.write_msgs
  wire : t.wire ≡ s.wire

shutdown-Apart : (s : Session) → Apart s (shutdown s)
unfolding shutdown call
shutdown-Apart s = ground arith

header_read-Apart : (bytes : Option (List ℕ)) (s : Session) → Apart s (header_read bytes s)
unfolding header_read shutdown call do_read_header do_read_body
header_read-Apart none s = ground arith
header_read-Apart (some bytes) s = ground arith

body_read-Apart : (bytes : Option (List ℕ)) (s : Session) → Apart s (body_read bytes s)
unfolding body_read shutdown call do_read_header
body_read-Apart none s = ground arith
body_read-Apart (some bytes) s = record { msgs = refl; wire = refl }

on_read-Apart : (p : Phase) (bytes : Option (List ℕ)) (s : Session) → Apart s (on_read p bytes s)
unfolding on_read
on_read-Apart no_read bytes s = record { msgs = refl; wire = refl }
on_read-Apart reads_header bytes s = header_read-Apart bytes s
on_read-Apart reads_body bytes s = body_read-Apart bytes s

Apart-stream : (s t : Session) → Apart s t → stream t ≡ stream s
Apart-stream s t a = rw (a.msgs, a.wire) refl

concat-snoc :
    (ms : List ChatMessage) (m : ChatMessage)
    → concat (map sent (ms ++ m ∷ [])) ≡ concat (map sent ms) ++ sent m
concat-snoc [] m = append-nil (sent m)
concat-snoc (n ∷ ms) m =
    ap (◌++◌ (sent n)) (concat-snoc ms m)
    ∙ sym (append_assoc (sent n) (concat (map sent ms)) (sent m))

async_send-stream : (m : ChatMessage) (s : Session) → stream (async_send m s) ≡ stream s ++ sent m
unfolding async_send do_write
async_send-stream m s =
    let e =
      ap (◌++◌ s.wire) (concat-snoc s.write_msgs m)
      ∙ sym (append_assoc s.wire (concat (map sent s.write_msgs)) (sent m)) in
    elim (Bool-cases (is_nil s.write_msgs)) [ inl f ↦ rw f e | inr f ↦ rw f e ]

written-stream : (ok : Bool) (s : Session) → stream (written ok s) ≡ stream s
unfolding written written_on do_write
written-stream ok s = on s.write_msgs ok refl
  where
    on :
        (ms : List ChatMessage) (ok : Bool)
        → s.write_msgs ≡ ms
        → stream (written_on ms ok s) ≡ stream s
    on [] false e = Apart-stream _ _ (shutdown-Apart (record s { writing = false }))
    on (m ∷ ms) false e = Apart-stream _ _ (shutdown-Apart (record s { writing = false }))
    on [] true e = refl
    on (m ∷ ms) true e =
        let f =
          append_assoc s.wire (sent m) (concat (map sent ms))
          ∙ ap (λ l. s.wire ++ concat (map sent l)) (sym e) in
        elim (Bool-cases (is_nil ms)) [ inl g ↦ rw g f | inr g ↦ rw g f ]

Small : List ℕ → Type 0
Small b = length b < 2 ^ 31

abbrev stream_of : List Input → List ℕ
stream_of is = concat (map framed (bodies_of is))

step-stream :
    (s : Session) (i : Input)
    → All Small (bodies_of (i ∷ []))
    → stream (step s i) ≡ stream s ++ stream_of (i ∷ [])
unfolding step async_send_bytes Small
step-stream s (sends bytes) (h, _) =
    async_send-stream (create bytes new_message) s
    ∙ ap (◌++◌ (stream s)) (sent-create bytes h ∙ sym (append-nil (framed bytes)))
step-stream s (read bytes) h =
    Apart-stream s _ (on_read-Apart s.reading bytes s) ∙ sym (append-nil (stream s))
step-stream s (wrote ok) h = ground (arith, written-stream ok s, append-nil (stream s))
step-stream s closes h = Apart-stream s _ (shutdown-Apart s) ∙ sym (append-nil (stream s))

stream_of-cons :
    (i : Input) (is : List Input) → stream_of (i ∷ is) ≡ stream_of (i ∷ []) ++ stream_of is
stream_of-cons (sends bytes) is = ap (λ l. l ++ stream_of is) (sym (append-nil (framed bytes)))
stream_of-cons (read bytes) is = refl
stream_of-cons (wrote ok) is = refl
stream_of-cons closes is = refl

Small-cons :
    (i : Input) (is : List Input)
    → All Small (bodies_of (i ∷ is))
    → All Small (bodies_of (i ∷ [])) × All Small (bodies_of is)
Small-cons (sends bytes) is (h, hs) = ((h, _), hs)
Small-cons (read bytes) is h = (_, h)
Small-cons (wrote ok) is h = (_, h)
Small-cons closes is h = (_, h)

pub run-stream :
    (is : List Input) (s : Session)
    → All (λ b. length b < 2 ^ 31) (bodies_of is)
    → stream (run s is) ≡ stream s ++ concat (map framed (bodies_of is))
unfolding run Small
run-stream [] s h = sym (append-nil (stream s))
run-stream (i ∷ is) s h =
    let (h1, hs) = Small-cons i is h in
    run-stream is (step s i) hs
    ∙ ap (λ l. l ++ stream_of is) (step-stream s i h1)
    ∙ append_assoc (stream s) (stream_of (i ∷ [])) (stream_of is)
    ∙ ap (◌++◌ (stream s)) (sym (stream_of-cons i is))
