-- ===== src/Vnet/Session/Receiving.antt =====
-- ServerSession of network/vnetwork/VNetwork.cpp: what a session hands to the user of the bytes that its
-- peer sends.
use zylib.Prelude.{
  ℕ, zero, suc, ◌+◌, ◌^◌, ◌≤◌, ◌<◌, ◌≡◌, refl, sym, ap, ◌∙◌, true, false, Option, none, some, List,
  [], ◌∷◌, ◌++◌, map, append-nil, append_assoc, arith, ltb, if◌then◌else◌, ge→ltb, length, take,
  drop, replicate, length-append, take-all, drop-all, concat, All,
}
use zylib.Vnet.Message.{header_length, max_body_length}
use zylib.Vnet.Message.Framing.{
  framed, head_of, decode_header-head_of, decode_header-long, body-fill_body,
}
use zylib.Vnet.Session.{
  Session, Phase, no_read, reads_header, reads_body, Call, received, on_closed, session_leave, call,
  shutdown, do_read_header, do_read_body, header_read, body_read, on_read,
}

-- How many bytes the read that was started asks for.
abbrev asked_by : Phase → ℕ → Option ℕ
asked_by no_read n = none
asked_by reads_header n = some header_length
asked_by reads_body n = some n

-- The handlers of the reads, while there are as many bytes as `async_read` was asked for; with fuel.
unfoldable pub serve : ℕ → List ℕ → Session → Session × List ℕ
serve zero inbox s = (s, inbox)
serve (suc fuel) inbox s = elim (asked_by s.reading s.read_msg.body_length) [
  | none ↦ (s, inbox)
  | some n ↦
      if ltb (length inbox) n
      then (s, inbox)
      else serve fuel (drop n inbox) (on_read s.reading (some (take n inbox)) s)
]

-- One read for a message without a body, and else two.
abbrev reads_of : List ℕ → ℕ
reads_of [] = 1
reads_of (_ ∷ _) = 2

abbrev pub reads : List (List ℕ) → ℕ
reads [] = 0
reads (b ∷ bodies) = reads_of b + reads bodies

abbrev pub Short : List ℕ → Type 0
Short bytes = length bytes ≤ max_body_length

-- The session has got the message and reads the next head.
record Took (s : Session) (calls : List Call) (t : Session) : Type 0 where
  told : t.calls ≡ s.calls ++ calls
  next : t.reading ≡ reads_header
  closed : t.closed ≡ s.closed

read_now :
    (fuel n : ℕ) (first rest : List ℕ) (s : Session)
    → asked_by s.reading s.read_msg.body_length ≡ some n
    → n ≡ length first
    → serve (suc fuel) (first ++ rest) s ≡ serve fuel rest (on_read s.reading (some first) s)
unfolding serve
read_now fuel n first rest s a e =
    let enough : ltb (length (first ++ rest)) n ≡ false =
      ge→ltb (length (first ++ rest)) n (omega (arith, length-append first rest)) in
    rw (serve, a, enough, take-all n first rest e, drop-all n first rest e) refl

serve_head :
    (fuel : ℕ) (bytes rest : List ℕ) (s : Session)
    → s.reading ≡ reads_header
    → serve (suc fuel) (head_of bytes ++ rest) s
      ≡ serve fuel rest (header_read (some (head_of bytes)) s)
unfolding on_read
serve_head fuel bytes rest s r =
    let asked : asked_by s.reading s.read_msg.body_length ≡ some header_length = rw r refl in
    let handler : on_read s.reading (some (head_of bytes)) s
        ≡ header_read (some (head_of bytes)) s =
      rw r refl in
    read_now fuel header_length (head_of bytes) rest s asked refl ∙ ap (serve fuel rest) handler

serve_body :
    (fuel : ℕ) (bytes rest : List ℕ) (s : Session)
    → s.reading ≡ reads_body
    → s.read_msg.body_length ≡ length bytes
    → serve (suc fuel) (bytes ++ rest) s ≡ serve fuel rest (body_read (some bytes) s)
unfolding on_read
serve_body fuel bytes rest s r e =
    let asked : asked_by s.reading s.read_msg.body_length ≡ some (length bytes) = rw (r, e) refl in
    let handler : on_read s.reading (some bytes) s ≡ body_read (some bytes) s = rw r refl in
    read_now fuel (length bytes) bytes rest s asked refl ∙ ap (serve fuel rest) handler

-- The head of a message with a body.
headed : List ℕ → Session → Session
headed bytes s = record s {
  read_msg = record {
    body_length = length bytes;
    buffer = head_of bytes ++ replicate (length bytes) 0;
  };
  reading = reads_body;
}

headed_reading : (bytes : List ℕ) (s : Session) → (headed bytes s).reading ≡ reads_body
unfolding headed
headed_reading bytes s = refl

headed_size : (bytes : List ℕ) (s : Session) → (headed bytes s).read_msg.body_length ≡ length bytes
unfolding headed
headed_size bytes s = refl

header_read-body :
    (x : ℕ) (xs : List ℕ) (s : Session)
    → Short (x ∷ xs)
    → header_read (some (head_of (x ∷ xs))) s ≡ headed (x ∷ xs) s
unfolding header_read do_read_body headed
header_read-body x xs s h = rw (decode_header-head_of (x ∷ xs) s.read_msg h) (ground arith)

header_read-empty : (s : Session) → Took s (received [] ∷ []) (header_read (some (head_of [])) s)
unfolding header_read do_read_header call
header_read-empty s =
    let e = decode_header-head_of [] s.read_msg (omega arith) in
    rw e (record { told = refl; next = refl; closed = refl })

body_read-headed :
    (bytes : List ℕ) (s : Session)
    → Took s (received bytes ∷ []) (body_read (some bytes) (headed bytes s))
unfolding body_read do_read_header call headed
body_read-headed bytes s =
    let e = body-fill_body bytes (head_of bytes) (length bytes) refl in
    record { told = ap (λ b. s.calls ++ received b ∷ []) e; next = refl; closed = refl }

-- One message: the rounds that it takes.
serve-framed :
    (fuel : ℕ) (bytes rest : List ℕ) (s : Session)
    → s.reading ≡ reads_header
    → Short bytes
    → (t : Session) × (serve (reads_of bytes + fuel) (framed bytes ++ rest) s ≡ serve fuel rest t)
      × Took s (received bytes ∷ []) t
serve-framed fuel [] rest s r h =
    let e : 1 + fuel ≡ suc fuel = omega arith in
    (header_read (some (head_of [])) s, rw e (serve_head fuel [] rest s r), header_read-empty s)
serve-framed fuel (x ∷ xs) rest s r h =
    let e : 2 + fuel ≡ suc (suc fuel) = omega arith in
    let t = headed (x ∷ xs) s in
    let first =
      serve_head (suc fuel) (x ∷ xs) ((x ∷ xs) ++ rest) s r
      ∙ ap (serve (suc fuel) ((x ∷ xs) ++ rest)) (header_read-body x xs s h) in
    (
      body_read (some (x ∷ xs)) t,
      rw e (
          first
          ∙ serve_body fuel (x ∷ xs) rest t (headed_reading (x ∷ xs) s) (headed_size (x ∷ xs) s)),
      body_read-headed (x ∷ xs) s,
    )

-- A session that reads a head takes the messages of a stream, each with a body of at most 512 bytes: it
-- hands over all the bodies in order, uses up the stream, and reads a head again, as open as before.
pub serve-frames :
    (bodies : List (List ℕ)) (s : Session)
    → s.reading ≡ reads_header
    → All Short bodies
    → let r = serve (reads bodies) (concat (map framed bodies)) s in
      (r.0.calls ≡ s.calls ++ map received bodies)
      × (r.1 ≡ [])
      × (r.0.reading ≡ reads_header)
      × (r.0.closed ≡ s.closed)
unfolding serve
serve-frames [] s r h = (sym (append-nil s.calls), refl, r, refl)
serve-frames (b ∷ bodies) s r (h, hs) =
    let (t, e, k) = serve-framed (reads bodies) b (concat (map framed bodies)) s r h in
    let (c, i, n, d) = serve-frames bodies t k.next hs in
    rw e (
      c
          ∙ ap (λ l. l ++ map received bodies) k.told
          ∙ append_assoc s.calls (received b ∷ []) (map received bodies),
      i,
      n,
      d ∙ k.closed,
    )

record Refused (s t : Session) : Type 0 where
  closed : t.closed ≡ true
  reading : t.reading ≡ no_read
  told : t.calls ≡ s.calls ++ on_closed ∷ session_leave ∷ []

header_read-Refused :
    (bytes : List ℕ) (s : Session)
    → s.closed ≡ false
    → max_body_length < length bytes
    → length bytes < 2 ^ 32
    → Refused s (header_read (some (head_of bytes)) s)
unfolding header_read shutdown call
header_read-Refused bytes s c h small =
    rw (decode_header-long bytes s.read_msg h small, c)
      (record {
        closed = refl;
        reading = refl;
        told = append_assoc s.calls (on_closed ∷ []) (session_leave ∷ []);
      })

serve_none :
    (fuel : ℕ) (inbox : List ℕ) (s : Session)
    → s.reading ≡ no_read
    → serve fuel inbox s ≡ (s, inbox)
unfolding serve
serve_none zero inbox s r = refl
serve_none (suc fuel) inbox s r = rw r (ground arith)

-- A message with a body of more than 512 bytes, which `AsyncSend` sends, closes an open session that gets
-- it: the user gets OnClosed and nothing of the message, and what is behind its head is never read.
pub serve-long :
    (fuel : ℕ) (bytes rest : List ℕ) (s : Session)
    → s.reading ≡ reads_header
    → s.closed ≡ false
    → max_body_length < length bytes
    → length bytes < 2 ^ 31
    → let r = serve (suc fuel) (framed bytes ++ rest) s in
      (r.0.closed ≡ true)
      × (r.0.calls ≡ s.calls ++ on_closed ∷ session_leave ∷ [])
      × (r.1 ≡ bytes ++ rest)
serve-long fuel bytes rest s r c h small =
    let k = header_read-Refused bytes s c h (omega arith) in
    let e =
      serve_head fuel bytes (bytes ++ rest) s r
      ∙ serve_none fuel (bytes ++ rest) (header_read (some (head_of bytes)) s) k.reading in
    rw e (k.closed, k.told, refl)
