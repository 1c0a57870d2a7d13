-- ===== src/Vnet/Client/Handlers.antt =====
-- TcpClient and ServerSession of network/vnetwork/VNetwork.cpp: each handler of the one does what that of
-- the other does.
use zylib.Prelude.{
  ℕ, ◌≡◌, refl, sym, ap, ◌∙◌, inl, inr, Bool, true, false, not, some, List, [], ◌∷◌, ◌++◌,
  append-nil, arith, ◌==◌, if◌then◌else◌, Bool-cases, length, is_nil, drop, take-all,
}
use mathlib.Core.Path.{subst}
use zylib.Network.Decoder.Head.{read32-append}
use zylib.Vnet.Message.{
  ChatMessage, header_length, body, decode_header, fill_head, fill_body, sent, prepare_body,
}
use zylib.Vnet.Session.{
  on_accepted, Session, Phase, no_read, reads_header, reads_body, Call, received, on_connected,
  on_closed, session_leave, call, Input, sends, read, wrote, closes, new_session,
}
use zylib.Vnet.Session
use zylib.Vnet.Client.{
  shutdown, do_read_header, do_read_body, do_write, async_send, header_read, body_read, written_on,
  written,
}

-- The calls that the user gets of his messages and of the end.
abbrev pub to_user : List Call → List Call
to_user [] = []
to_user (received b ∷ calls) = received b ∷ to_user calls
to_user (on_connected ok ∷ calls) = to_user calls
to_user (on_accepted ∷ calls) = to_user calls
to_user (on_closed ∷ calls) = on_closed ∷ to_user calls
to_user (session_leave ∷ calls) = to_user calls

to_user-append : (xs ys : List Call) → to_user (xs ++ ys) ≡ to_user xs ++ to_user ys
to_user-append [] ys = refl
to_user-append (received b ∷ xs) ys = ap (◌∷◌ (received b)) (to_user-append xs ys)
to_user-append (on_connected ok ∷ xs) ys = to_user-append xs ys
to_user-append (on_accepted ∷ xs) ys = to_user-append xs ys
to_user-append (on_closed ∷ xs) ys = ap (◌∷◌ on_closed) (to_user-append xs ys)
to_user-append (session_leave ∷ xs) ys = to_user-append xs ys

-- The same but for the message, which is only the same while its body is read.
pub record Alike (c s : Session) : Type 0 where
  pub calls : to_user c.calls ≡ to_user s.calls
  pub closed : c.closed ≡ s.closed
  pub reading : c.reading ≡ s.reading
  pub msgs : c.write_msgs ≡ s.write_msgs
  pub writing : c.writing ≡ s.writing
  pub wire : c.wire ≡ s.wire
  pub msg : s.reading ≡ reads_body → c.read_msg ≡ s.read_msg

-- A head that is read in full does not depend on what the message was before.
decode_header-full :
    (bytes : List ℕ) (m n : ChatMessage)
    → length bytes ≡ header_length
    → let r = decode_header (fill_head bytes m) in
      let q = decode_header (fill_head bytes n) in (r.0 ≡ q.0) × (r.0 ≡ true → r.1 ≡ q.1)
unfolding decode_header fill_head prepare_body
decode_header-full bytes m n e =
    let a = read32-append 0 bytes (drop header_length m.buffer) (omega arith) in
    let b = read32-append 0 bytes (drop header_length n.buffer) (omega arith) in
    let c = take-all header_length bytes (drop header_length m.buffer) (sym e) in
    let d = take-all header_length bytes (drop header_length n.buffer) (sym e) in
    rw (a, b, c, d) (ground arith)

to_user-snoc :
    (xs ys : List Call) (c : Call)
    → to_user xs ≡ to_user ys
    → to_user (xs ++ c ∷ []) ≡ to_user (ys ++ c ∷ [])
to_user-snoc xs ys c e =
    to_user-append xs (c ∷ [])
    ∙ ap (λ l. l ++ to_user (c ∷ [])) e
    ∙ sym (to_user-append ys (c ∷ []))

to_user-leave : (xs : List Call) → to_user (xs ++ session_leave ∷ []) ≡ to_user xs
to_user-leave xs = to_user-append xs (session_leave ∷ []) ∙ append-nil (to_user xs)

pub shutdown-Alike : (c s : Session) → Alike c s → Alike (shutdown c) (Session.shutdown s)
unfolding shutdown Session.shutdown call
shutdown-Alike c s k = elim (Bool-cases s.closed) [
  | inl e ↦
      let e' : c.closed ≡ true = k.closed ∙ e in
      rw (shutdown, Session.shutdown, e, e')
        (record {
          calls = k.calls;
          closed = refl;
          reading = k.reading;
          msgs = k.msgs;
          writing = k.writing;
          wire = k.wire;
          msg = k.msg;
        })
  | inr e ↦
      let e' : c.closed ≡ false = k.closed ∙ e in
      rw (shutdown, Session.shutdown, e, e')
        (record {
          calls =
              to_user-snoc c.calls s.calls on_closed k.calls
              ∙ sym (to_user-leave (s.calls ++ on_closed ∷ []));
          closed = refl;
          reading = k.reading;
          msgs = k.msgs;
          writing = k.writing;
          wire = k.wire;
          msg = k.msg;
        })
]

-- A message has been read, and the next head is read.
taken-Alike :
    (m n : ChatMessage) (c s : Session)
    → m ≡ n
    → Alike c s
    → Alike
        (do_read_header (call (received (body m)) (record c { read_msg = m; reading = no_read })))
        (Session.do_read_header
          (call (received (body n)) (record s { read_msg = n; reading = no_read })))
unfolding do_read_header Session.do_read_header call
taken-Alike m n c s e k = record {
  calls =
      to_user-snoc c.calls s.calls (received (body m)) k.calls
      ∙ ap (λ x. to_user (s.calls ++ received (body x) ∷ [])) e;
  closed = k.closed;
  reading = refl;
  msgs = k.msgs;
  writing = k.writing;
  wire = k.wire;
  msg = λ r. cc;
}

pub refused-Alike :
    (m n : ChatMessage) (c s : Session)
    → Alike c s
    → Alike
        (shutdown (record c { read_msg = m; reading = no_read }))
        (Session.shutdown (record s { read_msg = n; reading = no_read }))
refused-Alike m n c s k = shutdown-Alike _ _ (record {
  calls = k.calls;
  closed = k.closed;
  reading = refl;
  msgs = k.msgs;
  writing = k.writing;
  wire = k.wire;
  msg = λ r. cc;
})

bodied-Alike :
    (m n : ChatMessage) (c s : Session)
    → m ≡ n
    → Alike c s
    → Alike
        (do_read_body (record c { read_msg = m; reading = no_read }))
        (Session.do_read_body (record s { read_msg = n; reading = no_read }))
unfolding do_read_body Session.do_read_body
bodied-Alike m n c s e k = record {
  calls = k.calls;
  closed = k.closed;
  reading = refl;
  msgs = k.msgs;
  writing = k.writing;
  wire = k.wire;
  msg = λ r. e;
}

pub header_read-Alike :
    (bytes : List ℕ) (c s : Session)
    → length bytes ≡ header_length
    → Alike c s
    → Alike (header_read (some bytes) c) (Session.header_read (some bytes) s)
unfolding header_read Session.header_read
header_read-Alike bytes c s e k =
    let (a, b) = decode_header-full bytes c.read_msg s.read_msg e in
    after (decode_header (fill_head bytes c.read_msg)) (decode_header (fill_head bytes s.read_msg))
      a b
  where
    after :
        (p q : Bool × ChatMessage)
        → p.0 ≡ q.0
        → (p.0 ≡ true → p.1 ≡ q.1)
        → Alike
            (let c' : Session = record c { read_msg = p.1; reading = no_read } in
              if p.0
              then if p.1.body_length == 0
                then do_read_header (call (received (body p.1)) c')
                else do_read_body c'
              else shutdown c')
            (let s' : Session = record s { read_msg = q.1; reading = no_read } in
              if not q.0
              then Session.shutdown s'
              else if q.1.body_length == 0
              then Session.do_read_header (call (received (body q.1)) s')
              else Session.do_read_body s')
    after (true, m) (true, n) f g =
        let same = g refl in
        let zero_too : (m.body_length == 0) ≡ (n.body_length == 0) =
          ap (λ x. x.body_length == 0) same in
        elim (Bool-cases (n.body_length == 0)) [
          | inl z ↦ rw (zero_too, z) (taken-Alike m n c s same k)
          | inr z ↦ rw (zero_too, z) (bodied-Alike m n c s same k)
        ]
    after (false, m) (false, n) f g = refused-Alike m n c s k
    after (true, m) (false, n) f g = cc
    after (false, m) (true, n) f g = cc

pub async_send-Alike :
    (m : ChatMessage) (c s : Session) → Alike c s → Alike (async_send m c) (Session.async_send m s)
unfolding async_send Session.async_send do_write Session.do_write
async_send-Alike m c s k =
    let e : is_nil c.write_msgs ≡ is_nil s.write_msgs = ap is_nil k.msgs in
    let msgs = ap (λ l. l ++ m ∷ []) k.msgs in
    elim (Bool-cases (is_nil s.write_msgs)) [
      | inl f ↦
          rw (async_send, Session.async_send, e, f)
            (record {
              calls = k.calls;
              closed = k.closed;
              reading = k.reading;
              msgs = msgs;
              writing = refl;
              wire = k.wire;
              msg = k.msg;
            })
      | inr f ↦
          rw (async_send, Session.async_send, e, f)
            (record {
              calls = k.calls;
              closed = k.closed;
              reading = k.reading;
              msgs = msgs;
              writing = k.writing;
              wire = k.wire;
              msg = k.msg;
            })
    ]

idle-Alike :
    (c s : Session)
    → Alike c s
    → Alike (record c { writing = false }) (record s { writing = false })
idle-Alike c s k = record {
  calls = k.calls;
  closed = k.closed;
  reading = k.reading;
  msgs = k.msgs;
  writing = refl;
  wire = k.wire;
  msg = k.msg;
}

popped-Alike :
    (ms : List ChatMessage) (bytes : List ℕ) (c s : Session) (b : Bool)
    → Alike c s
    → Alike
        (record c { write_msgs = ms; writing = b; wire = c.wire ++ bytes })
        (record s { write_msgs = ms; writing = b; wire = s.wire ++ bytes })
popped-Alike ms bytes c s b k = record {
  calls = k.calls;
  closed = k.closed;
  reading = k.reading;
  msgs = refl;
  writing = refl;
  wire = ap (λ l. l ++ bytes) k.wire;
  msg = k.msg;
}

written_on-Alike :
    (ms : List ChatMessage) (ok : Bool) (c s : Session)
    → s.write_msgs ≡ ms
    → Alike c s
    → Alike (written_on ms ok c) (Session.written_on ms ok s)
unfolding written_on Session.written_on do_write Session.do_write
written_on-Alike [] false c s e k = shutdown-Alike _ _ (idle-Alike c s k)
written_on-Alike (m ∷ ms) false c s e k = shutdown-Alike _ _ (idle-Alike c s k)
written_on-Alike [] true c s e k = idle-Alike c s k
written_on-Alike (m ∷ ms) true c s e k = elim (Bool-cases (is_nil ms)) [
  | inl f ↦ rw f (popped-Alike ms (sent m) c s false k)
  | inr f ↦ rw f (popped-Alike ms (sent m) c s true k)
]

pub written-Alike :
    (ok : Bool) (c s : Session) → Alike c s → Alike (written ok c) (Session.written ok s)
unfolding written Session.written
written-Alike ok c s k =
    subst (λ x. Alike (written_on x ok c) (Session.written ok s)) (sym k.msgs)
      (written_on-Alike s.write_msgs ok c s refl k)

pub body_read-Alike :
    (bytes : List ℕ) (c s : Session)
    → s.reading ≡ reads_body
    → Alike c s
    → Alike (body_read (some bytes) c) (Session.body_read (some bytes) s)
unfolding body_read Session.body_read
body_read-Alike bytes c s r k =
    taken-Alike (fill_body bytes c.read_msg) (fill_body bytes s.read_msg) c s
      (ap (fill_body bytes) (k.msg r)) k
