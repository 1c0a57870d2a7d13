-- ===== src/Vnet/Session/Ending.antt =====
-- ServerSession of network/vnetwork/VNetwork.cpp: when the user and the server are told of the end of a
-- session, over its whole history.
use zylib.Prelude.{
  ℕ, suc, ◌+◌, ◌≡◌, refl, ◌∙◌, inl, inr, Bool, true, false, not, ◌||◌, Option, none, some, List, [],
  ◌∷◌, ◌++◌, arith, ◌==◌, if◌then◌else◌, Bool-cases, is_nil,
}
use zylib.Vnet.Message.{ChatMessage, new_message, create, decode_header, fill_head, fill_body, body}
use zylib.Vnet.Session.{
  on_accepted, Session, Phase, no_read, reads_header, reads_body, Call, received, on_connected,
  on_closed, session_leave, call, shutdown, do_read_header, do_read_body, do_write, async_send,
  async_send_bytes, header_read, body_read, written, written_on, on_read, Input, sends, read, wrote,
  closes, step, new_session, start,
}
use zylib.Vnet.Session.Sending.{run}

-- How often the user was told of the end, and how often the server was told to forget the session.
abbrev pub ends : List Call → ℕ
ends [] = 0
ends (received b ∷ calls) = ends calls
ends (on_connected ok ∷ calls) = ends calls
ends (on_accepted ∷ calls) = ends calls
ends (on_closed ∷ calls) = suc (ends calls)
ends (session_leave ∷ calls) = ends calls

abbrev pub leaves : List Call → ℕ
leaves [] = 0
leaves (received b ∷ calls) = leaves calls
leaves (on_connected ok ∷ calls) = leaves calls
leaves (on_accepted ∷ calls) = leaves calls
leaves (on_closed ∷ calls) = leaves calls
leaves (session_leave ∷ calls) = suc (leaves calls)

ends-append : (xs ys : List Call) → ends (xs ++ ys) ≡ ends xs + ends ys
ends-append [] ys = omega arith
ends-append (received b ∷ xs) ys = ends-append xs ys
ends-append (on_connected ok ∷ xs) ys = ends-append xs ys
ends-append (on_accepted ∷ xs) ys = ends-append xs ys
ends-append (on_closed ∷ xs) ys = omega (arith, ends-append xs ys)
ends-append (session_leave ∷ xs) ys = ends-append xs ys

leaves-append : (xs ys : List Call) → leaves (xs ++ ys) ≡ leaves xs + leaves ys
leaves-append [] ys = omega arith
leaves-append (received b ∷ xs) ys = leaves-append xs ys
leaves-append (on_connected ok ∷ xs) ys = leaves-append xs ys
leaves-append (on_accepted ∷ xs) ys = leaves-append xs ys
leaves-append (on_closed ∷ xs) ys = leaves-append xs ys
leaves-append (session_leave ∷ xs) ys = omega (arith, leaves-append xs ys)

abbrev pub once : Bool → ℕ
once true = 1
once false = 0

-- The user and the server are told of the end when the session is closed, once each.
pub record Counted (s : Session) : Type 0 where
  pub ended : ends s.calls ≡ once s.closed
  pub left : leaves s.calls ≡ once s.closed

-- A write runs while messages wait, unless the session is closed.
abbrev pub Busy : Session → Type 0
Busy s = (s.closed || s.writing || is_nil s.write_msgs) ≡ true

received-Counted : (b : List ℕ) (s : Session) → Counted s → Counted (call (received b) s)
unfolding call
received-Counted b s k = record {
  ended = ends-append s.calls (received b ∷ []) ∙ omega (arith, k.ended);
  left = leaves-append s.calls (received b ∷ []) ∙ omega (arith, k.left);
}

shutdown-Counted : (s : Session) → Counted s → Counted (shutdown s)
unfolding shutdown call
shutdown-Counted s k = elim (Bool-cases s.closed) [
  | inl e ↦
      rw (shutdown, e) (record { ended = ground (arith, k.ended); left = ground (arith, k.left) })
  | inr e ↦
      rw (shutdown, e)
        (record {
          ended = ground (
            arith,
            k.ended,
            ends-append s.calls (on_closed ∷ []),
            ends-append (s.calls ++ on_closed ∷ []) (session_leave ∷ []),
          );
          left = ground (
            arith,
            k.left,
            leaves-append s.calls (on_closed ∷ []),
            leaves-append (s.calls ++ on_closed ∷ []) (session_leave ∷ []),
          );
        })
]

shutdown-closed : (s : Session) → (shutdown s).closed ≡ true
unfolding shutdown call
shutdown-closed s = ground arith

-- A handler of a read or a write leaves it sound.
pub record Sound (s : Session) : Type 0 where
  pub counted : Counted s
  pub busy : Busy s

shutdown-Sound : (s : Session) → Counted s → Sound (shutdown s)
shutdown-Sound s k = record {
  counted = shutdown-Counted s k;
  busy = ground (arith, shutdown-closed s);
}

taken-Sound :
    (msg : ChatMessage) (b : List ℕ) (s : Session)
    → Sound s
    → Sound (do_read_header (call (received b) (record s { read_msg = msg; reading = no_read })))
unfolding do_read_header call
taken-Sound msg b s k =
    let c = received-Counted b s k.counted in
    record { counted = record { ended = c.ended; left = c.left }; busy = k.busy }

header_read-Sound : (bytes : Option (List ℕ)) (s : Session) → Sound s → Sound (header_read bytes s)
unfolding header_read do_read_body
header_read-Sound none s k =
    shutdown-Sound _ (record { ended = k.counted.ended; left = k.counted.left })
header_read-Sound (some bytes) s k = after (decode_header (fill_head bytes s.read_msg))
  where
    after :
        (r : Bool × ChatMessage)
        → Sound (
            let s' : Session = record s { read_msg = r.1; reading = no_read } in
            if not r.0
            then shutdown s'
            else if r.1.body_length == 0
            then do_read_header (call (received (body r.1)) s')
            else do_read_body s')
    after (false, msg) =
        shutdown-Sound _ (record { ended = k.counted.ended; left = k.counted.left })
    after (true, msg) = elim (Bool-cases (msg.body_length == 0)) [
      | inl e ↦ rw e (taken-Sound msg (body msg) s k)
      | inr e ↦
          rw (e, do_read_body)
            (record {
              counted = record { ended = k.counted.ended; left = k.counted.left };
              busy = k.busy;
            })
    ]

body_read-Sound : (bytes : Option (List ℕ)) (s : Session) → Sound s → Sound (body_read bytes s)
unfolding body_read
body_read-Sound none s k =
    shutdown-Sound _ (record { ended = k.counted.ended; left = k.counted.left })
body_read-Sound (some bytes) s k = taken-Sound (fill_body bytes s.read_msg) _ s k

async_send-Sound : (m : ChatMessage) (s : Session) → Sound s → Sound (async_send m s)
unfolding async_send do_write
async_send-Sound m s k = elim (Bool-cases (is_nil s.write_msgs)) [
  | inl e ↦
      rw (async_send, e)
        (record {
          counted = record { ended = k.counted.ended; left = k.counted.left };
          busy = ground arith;
        })
  | inr e ↦
      rw (async_send, e)
        (record {
          counted = record { ended = k.counted.ended; left = k.counted.left };
          busy = ground (arith, k.busy);
        })
]

written-Sound : (ok : Bool) (s : Session) → Sound s → Sound (written ok s)
unfolding written written_on do_write
written-Sound ok s k = on s.write_msgs ok refl
  where
    on : (ms : List ChatMessage) (ok : Bool) → s.write_msgs ≡ ms → Sound (written_on ms ok s)
    on [] false e = shutdown-Sound _ (record { ended = k.counted.ended; left = k.counted.left })
    on (m ∷ ms) false e =
        shutdown-Sound _ (record { ended = k.counted.ended; left = k.counted.left })
    on [] true e = record {
      counted = record { ended = k.counted.ended; left = k.counted.left };
      busy = ground (arith, e);
    }
    on (m ∷ ms) true e = elim (Bool-cases (is_nil ms)) [
      | inl f ↦ rw f (record {
        counted = record { ended = k.counted.ended; left = k.counted.left };
        busy = ground (arith, f);
      })
      | inr f ↦ rw f (record {
        counted = record { ended = k.counted.ended; left = k.counted.left };
        busy = ground (arith, f);
      })
    ]

on_read-Sound :
    (p : Phase) (bytes : Option (List ℕ)) (s : Session) → Sound s → Sound (on_read p bytes s)
unfolding on_read
on_read-Sound no_read bytes s k = k
on_read-Sound reads_header bytes s k = header_read-Sound bytes s k
on_read-Sound reads_body bytes s k = body_read-Sound bytes s k

pub step-Sound : (s : Session) (i : Input) → Sound s → Sound (step s i)
unfolding step async_send_bytes
step-Sound s (sends bytes) k = async_send-Sound (create bytes new_message) s k
step-Sound s (read bytes) k = on_read-Sound s.reading bytes s k
step-Sound s (wrote ok) k = ground (arith, written-Sound ok s k)
step-Sound s closes k = shutdown-Sound s k.counted

run-Sound : (is : List Input) (s : Session) → Sound s → Sound (run s is)
unfolding run
run-Sound [] s k = k
run-Sound (i ∷ is) s k = run-Sound is (step s i) (step-Sound s i k)

pub new_session-Sound : (index : ℕ) → Sound (start (new_session index))
unfolding new_session do_read_header
new_session-Sound index = record { counted = record { ended = refl; left = refl }; busy = refl }

pub accepted-Sound : (index : ℕ) → Sound (call on_accepted (start (new_session index)))
unfolding new_session do_read_header call
accepted-Sound index = record { counted = record { ended = refl; left = refl }; busy = refl }

-- In any history of a session that starts, the user is told OnClosed and the server SessionLeave exactly
-- once if the session is closed, and not at all if it is open; and while messages wait in an open
-- session, a write runs.
pub run-ends :
    (is : List Input) (index : ℕ)
    → let t = run (start (new_session index)) is in
      (ends t.calls ≡ once t.closed)
      × (leaves t.calls ≡ once t.closed)
      × ((t.closed || t.writing || is_nil t.write_msgs) ≡ true)
run-ends is index =
    let k = run-Sound is (start (new_session index)) (new_session-Sound index) in
    (k.counted.ended, k.counted.left, k.busy)
