-- ===== src/Vnet/Client/Alike.antt =====
-- TcpClient and ServerSession of network/vnetwork/VNetwork.cpp: the two run alike.
use zylib.Prelude.{
  ℕ, ◌≡◌, refl, sym, Bool, true, false, Option, none, some, List, [], ◌∷◌, if◌then◌else◌, length,
}
use mathlib.Core.Path.{subst}
use zylib.Vnet.Message.{new_message, header_length, create}
use zylib.Vnet.Session.{
  on_accepted, Session, Phase, no_read, reads_header, reads_body, Call, received, on_connected,
  on_closed, session_leave, call, Input, sends, read, wrote, closes, new_session,
}
use zylib.Vnet.Session
use zylib.Vnet.Session.Sending
use zylib.Vnet.Client.{async_send_bytes, header_read, body_read, on_read, step, run}
use zylib.Vnet.Client.Handlers.{
  Alike, shutdown-Alike, refused-Alike, header_read-Alike, body_read-Alike, async_send-Alike,
  written-Alike,
}

-- `async_read` gives as many bytes as were asked for: 16 for a head.
abbrev FullRead : Session → Input → Type 0
FullRead s (sends bytes) = Unit
FullRead s (read none) = Unit
FullRead s (read (some bytes)) = s.reading ≡ reads_header → length bytes ≡ header_length
FullRead s (wrote ok) = Unit
FullRead s closes = Unit

abbrev pub Full : Session → List Input → Type 0
Full s [] = Unit
Full s (i ∷ is) = FullRead s i × Full (Session.step s i) is

on_read-Alike :
    (p : Phase) (bytes : Option (List ℕ)) (c s : Session)
    → s.reading ≡ p
    → FullRead s (read bytes)
    → Alike c s
    → Alike (on_read p bytes c) (Session.on_read p bytes s)
unfolding on_read Session.on_read header_read Session.header_read body_read Session.body_read
on_read-Alike no_read bytes c s r h k = k
on_read-Alike reads_header none c s r h k = refused-Alike c.read_msg s.read_msg c s k
on_read-Alike reads_header (some bytes) c s r h k = header_read-Alike bytes c s (h r) k
on_read-Alike reads_body none c s r h k = refused-Alike c.read_msg s.read_msg c s k
on_read-Alike reads_body (some bytes) c s r h k = body_read-Alike bytes c s r k

both :
    {x y x' y' : Session} (b b' : Bool)
    → b ≡ b'
    → Alike x x'
    → Alike y y'
    → Alike (if b then x else y) (if b' then x' else y')
both true true e k l = k
both false false e k l = l
both true false e k l = cc
both false true e k l = cc

step-Alike :
    (i : Input) (c s : Session) → FullRead s i → Alike c s → Alike (step c i) (Session.step s i)
unfolding step Session.step async_send_bytes Session.async_send_bytes
step-Alike (sends bytes) c s h k = async_send-Alike (create bytes new_message) c s k
step-Alike (read bytes) c s h k =
    subst (λ x. Alike (on_read x bytes c) (Session.step s (read bytes))) (sym k.reading)
      (on_read-Alike s.reading bytes c s refl h k)
step-Alike (wrote ok) c s h k = both c.writing s.writing k.writing (written-Alike ok c s k) k
step-Alike closes c s h k = shutdown-Alike c s k

-- A client that is alike with a session of the server and meets the same inputs stays alike: it hands over
-- the same bodies, ends at the same point, and has written the same bytes, although it does not
-- `Reset` its message. A read of a head gives 16 bytes.
pub run-Alike :
    (is : List Input) (c s : Session) → Full s is → Alike c s → Alike (run c is) (Sending.run s is)
unfolding run Sending.run
run-Alike [] c s h k = k
run-Alike (i ∷ is) c s (h, hs) k =
    run-Alike is (step c i) (Session.step s i) hs (step-Alike i c s h k)
