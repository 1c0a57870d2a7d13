-- ===== src/Vnet/Client.antt =====
-- TcpClient of network/vnetwork/VNetwork.cpp, with the state of a Session. Its handlers are those of
-- ServerSession but for three things: it does not `Reset` the message before it reads a head, there is
-- no server to leave, and it reads when it has connected.
pub mod Handlers
pub mod Alike
mod Tests
use zylib.Prelude.{
  ℕ, Bool, true, false, Option, none, some, List, [], ◌∷◌, ◌++◌, ◌==◌, if◌then◌else◌, is_nil,
}
use zylib.Vnet.Message.{
  ChatMessage, new_message, body, create, decode_header, fill_head, fill_body, sent,
}
use zylib.Vnet.Session.{
  Session, Phase, no_read, reads_header, reads_body, Call, received, on_connected, on_closed, call,
  Input, sends, read, wrote, closes,
}

-- Shutdown
unfoldable pub shutdown : Session → Session
shutdown s = if s.closed then s else call on_closed (record s { closed = true })

-- DoReadHeader, DoReadBody and DoWrite, which start an operation.
unfoldable pub do_read_header : Session → Session
do_read_header s = record s { reading = reads_header }

unfoldable pub do_read_body : Session → Session
do_read_body s = record s { reading = reads_body }

unfoldable pub do_write : Session → Session
do_write s = record s { writing = true }

-- The handler of Connect: whether it succeeded.
unfoldable pub connected : Bool → Session → Session
connected ok s = let s' = call (on_connected ok) s in if ok then do_read_header s' else s'

-- AsyncSend, run by the io_service.
unfoldable pub async_send : ChatMessage → Session → Session
async_send msg s =
    let s' = record s { write_msgs = s.write_msgs ++ msg ∷ [] } in
    if is_nil s.write_msgs then do_write s' else s'

unfoldable pub async_send_bytes : List ℕ → Session → Session
async_send_bytes msg s = async_send (create msg new_message) s

-- AsyncClose, run by the io_service.
abbrev pub async_close : Session → Session
async_close s = shutdown s

-- The handler of DoReadHeader: `none` is an error.
unfoldable pub header_read : Option (List ℕ) → Session → Session
header_read none s = shutdown (record s { reading = no_read })
header_read (some bytes) s =
    let (ok, msg) = decode_header (fill_head bytes s.read_msg) in
    let s' = record s { read_msg = msg; reading = no_read } in
    if ok
    then if msg.body_length == 0
      then do_read_header (call (received (body msg)) s')
      else do_read_body s'
    else shutdown s'

-- The handler of DoReadBody.
unfoldable pub body_read : Option (List ℕ) → Session → Session
body_read none s = shutdown (record s { reading = no_read })
body_read (some bytes) s =
    let msg = fill_body bytes s.read_msg in
    do_read_header (call (received (body msg)) (record s { read_msg = msg; reading = no_read }))

-- The handler of DoWrite: whether it succeeded.
unfoldable pub written_on : List ChatMessage → Bool → Session → Session
written_on msgs false s = shutdown (record s { writing = false })
written_on [] true s = record s { writing = false }
written_on (msg ∷ msgs) true s =
    let s' = record s { write_msgs = msgs; writing = false; wire = s.wire ++ sent msg } in
    if is_nil msgs then s' else do_write s'

unfoldable pub written : Bool → Session → Session
written ok s = written_on s.write_msgs ok s

unfoldable pub on_read : Phase → Option (List ℕ) → Session → Session
on_read no_read bytes s = s
on_read reads_header bytes s = header_read bytes s
on_read reads_body bytes s = body_read bytes s

unfoldable pub step : Session → Input → Session
step s (sends bytes) = async_send_bytes bytes s
step s (read bytes) = on_read s.reading bytes s
step s (wrote ok) = if s.writing then written ok s else s
step s closes = async_close s

unfoldable pub run : Session → List Input → Session
run s [] = s
run s (i ∷ is) = run (step s i) is
