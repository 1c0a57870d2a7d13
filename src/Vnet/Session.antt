-- ===== src/Vnet/Session.antt =====
-- ServerSession of network/vnetwork/VNetwork.cpp: one connection of the server, on the one thread of
-- the io_service. Its state has the operations that boost::asio has of it: what it reads next, and
-- whether it writes. `wire` has the bytes of the writes that succeeded, and nothing of what
-- the socket has taken of a write that failed, behind which nothing more is written.
pub mod Receiving
pub mod Sending
pub mod Ending
mod Tests
use zylib.Prelude.{
  ℕ, Bool, true, false, not, Option, none, some, List, [], ◌∷◌, ◌++◌, ◌==◌, if◌then◌else◌, is_nil,
}
use zylib.Vnet.Message.{
  ChatMessage, new_message, body, create, decode_header, reset, fill_head, fill_body, sent,
}

pub data Phase : Type 0 where
  no_read reads_header reads_body : Phase

-- The calls of ServerEvent or ClientEvent, and of SessionLeave.
pub data Call : Type 0 where
  received : List ℕ → Call
  on_connected : Bool → Call
  on_accepted : Call
  on_closed session_leave : Call

pub record Session : Type 0 where
  pub index : ℕ
  pub read_msg : ChatMessage
  pub write_msgs : List ChatMessage
  pub closed : Bool
  pub reading : Phase
  pub writing : Bool
  pub calls : List Call
  pub wire : List ℕ

unfoldable pub new_session : ℕ → Session
new_session index = record {
  index = index;
  read_msg = new_message;
  write_msgs = [];
  closed = false;
  reading = no_read;
  writing = false;
  calls = [];
  wire = [];
}

unfoldable pub call : Call → Session → Session
call c s = record s { calls = s.calls ++ c ∷ [] }

-- Shutdown
unfoldable pub shutdown : Session → Session
shutdown s =
    if s.closed then s else call session_leave (call on_closed (record s { closed = true }))

-- DoReadHeader, DoReadBody and DoWrite, which start an operation.
unfoldable pub do_read_header : Session → Session
do_read_header s = record s { read_msg = reset s.read_msg; reading = reads_header }

unfoldable pub do_read_body : Session → Session
do_read_body s = record s { reading = reads_body }

unfoldable pub do_write : Session → Session
do_write s = record s { writing = true }

abbrev pub start : Session → Session
start = do_read_header

-- AsyncSend, run by the io_service.
unfoldable pub async_send : ChatMessage → Session → Session
async_send msg s =
    let s' = record s { write_msgs = s.write_msgs ++ msg ∷ [] } in
    if is_nil s.write_msgs then do_write s' else s'

unfoldable pub async_send_bytes : List ℕ → Session → Session
async_send_bytes msg s = async_send (create msg new_message) s

-- AsyncClose, run by the io_service.
abbrev pub async_close : Session → Session
async_close s = shutdown s

-- The handler of DoReadHeader: `none` is an error.
unfoldable pub header_read : Option (List ℕ) → Session → Session
header_read none s = shutdown (record s { reading = no_read })
header_read (some bytes) s =
    let (ok, msg) = decode_header (fill_head bytes s.read_msg) in
    let s' = record s { read_msg = msg; reading = no_read } in
    if not ok
    then shutdown s'
    else if msg.body_length == 0
    then do_read_header (call (received (body msg)) s')
    else do_read_body s'

-- The handler of DoReadBody.
unfoldable pub body_read : Option (List ℕ) → Session → Session
body_read none s = shutdown (record s { reading = no_read })
body_read (some bytes) s =
    let msg = fill_body bytes s.read_msg in
    do_read_header (call (received (body msg)) (record s { read_msg = msg; reading = no_read }))

-- The handler of DoWrite: whether it succeeded.
unfoldable pub written_on : List ChatMessage → Bool → Session → Session
written_on msgs false s = shutdown (record s { writing = false })
written_on [] true s = record s { writing = false }
written_on (msg ∷ msgs) true s =
    let s' = record s { write_msgs = msgs; writing = false; wire = s.wire ++ sent msg } in
    if is_nil msgs then s' else do_write s'

unfoldable pub written : Bool → Session → Session
written ok s = written_on s.write_msgs ok s

-- What the io_service runs of a session.
pub data Input : Type 0 where
  sends : List ℕ → Input
  read : Option (List ℕ) → Input
  wrote : Bool → Input
  closes : Input

-- A handler runs if its operation was started, and a read gives as many bytes as were asked for.
unfoldable pub on_read : Phase → Option (List ℕ) → Session → Session
on_read no_read bytes s = s
on_read reads_header bytes s = header_read bytes s
on_read reads_body bytes s = body_read bytes s

unfoldable pub step : Session → Input → Session
step s (sends bytes) = async_send_bytes bytes s
step s (read bytes) = on_read s.reading bytes s
step s (wrote ok) = if s.writing then written ok s else s
step s closes = async_close s
