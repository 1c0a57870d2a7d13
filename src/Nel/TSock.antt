-- ===== src/Nel/TSock.antt =====
-- nel/TSock.cpp: one socket of the io thread. A message is what its data() and size() give, and the
-- user's decoder gives the messages of the bytes received. `posted` has the messages of sendMsg whose
-- handlers have not run, `written` those that the socket has taken, `sent` those for which sendMsg
-- returned true, oldest first; `told` has the calls of the three callbacks. The timer of a read, where it has not
-- been cancelled, and the handler of shutdown run as events.
pub mod Sending
pub mod Stuck
pub mod Receiving
mod Tests
use zylib.Prelude.{ℕ, Bool, true, false, List, [], ◌∷◌, ◌++◌, if◌then◌else◌, is_nil}

abbrev pub Bytes : Type 0
Bytes = List ℕ

-- CLOSED_TYPE
pub data CloseType : Type 0 where
  normal timeout activity : CloseType

pub data Call : Type 0 where
  received_msg : Bytes → Call
  closed timed_out : Call

pub record TSock : Type 0 where
  pub is_closed : Bool
  pub write_buffer : List Bytes
  pub writing : Bool
  pub reading : Bool
  pub byte_buf : Bytes
  pub posted : List Bytes
  pub sent : List Bytes
  pub written : List Bytes
  pub told : List Call

unfoldable pub new_sock : TSock
new_sock = record {
  is_closed = false;
  write_buffer = [];
  writing = false;
  reading = false;
  byte_buf = [];
  posted = [];
  sent = [];
  written = [];
  told = [];
}

unfoldable pub do_read : TSock → TSock
do_read s = record s { reading = true }

-- start, which a client calls for each of its connections.
unfoldable pub start : TSock → TSock
start s = do_read (record s { is_closed = false })

-- sendMsg posts a handler, and its result.
unfoldable pub send_msg : Bytes → TSock → TSock × Bool
send_msg msg s =
    if s.is_closed
    then (s, false)
    else (record s { posted = s.posted ++ msg ∷ []; sent = s.sent ++ msg ∷ [] }, true)

unfoldable pub do_write : TSock → TSock
do_write s = record s { writing = true }

-- The handler that sendMsg posts, for its message.
unfoldable pub run_send : Bytes → TSock → TSock
run_send msg s =
    let queued = record s { write_buffer = s.write_buffer ++ msg ∷ [] } in
    if is_nil s.write_buffer then do_write queued else queued

-- The oldest posted handler.
unfoldable pub run_posted : List Bytes → TSock → TSock
run_posted [] s = s
run_posted (msg ∷ msgs) s = run_send msg (record s { posted = msgs })

-- onClosed behind its test.
unfoldable pub report : CloseType → TSock → TSock
report normal s = record s { is_closed = true; told = s.told ++ closed ∷ [] }
report timeout s = record s { is_closed = true; told = s.told ++ timed_out ∷ [] }
report activity s = record s { is_closed = true }

unfoldable pub on_closed : CloseType → TSock → TSock
on_closed type s = if s.is_closed then s else report type s

-- The handler of a write that succeeds, over the write buffer.
unfoldable pub written_on : List Bytes → TSock → TSock
written_on [] s = s
written_on (msg ∷ msgs) s =
    let done = record s { write_buffer = msgs; writing = false; written = s.written ++ msg ∷ [] } in
    if is_nil msgs then done else do_write done

unfoldable pub on_write : Bool → TSock → TSock
on_write ok s =
    if ok then written_on s.write_buffer s else on_closed normal (record s { writing = false })

unfoldable pub tell_msgs : List Bytes → List Call
tell_msgs [] = []
tell_msgs (msg ∷ msgs) = received_msg msg ∷ tell_msgs msgs

-- What a socket does next: the user sends, a posted handler runs, a write ends, a read ends with an error or
-- with bytes, the timer or the handler of shutdown runs, the client connects again.
pub data Event : Type 0 where
  sends : Bytes → Event
  runs : Event
  writes : Bool → Event
  read_fails : Event
  reads : Bytes → Event
  times_out shuts_down starts : Event

module _ (decode : Bytes → List Bytes) where
  -- The handler of a read with bytes. The decoder takes a ByteBuf by value, so what it takes off is taken off a
  -- copy.
  unfoldable pub on_read : Bytes → TSock → TSock
  on_read [] s = do_read s
  on_read (b ∷ bs) s =
      let buf = s.byte_buf ++ b ∷ bs in
      do_read (record s { byte_buf = buf; told = s.told ++ tell_msgs (decode buf) })

  -- A handler runs only while its operation is outstanding.
  unfoldable pub step : Event → TSock → TSock
  step (sends msg) s = (send_msg msg s).0
  step runs s = run_posted s.posted s
  step (writes ok) s = if s.writing then on_write ok s else s
  step read_fails s = if s.reading then on_closed normal (record s { reading = false }) else s
  step (reads bs) s = if s.reading then on_read bs s else s
  step times_out s = if s.reading then on_closed timeout s else s
  step shuts_down s = on_closed activity s
  step starts s = start s

  unfoldable pub run : List Event → TSock → TSock
  run [] s = s
  run (e ∷ es) s = run es (step e s)
