-- ===== src/Event/Session.antt =====
-- eventserver/EventSession.cpp with EventBuffer.cpp and EventMessageDecoder.cpp: one connection. An
-- EventBuffer is the bytes of its evbuffer, an EventMessage* is a number. libevent is modelled by
-- what the session asks of it: `read_armed` and `write_armed` say that the event is added; what a
-- socket does at a read or a write is an argument. The decoder's virtual `decode` is a parameter.
-- `wire` has the bytes that the socket has taken, oldest first.
pub mod Sending
pub mod Bytes
mod Tests
use zylib.Prelude.{
  ℕ, zero, suc, Bool, true, false, not, ◌&&◌, Option, none, some, List, [], ◌∷◌, ◌++◌, ◌==◌,
  if◌then◌else◌, is_nil, take, drop,
}

-- EventSessionID: m_fd and m_seq_id.
pub record SessionId : Type 0 where
  pub fd : ℕ
  pub seq_id : ℕ

-- EventSessionID::operator==
abbrev pub same_id : SessionId → SessionId → Bool
same_id a b = a.fd == b.fd && a.seq_id == b.seq_id

pub record Session : Type 0 where
  pub sid : SessionId
  pub is_shutdown : Bool
  pub wait_written : Bool
  pub received_buffer : List ℕ
  pub send_buffer : List ℕ
  pub msg_queue : List ℕ
  pub read_armed : Bool
  pub write_armed : Bool
  pub wire : List ℕ

-- The calls that a session makes: of its handler, and of EventServer::shutdownSession.
pub data Note : Type 0 where
  handled : List (Option ℕ) → Note
  started closed timed_out asks_shutdown : Note

unfoldable pub new_session : SessionId → Session
new_session sid = record {
  sid = sid;
  is_shutdown = false;
  wait_written = false;
  received_buffer = [];
  send_buffer = [];
  msg_queue = [];
  read_armed = false;
  write_armed = false;
  wire = [];
}

-- `appendResponse(resp)`
unfoldable pub append_response : Session → List ℕ → Session
append_response s bytes = record s { send_buffer = s.send_buffer ++ bytes }

-- `addEvent(EV_WRITE)` and `addEvent(EV_READ)`
unfoldable pub add_write : Session → Session
add_write s = record s { write_armed = true; wait_written = true }

unfoldable pub add_read : Session → Session
add_read s = record s { read_armed = true }

unfoldable pub shutdown : Session → Session × List Note
shutdown s =
    if s.is_shutdown then (s, []) else (record s { is_shutdown = true }, asks_shutdown ∷ [])

-- `evbuffer_write` that takes nothing: `again` says that it would block.
unfoldable pub blocked : Bool → Session → Session × List Note
unfolding add_write shutdown
blocked true s = (add_write s, [])
blocked false s = let (s', notes) = shutdown s in (s', closed ∷ notes)

-- The loop of onWrite, with how many bytes each `evbuffer_write` takes; behind the last of these it
-- fails.
unfoldable pub write_loop : List ℕ → Bool → Session → Session × List Note
write_loop [] again s = if is_nil s.send_buffer then (s, []) else blocked again s
write_loop (n ∷ chunks) again s =
    let rest =
      write_loop chunks again
        (record s { send_buffer = drop n s.send_buffer; wire = s.wire ++ take n s.send_buffer }) in
    if is_nil s.send_buffer then (s, []) else if n == 0 then blocked again s else rest

-- What onWrite does behind its loop.
unfoldable pub after_write : Session → List Note → Session × List Note
after_write s notes =
    if not s.wait_written && s.is_shutdown then (s, notes ++ asks_shutdown ∷ []) else (s, notes)

-- onWrite
unfoldable pub on_write : List ℕ → Bool → Session → Session × List Note
unfolding after_write
on_write chunks again s =
    let (s', notes) = write_loop chunks again (record s { wait_written = false }) in
    after_write s' notes

-- asyncWrite
unfoldable pub async_write : List ℕ → Bool → Session → Session × List Note
async_write chunks again s = if s.wait_written then (s, []) else on_write chunks again s

-- release: whether the session may be deleted.
unfoldable pub release : Session → Session × Bool
release s =
    if s.wait_written
    then (record s { is_shutdown = true }, false)
    else (record s { is_shutdown = true; read_armed = false; write_armed = false }, true)

-- EventMsgDecoder::take, `n` times.
unfoldable pub take_msgs : ℕ → List ℕ → List (Option ℕ) × List ℕ
take_msgs zero queue = ([], queue)
take_msgs (suc n) [] = let (msgs, rest) = take_msgs n [] in (none ∷ msgs, rest)
take_msgs (suc n) (m ∷ queue) = let (msgs, rest) = take_msgs n queue in (some m ∷ msgs, rest)

-- EventMsgDecoder::decode: from the queue and the buffer to the queue, the buffer and the count, where
-- `none` is a negative one.
abbrev pub Decode : Type 0
Decode = List ℕ → List ℕ → List ℕ × List ℕ × Option ℕ

-- What happened to the socket: `evbuffer_read` read these bytes, it read none, or the timeout came.
pub data Reading : Type 0 where
  got : List ℕ → Reading
  ended late : Reading

-- `close` of the handler, and `shutdown`.
unfoldable pub close_down : Session → Note → Session × List Note
unfolding shutdown
close_down s note = let (s', notes) = shutdown s in (s', note ∷ notes)

-- onRead behind `decode`.
unfoldable pub decoded : Session → List ℕ × List ℕ × Option ℕ → Session × List Note
unfolding close_down take_msgs add_read
decoded s (queue, buffer, none) =
    close_down (record s { msg_queue = queue; received_buffer = buffer }) closed
decoded s (queue, buffer, some zero) =
    (add_read (record s { msg_queue = queue; received_buffer = buffer }), [])
decoded s (queue, buffer, some (suc n)) =
    let (msgs, rest) = take_msgs (suc n) queue in
    (add_read (record s { msg_queue = rest; received_buffer = buffer }), handled msgs ∷ [])

-- onRead
unfoldable pub on_read : Decode → Reading → Session → Session × List Note
unfolding close_down
on_read decode (got bytes) s =
    if s.is_shutdown
    then (s, [])
    else if is_nil bytes
    then close_down s closed
    else decoded s (decode s.msg_queue (s.received_buffer ++ bytes))
on_read decode ended s = if s.is_shutdown then (s, []) else close_down s closed
on_read decode late s = if s.is_shutdown then (s, []) else close_down s timed_out
