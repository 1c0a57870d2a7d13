-- ===== src/Network/Channel.antt =====
-- zysoft/src/network/Channel.h, class Channel: one connection, its queue of messages to write, its
-- two outstanding operations with their timers, and its closing. Every handler runs on the socket's
-- executor, one at a time, so a run is a sequence of handler calls. boost::asio is not modelled but
-- by the calls that it makes: `reading` and `writing` say that an operation is outstanding,
-- `read_timer` and `write_timer` that a timer is armed for it, and the input of `step` is the
-- handler that runs next, with the operation's outcome. `events` are the calls of the user's
-- NetworkEvent, oldest first; the socket's own state and the addresses are not kept. The handler of
-- a timer that has been cancelled may run still.
pub mod Order
pub mod Stuck
pub mod Closing
pub mod Reading
mod Tests
use zylib.Prelude.{
  ℕ, suc, ◌≡◌, Bool, true, false, not, Option, none, some, List, [], ◌∷◌, ◌++◌, map, ◌==◌,
  if◌then◌else◌, length,
}
use mathlib.Core.Option
use zylib.Network.Buffer.{FlatBuffer, empty_buffer, append}
use zylib.Network.Decoder.{Message, encode, decode}

pub record ChannelOption : Type 0 where
  pub read_timeout_seconds : ℕ
  pub write_timeout_seconds : ℕ

-- enum class ECloseType
pub data CloseType : Type 0 where
  by_shutdown by_read by_write by_read_timeout by_write_timeout : CloseType

-- Whether the operation succeeded stands for `!ec`.
pub data Event : Type 0 where
  on_read : Bool → ℕ → Event
  on_write : Bool → ℕ → Message → Event
  on_closed : CloseType → Event
  on_received : List Message → Event

pub record Channel : Type 0 where
  pub opt : ChannelOption
  pub socket : Bool
  pub opened : Bool
  pub write_buffer : List Message
  pub read_buffer : FlatBuffer
  pub reading : Bool
  pub read_timer : Bool
  pub writing : Bool
  pub write_timer : Bool
  pub events : List Event

abbrev pub log : Channel → Event → Channel
log c e = record c { events = c.events ++ e ∷ [] }

-- The constructor.
unfoldable pub new_channel : ChannelOption → Channel
new_channel opt = record {
  opt = opt;
  socket = false;
  opened = false;
  write_buffer = [];
  read_buffer = empty_buffer;
  reading = false;
  read_timer = false;
  writing = false;
  write_timer = false;
  events = [];
}

-- DoClosed
unfoldable pub do_closed : Channel → CloseType → Channel
do_closed c type = if c.opened then log (record c { opened = false }) (on_closed type) else c

-- DoWrite up to the call of async_write; CreateTimer arms no timer for 0 seconds.
unfoldable pub do_write : Channel → Channel
do_write c = record c { writing = true; write_timer = not (c.opt.write_timeout_seconds == 0) }

-- DoRead up to the call of async_read_some.
unfoldable pub do_read : Channel → Channel
do_read c = record c { reading = true; read_timer = not (c.opt.read_timeout_seconds == 0) }

-- Init
unfoldable pub init : Channel → Channel
unfolding do_read
init c = do_read (record c { opened = true; socket = true })

abbrev pub is_nil : List Message → Bool
is_nil [] = true
is_nil (_ ∷ _) = false

-- SendMsg(Message), with the handler that it posts.
unfoldable pub send_msg : Channel → Message → Channel
unfolding do_write
send_msg c msg =
    if c.socket
    then (let queued = record c { write_buffer = c.write_buffer ++ msg ∷ [] } in
        if is_nil c.write_buffer then do_write queued else queued)
    else c

-- SendMsg(const void*, std::size_t)
unfoldable pub send_bytes : Channel → List ℕ → Channel
unfolding send_msg
send_bytes c bytes = send_msg c (encode (some bytes) (length bytes) empty_buffer)

-- Shutdown, with the handler that it posts.
unfoldable pub shutdown : Channel → Channel
unfolding do_closed
shutdown c = if c.socket then do_closed c by_shutdown else c

-- The rest of a successful write: `if (!m_write_buffer.empty()) DoWrite();`.
unfoldable pub next_write : Channel → Channel
unfolding do_write
next_write c = if is_nil c.write_buffer then c else do_write c

-- The handler of async_write on the queue `m_write_buffer`. A failed write leaves the queue with
-- its front moved from; no handler runs with an empty queue.
unfoldable pub write_done_on : Channel → Bool → ℕ → List Message → Channel
unfolding do_closed next_write
write_done_on c success n [] = c
write_done_on c success n (msg ∷ rest) =
    let done = log (record c { writing = false; write_timer = false }) (on_write success n msg) in
    if success
    then next_write (record done { write_buffer = rest })
    else do_closed (record done { write_buffer = empty_buffer ∷ rest }) by_write

unfoldable pub write_done : Channel → Bool → ℕ → Channel
unfolding write_done_on
write_done c success n = write_done_on c success n c.write_buffer

-- TryDecode. `none` means that `Decode` does not return: its loop has more rounds than the buffer
-- has bytes (Decoder/Endless).
unfoldable pub try_decode : Bool → Channel → Option Channel
try_decode asserts c = elim (decode asserts (suc (length c.read_buffer.buffer)) c.read_buffer []) [
  | none ↦ none
  | some (rest, out) ↦ some (
      if is_nil out
      then record c { read_buffer = rest }
      else log (record c { read_buffer = rest }) (on_received out))
]

-- The handler of async_read_some with the bytes read.
unfoldable pub read_done : Bool → Channel → Bool → List ℕ → Option Channel
unfolding do_closed do_read
read_done asserts c success bytes =
    let ended = record c { reading = false; read_timer = false } in
    if success
    then Option.map do_read (
        try_decode asserts (
          log (record ended { read_buffer = append c.read_buffer (some bytes) (length bytes) })
            (on_read true (length bytes))))
    else some (do_closed (log ended (on_read false (length bytes))) by_read)

-- The handlers of the two timers.
unfoldable pub read_timeout : Channel → Channel
unfolding do_closed
read_timeout c = do_closed (record c { read_timer = false }) by_read_timeout

unfoldable pub write_timeout : Channel → Channel
unfolding do_closed
write_timeout c = do_closed (record c { write_timer = false }) by_write_timeout

-- What runs next on the executor.
pub data Input : Type 0 where
  send : Message → Input
  shut : Input
  wrote : Bool → ℕ → Input
  read : Bool → List ℕ → Input
  read_late write_late : Input

unfoldable pub step : Bool → Channel → Input → Option Channel
unfolding send_msg shutdown write_done read_done read_timeout write_timeout
step asserts c (send msg) = some (send_msg c msg)
step asserts c shut = some (shutdown c)
step asserts c (wrote success n) = some (write_done c success n)
step asserts c (read success bytes) = read_done asserts c success bytes
step asserts c read_late = some (read_timeout c)
step asserts c write_late = some (write_timeout c)

-- A handler of an operation runs only while it is outstanding. That of a timer may run at any point, since
-- it may have been queued when its timer is cancelled.
abbrev pub Enabled : Channel → Input → Type 0
Enabled c (send msg) = Unit
Enabled c shut = Unit
Enabled c (wrote success n) = c.writing ≡ true
Enabled c (read success bytes) = c.reading ≡ true
Enabled c read_late = Unit
Enabled c write_late = Unit

-- A history of a channel, the newest input first: each handler was enabled and returned.
pub data Reach (asserts : Bool) (c : Channel) : List Input → Channel → Type 0 where
  here : Reach asserts c [] c
  next :
      {is : List Input} {d e : Channel} (i : Input)
      → Reach asserts c is d
      → Enabled d i
      → step asserts d i ≡ some e
      → Reach asserts c (i ∷ is) e
