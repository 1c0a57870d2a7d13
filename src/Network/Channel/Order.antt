-- ===== src/Network/Channel/Order.antt =====
-- What a channel writes, and in which order.
use zylib.Prelude.{
  ℕ, suc, ◌≡◌, refl, ap, inl, inr, Bool, true, false, not, Option, none, some, List, [], ◌∷◌, ◌++◌,
  append-nil, append_assoc, arith, Option-cases, some-subst, length, All,
}
use mathlib.Core.Option
use zylib.Network.Buffer.{FlatBuffer, append}
use zylib.Network.Decoder.{Message, decode}
use zylib.Network.Channel.{
  log, by_read, by_shutdown, by_read_timeout, by_write_timeout, send_msg, shutdown, read_timeout,
  write_timeout, Channel, ChannelOption, Event, on_read, on_write, on_closed, on_received, Input,
  send, shut, wrote, read, read_late, write_late, Reach, here, next, Enabled, step, init,
  new_channel, is_nil, read_done, try_decode, write_done_on, write_done,
}

-- The messages of the successful writes.
abbrev pub written : List Event → List Message
written [] = []
written (on_write true n msg ∷ es) = msg ∷ written es
written (on_write false n msg ∷ es) = written es
written (on_read success n ∷ es) = written es
written (on_closed type ∷ es) = written es
written (on_received msgs ∷ es) = written es

-- The messages that were sent, oldest first; the inputs stand newest first.
abbrev pub posted : List Input → List Message
posted [] = []
posted (send msg ∷ is) = posted is ++ msg ∷ []
posted (shut ∷ is) = posted is
posted (wrote success n ∷ is) = posted is
posted (read success bytes ∷ is) = posted is
posted (read_late ∷ is) = posted is
posted (write_late ∷ is) = posted is

-- A write that did not fail.
abbrev pub Successful : Input → Type 0
Successful (wrote success n) = success ≡ true
Successful (send msg) = Unit
Successful shut = Unit
Successful (read success bytes) = Unit
Successful read_late = Unit
Successful write_late = Unit

written-append : (es fs : List Event) → written (es ++ fs) ≡ written es ++ written fs
written-append [] fs = refl
written-append (on_write true n msg ∷ es) fs = ap (◌∷◌ msg) (written-append es fs)
written-append (on_write false n msg ∷ es) fs = written-append es fs
written-append (on_read success n ∷ es) fs = written-append es fs
written-append (on_closed type ∷ es) fs = written-append es fs
written-append (on_received msgs ∷ es) fs = written-append es fs

-- Reading leaves the writing side alone.
pub record SameWrites (c d : Channel) : Type 0 where
  pub same_socket : d.socket ≡ c.socket
  pub same_queue : d.write_buffer ≡ c.write_buffer
  pub same_writing : d.writing ≡ c.writing
  pub same_written : written d.events ≡ written c.events

try_decode-SameWrites :
    (asserts : Bool) (c : Channel) {d : Channel} → try_decode asserts c ≡ some d → SameWrites c d
unfolding try_decode
try_decode-SameWrites asserts c {d} e =
    go (decode asserts (suc (length c.read_buffer.buffer)) c.read_buffer []) refl
  where
    go :
        (r : Option (FlatBuffer × List Message))
        → decode asserts (suc (length c.read_buffer.buffer)) c.read_buffer [] ≡ r
        → SameWrites c d
    go none p = cc (rw (p, try_decode) at e)
    go (some (rest, [])) p = ground (arith, rw (p, try_decode) at e)
    go (some (rest, msg ∷ out)) p = ground (
      arith,
      rw (p, try_decode) at e,
      written-append c.events (on_received (msg ∷ out) ∷ []),
      append-nil (written c.events),
    )

pub log-SameWrites :
    (c : Channel) (e : Event)
    → written (e ∷ []) ≡ []
    → written (c.events ++ e ∷ []) ≡ written c.events
log-SameWrites c e h = rw (written-append c.events (e ∷ []), h, append-nil (written c.events))

pub read-SameWrites :
    (asserts : Bool) (c : Channel) (success : Bool) (bytes : List ℕ) {d : Channel}
    → read_done asserts c success bytes ≡ some d
    → SameWrites c d
unfolding read_done
read-SameWrites asserts c false bytes e = ground (
  arith,
  log-SameWrites c (on_read false (length bytes)) refl,
  log-SameWrites (log c (on_read false (length bytes))) (on_closed by_read) refl,
)
read-SameWrites asserts c true bytes {d} e = elim (Option-cases (try_decode asserts now)) [
  | inl p ↦ cc (rw (p, Option.map) at e)
  | inr (d', p) ↦ ground (
    arith,
    rw (p, Option.map) at e,
    try_decode-SameWrites asserts now p,
    log-SameWrites c (on_read true (length bytes)) refl,
  )
]
  where
    now : Channel
    now =
        log
          (record c {
            reading = false;
            read_timer = false;
            read_buffer = append c.read_buffer (some bytes) (length bytes);
          })
          (on_read true (length bytes))

-- While no write has failed: what was written and what is queued are together the messages sent, in
-- order, and a write is outstanding exactly when the queue is not empty.
pub record Orderly (is : List Input) (c : Channel) : Type 0 where
  pub attached : c.socket ≡ true
  pub fifo : written c.events ++ c.write_buffer ≡ posted is
  pub busy : c.writing ≡ not (is_nil c.write_buffer)

pub is_nil-snoc : (ms : List Message) (m : Message) → is_nil (ms ++ m ∷ []) ≡ false
is_nil-snoc [] m = refl
is_nil-snoc (n ∷ ms) m = refl

send-Orderly :
    (is : List Input) (c : Channel) (msg : Message)
    → Orderly is c
    → Orderly (send msg ∷ is) (send_msg c msg)
unfolding send_msg
send-Orderly is c msg o = ground (
  arith,
  is_nil-snoc c.write_buffer msg,
  append_assoc (written c.events) c.write_buffer (msg ∷ []),
)

wrote_on-Orderly :
    (is : List Input) (c : Channel) (n : ℕ) (queue : List Message)
    → c.write_buffer ≡ queue
    → Orderly is c
    → c.writing ≡ true
    → Orderly (wrote true n ∷ is) (write_done_on c true n queue)
unfolding write_done_on
wrote_on-Orderly is c n [] e o w = ground arith
wrote_on-Orderly is c n (msg ∷ rest) e o w = ground (
  arith,
  written-append c.events (on_write true n msg ∷ []),
  append_assoc (written c.events) (msg ∷ []) rest,
)

wrote-Orderly :
    (is : List Input) (c : Channel) (n : ℕ)
    → Orderly is c
    → c.writing ≡ true
    → Orderly (wrote true n ∷ is) (write_done c true n)
unfolding write_done
wrote-Orderly is c n o w = wrote_on-Orderly is c n c.write_buffer refl o w

shut-Orderly : (is : List Input) (c : Channel) → Orderly is c → Orderly (shut ∷ is) (shutdown c)
unfolding shutdown
shut-Orderly is c o = ground (arith, log-SameWrites c (on_closed by_shutdown) refl)

read_late-Orderly :
    (is : List Input) (c : Channel) → Orderly is c → Orderly (read_late ∷ is) (read_timeout c)
unfolding read_timeout
read_late-Orderly is c o = ground (arith, log-SameWrites c (on_closed by_read_timeout) refl)

write_late-Orderly :
    (is : List Input) (c : Channel) → Orderly is c → Orderly (write_late ∷ is) (write_timeout c)
unfolding write_timeout
write_late-Orderly is c o = ground (arith, log-SameWrites c (on_closed by_write_timeout) refl)

read-Orderly :
    (asserts : Bool) (is : List Input) (c : Channel) (success : Bool) (bytes : List ℕ) {d : Channel}
    → Orderly is c
    → read_done asserts c success bytes ≡ some d
    → Orderly (read success bytes ∷ is) d
read-Orderly asserts is c success bytes o e =
    ground (arith, read-SameWrites asserts c success bytes e)

-- One handler keeps the order, if it is not that of a failed write.
pub step-Orderly :
    (asserts : Bool) (is : List Input) (c : Channel) (i : Input) {d : Channel}
    → Orderly is c
    → Enabled c i
    → Successful i
    → step asserts c i ≡ some d
    → Orderly (i ∷ is) d
unfolding step
step-Orderly asserts is c (send msg) o n s e =
    some-subst (Orderly (send msg ∷ is)) e (send-Orderly is c msg o)
step-Orderly asserts is c shut o n s e = some-subst (Orderly (shut ∷ is)) e (shut-Orderly is c o)
step-Orderly asserts is c (wrote success k) o n s e =
    some-subst (Orderly (wrote success k ∷ is)) e (rw s (wrote-Orderly is c k o n))
step-Orderly asserts is c (read success bytes) o n s e = read-Orderly asserts is c success bytes o e
step-Orderly asserts is c read_late o n s e =
    some-subst (Orderly (read_late ∷ is)) e (read_late-Orderly is c o)
step-Orderly asserts is c write_late o n s e =
    some-subst (Orderly (write_late ∷ is)) e (write_late-Orderly is c o)

init-Orderly : (opt : ChannelOption) → Orderly [] (init (new_channel opt))
unfolding init new_channel
init-Orderly opt = ground arith

-- In every history of a channel in which no write has failed, the messages written are the messages
-- sent, in order, up to those still queued; and a write is outstanding exactly when some are.
pub Reach-Orderly :
    (asserts : Bool) (opt : ChannelOption) {is : List Input} {c : Channel}
    → Reach asserts (init (new_channel opt)) is c
    → All Successful is
    → Orderly is c
Reach-Orderly asserts opt here s = init-Orderly opt
Reach-Orderly asserts opt (next {is = is} {d = d} i r n e) s =
    step-Orderly asserts is d i (Reach-Orderly asserts opt r s.1) n s.0 e
