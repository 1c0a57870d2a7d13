-- ===== src/Network/Channel/Stuck.antt =====
-- A channel after a failed write.
use zylib.Prelude.{ℕ, ◌≡◌, refl, ◌∙◌, Bool, false, some, List, [], ◌∷◌, arith}
use zylib.Network.Decoder.{Message}
use zylib.Network.Channel.{
  Channel, on_closed, by_shutdown, by_read_timeout, by_write_timeout, Input, send, shut, wrote,
  read, read_late, write_late, Reach, here, next, Enabled, step, is_nil, write_done_on, write_done,
}
use zylib.Network.Channel.Order.{written, log-SameWrites, read-SameWrites, is_nil-snoc}

-- A write has failed: none is outstanding, and the message that failed still heads the queue.
pub record Stuck (c : Channel) : Type 0 where
  pub idle : c.writing ≡ false
  pub queued : is_nil c.write_buffer ≡ false

-- A failed write leaves the channel closed and stuck.
pub write_done-Stuck :
    (c : Channel) (n : ℕ)
    → is_nil c.write_buffer ≡ false
    → Stuck (write_done c false n) × ((write_done c false n).opened ≡ false)
unfolding write_done
write_done-Stuck c n q = failed c.write_buffer q
  where
    failed :
        (queue : List Message)
        → is_nil queue ≡ false
        → Stuck (write_done_on c false n queue) × ((write_done_on c false n queue).opened ≡ false)
    failed [] q = cc
    failed (msg ∷ rest) q = ground arith

step-Stuck :
    (asserts : Bool) (c : Channel) (i : Input) {d : Channel}
    → Stuck c
    → Enabled c i
    → step asserts c i ≡ some d
    → Stuck d × (written d.events ≡ written c.events)
unfolding step
step-Stuck asserts c (send msg) k n e = ground (arith, is_nil-snoc c.write_buffer msg)
step-Stuck asserts c shut k n e = ground (arith, log-SameWrites c (on_closed by_shutdown) refl)
step-Stuck asserts c (wrote success m) k n e = cc (k.idle, n)
step-Stuck asserts c (read success bytes) k n e =
    ground (arith, read-SameWrites asserts c success bytes e)
step-Stuck asserts c read_late k n e =
    ground (arith, log-SameWrites c (on_closed by_read_timeout) refl)
step-Stuck asserts c write_late k n e =
    ground (arith, log-SameWrites c (on_closed by_write_timeout) refl)

-- Once a write has failed, no message is ever written again, whatever is sent.
pub Reach-Stuck :
    (asserts : Bool) (c : Channel) {is : List Input} {d : Channel}
    → Stuck c
    → Reach asserts c is d
    → Stuck d × (written d.events ≡ written c.events)
Reach-Stuck asserts c k here = (k, refl)
Reach-Stuck asserts c k (next {d = d} i r n e) =
    let (k', w) = Reach-Stuck asserts c k r in
    let (k'', w') = step-Stuck asserts d i k' n e in (k'', w' ∙ w)
