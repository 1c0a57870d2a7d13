-- ===== src/Network/Channel/Closing.antt =====
-- How often a channel is reported closed.
use zylib.Prelude.{
  ℕ, suc, ◌+◌, ◌≡◌, refl, ◌∙◌, inl, inr, Bool, true, false, Option, none, some, List, [], ◌∷◌, ◌++◌,
  arith, if◌then◌else◌, Option-cases, some-subst, length,
}
use mathlib.Core.Option
use mathlib.Core.Option
use zylib.Network.Buffer.{FlatBuffer, append, empty_buffer}
use zylib.Network.Channel.{
  shut, here, wrote, read, read_late, write_late, Channel, Event, on_read, on_write, on_closed,
  on_received, log, write_done_on, init, send_msg, Input, do_closed, shutdown, step, try_decode,
  read_done, Reach, new_channel, Message, by_shutdown, CloseType, ChannelOption, by_write, send,
  by_read, next, decode, wrote, read, by_read_timeout, by_write_timeout,
}

-- The calls of OnClosed.
abbrev pub closings : List Event → ℕ
closings [] = 0
closings (on_closed type ∷ es) = suc (closings es)
closings (on_read success n ∷ es) = closings es
closings (on_write success n msg ∷ es) = closings es
closings (on_received msgs ∷ es) = closings es

closings-append : (es fs : List Event) → closings (es ++ fs) ≡ closings es + closings fs
closings-append [] fs = omega arith
closings-append (on_closed type ∷ es) fs = omega (arith, closings-append es fs)
closings-append (on_read success n ∷ es) fs = closings-append es fs
closings-append (on_write success n msg ∷ es) fs = closings-append es fs
closings-append (on_received msgs ∷ es) fs = closings-append es fs

-- An open channel has not been reported closed, and a closed one exactly once.
abbrev pub Reported : Channel → Type 0
Reported c = closings c.events ≡ (if c.opened then 0 else 1)

-- From `c` to `d` the report is kept, and a closed channel stays closed.
pub record Keeps (c d : Channel) : Type 0 where
  pub report : Reported c → Reported d
  pub stays : c.opened ≡ false → d.opened ≡ false

do_closed-Keeps : (c : Channel) (type : CloseType) → Keeps c (do_closed c type)
unfolding do_closed
do_closed-Keeps c type = record {
  report = λ h. ground (arith, closings-append c.events (on_closed type ∷ []));
  stays = λ h. ground arith;
}

log-Keeps : (c : Channel) (e : Event) → closings (e ∷ []) ≡ 0 → Keeps c (log c e)
log-Keeps c e z = record {
  report = λ h. omega (arith, closings-append c.events (e ∷ []), h, z);
  stays = λ h. h;
}

Keeps-trans : {c d e : Channel} → Keeps c d → Keeps d e → Keeps c e
Keeps-trans p q = record { report = λ h. q.report (p.report h); stays = λ h. q.stays (p.stays h) }

-- Only `opened` and `events` matter.
Same-Keeps : (c d : Channel) → d.opened ≡ c.opened → d.events ≡ c.events → Keeps c d
Same-Keeps c d o e = record { report = λ h. rw (o, e) h; stays = λ h. o ∙ h }

send-Keeps : (c : Channel) (msg : Message) → Keeps c (send_msg c msg)
unfolding send_msg
send-Keeps c msg = Same-Keeps c _ (ground arith) (ground arith)

shutdown-Keeps : (c : Channel) → Keeps c (shutdown c)
unfolding shutdown
shutdown-Keeps c = elim c.socket as (λ b. Keeps c (if b then do_closed c by_shutdown else c)) [
  | true ↦ do_closed-Keeps c by_shutdown
  | false ↦ Same-Keeps c c refl refl
]

write_done_on-Keeps :
    (c : Channel) (success : Bool) (n : ℕ) (queue : List Message)
    → Keeps c (write_done_on c success n queue)
unfolding write_done_on
write_done_on-Keeps c success n [] = Same-Keeps c c refl refl
write_done_on-Keeps c true n (msg ∷ rest) =
    Keeps-trans (log-Keeps c (on_write true n msg) refl)
      (Same-Keeps _ _ (ground arith) (ground arith))
write_done_on-Keeps c false n (msg ∷ rest) =
    Keeps-trans (log-Keeps c (on_write false n msg) refl)
      (Keeps-trans (Same-Keeps _ failed refl refl) (do_closed-Keeps failed by_write))
  where
    failed : Channel
    failed = record (log c (on_write false n msg)) {
      writing = false;
      write_timer = false;
      write_buffer = empty_buffer ∷ rest;
    }

try_decode-Keeps :
    (asserts : Bool) (c : Channel) {d : Channel} → try_decode asserts c ≡ some d → Keeps c d
unfolding try_decode
try_decode-Keeps asserts c {d} e =
    go (decode asserts (suc (length c.read_buffer.buffer)) c.read_buffer []) refl
  where
    go :
        (r : Option (FlatBuffer × List Message))
        → decode asserts (suc (length c.read_buffer.buffer)) c.read_buffer [] ≡ r
        → Keeps c d
    go none p = cc (rw (p, try_decode) at e)
    go (some (rest, [])) p =
        some-subst (Keeps c) (rw (p, try_decode) at e)
          (Same-Keeps c (record c { read_buffer = rest }) refl refl)
    go (some (rest, msg ∷ out)) p =
        some-subst (Keeps c) (rw (p, try_decode) at e)
          (Keeps-trans (log-Keeps c (on_received (msg ∷ out)) refl) (Same-Keeps _ _ refl refl))

read_done-Keeps :
    (asserts : Bool) (c : Channel) (success : Bool) (bytes : List ℕ) {d : Channel}
    → read_done asserts c success bytes ≡ some d
    → Keeps c d
unfolding read_done
read_done-Keeps asserts c false bytes e = some-subst (Keeps c) e (
    Keeps-trans (log-Keeps c (on_read false (length bytes)) refl)
      (Keeps-trans (Same-Keeps _ ended refl refl) (do_closed-Keeps ended by_read)))
  where
    ended : Channel
    ended = record (log c (on_read false (length bytes))) { reading = false; read_timer = false }
read_done-Keeps asserts c true bytes e = elim (Option-cases (try_decode asserts now)) [
  | inl p ↦ cc (rw (p, Option.map) at e)
  | inr (d', p) ↦ some-subst (Keeps c) (rw (p, Option.map) at e) (
      Keeps-trans (log-Keeps c (on_read true (length bytes)) refl) (
        Keeps-trans (Same-Keeps _ now refl refl)
          (Keeps-trans (try_decode-Keeps asserts now p) (Same-Keeps d' _ refl refl))))
]
  where
    now : Channel
    now = record (log c (on_read true (length bytes))) {
      reading = false;
      read_timer = false;
      read_buffer = append c.read_buffer (some bytes) (length bytes);
    }

step-Keeps :
    (asserts : Bool) (c : Channel) (i : Input) {d : Channel} → step asserts c i ≡ some d → Keeps c d
unfolding step
step-Keeps asserts c (send msg) e = some-subst (Keeps c) e (send-Keeps c msg)
step-Keeps asserts c shut e = some-subst (Keeps c) e (shutdown-Keeps c)
step-Keeps asserts c (wrote success n) e =
    some-subst (Keeps c) e (write_done_on-Keeps c success n c.write_buffer)
step-Keeps asserts c (read success bytes) e = read_done-Keeps asserts c success bytes e
step-Keeps asserts c read_late e = some-subst (Keeps c) e (
    Keeps-trans (Same-Keeps c (record c { read_timer = false }) refl refl)
      (do_closed-Keeps (record c { read_timer = false }) by_read_timeout))
step-Keeps asserts c write_late e = some-subst (Keeps c) e (
    Keeps-trans (Same-Keeps c (record c { write_timer = false }) refl refl)
      (do_closed-Keeps (record c { write_timer = false }) by_write_timeout))

Reach-Keeps : {asserts : Bool} {c d : Channel} {is : List Input} → Reach asserts c is d → Keeps c d
Reach-Keeps here = record { report = λ h. h; stays = λ h. h }
Reach-Keeps {asserts} (next {d = d} i r n e) =
    Keeps-trans (Reach-Keeps r) (step-Keeps asserts d i e)

-- In every history of an initialised channel the user's OnClosed is called at most once: not while
-- the channel is open, and exactly once when it is closed; and a closed channel stays closed.
pub Reach-Reported :
    (asserts : Bool) (opt : ChannelOption) {is js : List Input} {c d : Channel}
    → Reach asserts (init (new_channel opt)) is c
    → Reach asserts c js d
    → Reported c × (c.opened ≡ false → d.opened ≡ false)
unfolding init new_channel
Reach-Reported asserts opt r s = ((Reach-Keeps r).report refl, (Reach-Keeps s).stays)
