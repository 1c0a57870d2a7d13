-- ===== src/Network/Channel/Reading.antt =====
-- What a channel hands to its user, however the peer's bytes are cut into reads.
use zylib.Prelude.{
  ◌≡◌, refl, sym, ap, ◌∙◌, false, none, [], ◌++◌, map, append-nil, append_assoc, arith, concat, All,
  All-right,
}
use mathlib.Core.Option.{Option, some}
use mathlib.Core.Option
use mathlib.Core.Path.{subst}
use mathlib.Core.List.{map-append}
use zylib.Network.Buffer.{FlatBuffer, append, append_all}
use zylib.Network.Decoder.{Message, decode, decode_once}
use zylib.Network.Decoder.Head.{frame, Fits}
use zylib.Network.Decoder.Stream.{stream, Partial, Cut, decode-Cut, left-nil}
use zylib.Network.Channel.{
  Channel, Event, on_read, on_received, log, try_decode, read_done, do_read, Bool, List, ℕ, true,
  suc, ◌∷◌, length, on_write, on_closed,
}

-- The messages handed to OnReceivedMessage, in order.
abbrev pub received : List Event → List Message
received [] = []
received (on_received msgs ∷ es) = msgs ++ received es
received (on_read success n ∷ es) = received es
received (on_write success n msg ∷ es) = received es
received (on_closed type ∷ es) = received es

received-append : (es fs : List Event) → received (es ++ fs) ≡ received es ++ received fs
received-append [] fs = refl
received-append (on_received msgs ∷ es) fs =
    ap (◌++◌ msgs) (received-append es fs) ∙ sym (append_assoc msgs (received es) (received fs))
received-append (on_read success n ∷ es) fs = received-append es fs
received-append (on_write success n msg ∷ es) fs = received-append es fs
received-append (on_closed type ∷ es) fs = received-append es fs

-- A series of successful reads.
unfoldable pub read_all : Bool → Channel → List (List ℕ) → Option Channel
read_all asserts c [] = some c
read_all asserts c (bytes ∷ chunks) = elim (read_done asserts c true bytes) [
  | none ↦ none
  | some d ↦ read_all asserts d chunks
]

-- What `Decode` takes off is handed over, and the rest is kept.
try_decode_lem :
    (c : Channel) (rest : List ℕ) (out : List Message)
    → decode true (suc (length c.read_buffer.buffer)) c.read_buffer []
      ≡ some (record { buffer = rest }, out)
    → (d : Channel) × (try_decode true c ≡ some d)
      × (d.read_buffer.buffer ≡ rest)
      × (received d.events ≡ received c.events ++ out)
unfolding try_decode
try_decode_lem c rest [] e = (
  record c { read_buffer = record { buffer = rest } },
  rw (e, try_decode),
  refl,
  sym (append-nil (received c.events)),
)
try_decode_lem c rest (msg ∷ out) e = (
  log (record c { read_buffer = record { buffer = rest } }) (on_received (msg ∷ out)),
  rw (e, try_decode),
  refl,
  received-append c.events (on_received (msg ∷ out) ∷ [])
      ∙ ap (◌++◌ (received c.events)) (append-nil (msg ∷ out)),
)

-- One successful read.
read_done_lem :
    (c : Channel) (bytes rest : List ℕ) (out : List Message)
    → decode true
        (suc (length (c.read_buffer.buffer ++ bytes)))
        (record { buffer = c.read_buffer.buffer ++ bytes })
        []
      ≡ some (record { buffer = rest }, out)
    → (d : Channel) × (read_done true c true bytes ≡ some d)
      × (d.read_buffer.buffer ≡ rest)
      × (received d.events ≡ received c.events ++ out)
unfolding read_done
read_done_lem c bytes rest out e =
    let (d, one, kept, handed) =
      try_decode_lem now rest out (rw (append_all c.read_buffer bytes) e) in
    (do_read d, rw (one, Option.map), kept, rw handed (ap (λ es. es ++ out) same))
  where
    now : Channel
    now =
        log
          (record c {
            reading = false;
            read_timer = false;
            read_buffer = append c.read_buffer (some bytes) (length bytes);
          })
          (on_read true (length bytes))

    same : received now.events ≡ received c.events
    same =
        received-append c.events (on_read true (length bytes) ∷ []) ∙ append-nil (received c.events)

quiet_rest :
    (b : FlatBuffer) (rest : List ℕ)
    → b.buffer ≡ rest
    → decode_once true (record { buffer = rest }) ≡ none
    → decode_once true b ≡ none
quiet_rest b rest e = subst (λ bs. decode_once true (record { buffer = bs }) ≡ none) (sym e)

-- With assertions compiled in: let a stream of messages whose bodies fit, and a part of one more behind
-- it, be what stands in the read buffer, which holds no whole message, and then what arrives, cut into
-- reads in any way. Then each read returns, the user is handed exactly the messages, in order, and the
-- part stays in the buffer.
pub read_all-received :
    (bodies : List (List ℕ)) (part : List ℕ) (chunks : List (List ℕ)) (c : Channel)
    → All Fits bodies
    → Partial part
    → c.read_buffer.buffer ++ concat chunks ≡ stream bodies ++ part
    → decode_once true c.read_buffer ≡ none
    → (d : Channel) × (read_all true c chunks ≡ some d)
      × (received d.events ≡ received c.events ++ map frame bodies)
      × (d.read_buffer.buffer ≡ part)
unfolding read_all
read_all-received bodies part [] c fit p e q = (
  c,
  refl,
  rw (none_left, append-nil (received c.events)),
  sym (append-nil c.read_buffer.buffer) ∙ e ∙ rw none_left,
)
  where
    none_left : bodies ≡ []
    none_left =
        left-nil [] bodies c.read_buffer.buffer part fit q
          (sym (append-nil c.read_buffer.buffer) ∙ e)
read_all-received bodies part (bytes ∷ chunks) c fit p e q =
    let now = c.read_buffer.buffer ++ bytes in
    let cut : Cut bodies part now (concat chunks) (suc (length now)) [] =
      decode-Cut bodies part now (concat chunks) (suc (length now)) [] fit p
        (append_assoc c.read_buffer.buffer bytes (concat chunks) ∙ e) (omega arith) in
    let (d, one, kept, handed) = read_done_lem c bytes cut.rest (map frame cut.taken) cut.result in
    let (f, all, rest_handed, rest_kept) =
      read_all-received cut.left part chunks d
        (All-right Fits cut.taken cut.left (rw cut.all at fit)) p (rw kept cut.next)
        (quiet_rest d.read_buffer cut.rest kept cut.quiet) in
    (
      f,
      rw (one, read_all) all,
      rest_handed
          ∙ ap (λ ms. ms ++ map frame cut.left) handed
          ∙ append_assoc (received c.events) (map frame cut.taken) (map frame cut.left)
          ∙ ap (◌++◌ (received c.events))
              (sym (map-append frame cut.taken cut.left) ∙ ap (map frame) (sym cut.all)),
      rest_kept,
    )
