-- ===== src/Network/Channel/Tests.antt =====
-- Histories of a channel.
use zylib.Prelude.{
  ℕ, ◌≡◌, refl, true, false, none, some, List, [], ◌∷◌, ◌++◌, map, arith, take, drop, concat,
}
use zylib.Network.Buffer.{append, reserved}
use zylib.Network.Decoder.{Message, decode_once, encode}
use zylib.Network.Decoder.Head.{frame}
use zylib.Network.Decoder.Stream.{stream, Partial}
use zylib.Network.Channel.{
  Channel, ChannelOption, send, wrote, Reach, here, next, init, new_channel, step, write_done,
  is_nil, send_msg, do_write, do_read,
}
use zylib.Network.Channel.Order.{Orderly, Reach-Orderly}
use zylib.Network.Channel.Closing.{Reported, Reach-Reported}
use zylib.Network.Channel.Reading.{read_all, received, read_all-received}

abbrev opt : ChannelOption
opt = record { read_timeout_seconds = 5; write_timeout_seconds = 0 }

abbrev start : Channel
start = init (new_channel opt)

abbrev hello : Message
hello = record { buffer = 1 ∷ 2 ∷ [] }

abbrev sent : Channel
sent = send_msg start hello

one_send : Reach true start (send hello ∷ []) sent
unfolding step
one_send = next (send hello) here tt refl

sent_writing : sent.writing ≡ true
unfolding send_msg init new_channel do_write do_read
sent_writing = refl

send_then_written : Reach true start (wrote true 2 ∷ send hello ∷ []) (write_done sent true 2)
unfolding step
send_then_written = next (wrote true 2) one_send sent_writing refl

Reach-Orderly_example : Orderly (wrote true 2 ∷ send hello ∷ []) (write_done sent true 2)
Reach-Orderly_example = Reach-Orderly true opt send_then_written (refl, (tt, tt))

sent_fails : Reach true sent (wrote false 0 ∷ []) (write_done sent false 0)
unfolding step
sent_fails = next (wrote false 0) here sent_writing refl

Reach-Reported_example :
    Reported sent × (sent.opened ≡ false → (write_done sent false 0).opened ≡ false)
Reach-Reported_example = Reach-Reported true opt one_send sent_fails

sent_queued : is_nil sent.write_buffer ≡ false
unfolding send_msg init new_channel do_write do_read
sent_queued = refl

-- Two messages, and the first three bytes of a third one.
abbrev pair_of_bodies : List (List ℕ)
pair_of_bodies = (7 ∷ 8 ∷ []) ∷ (9 ∷ []) ∷ []

abbrev first_bytes : List ℕ
first_bytes = 2 ∷ 0 ∷ 0 ∷ []

first_bytes-Partial : Partial first_bytes
unfolding encode append reserved
first_bytes-Partial = record {
  body = 5 ∷ 6 ∷ [];
  missing = 0 ∷ 0 ∷ 0 ∷ 0 ∷ 0 ∷ 0 ∷ 0 ∷ 0 ∷ 0 ∷ 0 ∷ 0 ∷ 0 ∷ 0 ∷ 5 ∷ 6 ∷ [];
  fits = omega arith;
  whole = refl;
  some_missing = λ e. cc;
}

abbrev wire : List ℕ
wire = stream pair_of_bodies ++ first_bytes

-- Three reads, one of which ends within a head.
abbrev cuts : List (List ℕ)
cuts = take 7 wire ∷ take 20 (drop 7 wire) ∷ drop 27 wire ∷ []

cuts_lem : start.read_buffer.buffer ++ concat cuts ≡ wire
unfolding init new_channel do_read encode append reserved
cuts_lem = refl

nothing_received : decode_once true start.read_buffer ≡ none
unfolding init new_channel do_read decode_once
nothing_received = refl

read_all-received_example :
    (d : Channel) × (read_all true start cuts ≡ some d)
    × (received d.events ≡ received start.events ++ map frame pair_of_bodies)
    × (d.read_buffer.buffer ≡ first_bytes)
read_all-received_example =
    read_all-received pair_of_bodies first_bytes cuts start (omega arith, (omega arith, tt))
      first_bytes-Partial cuts_lem nothing_received
