-- ===== src/Nel/TSock/Receiving.antt =====
-- nel/TSock.cpp: what a socket hands to the user, over all the connections that are made with it.
use zylib.Prelude.{
  ℕ, ◌≡◌, refl, sym, ap, ◌∙◌, Bool, true, false, List, [], ◌∷◌, ◌++◌, append-nil, append_assoc,
  if◌then◌else◌, if_both, is_nil,
}
use mathlib.Core.Path.{subst}
use zylib.Nel.TSock.{
  Bytes, CloseType, normal, timeout, activity, Call, received_msg, closed, timed_out, TSock,
  new_sock, do_read, start, send_msg, do_write, run_send, run_posted, report, on_closed, written_on,
  on_write, tell_msgs, Event, sends, runs, writes, read_fails, reads, times_out, shuts_down, starts,
  on_read, step, run,
}

-- The messages among the calls.
abbrev pub msgs_of : List Call → List Bytes
msgs_of [] = []
msgs_of (received_msg msg ∷ calls) = msg ∷ msgs_of calls
msgs_of (closed ∷ calls) = msgs_of calls
msgs_of (timed_out ∷ calls) = msgs_of calls

msgs_of-append : (xs ys : List Call) → msgs_of (xs ++ ys) ≡ msgs_of xs ++ msgs_of ys
msgs_of-append [] ys = refl
msgs_of-append (received_msg msg ∷ xs) ys = ap (◌∷◌ msg) (msgs_of-append xs ys)
msgs_of-append (closed ∷ xs) ys = msgs_of-append xs ys
msgs_of-append (timed_out ∷ xs) ys = msgs_of-append xs ys

msgs_of-tell_msgs : (msgs : List Bytes) → msgs_of (tell_msgs msgs) ≡ msgs
unfolding tell_msgs
msgs_of-tell_msgs [] = refl
msgs_of-tell_msgs (msg ∷ msgs) = ap (◌∷◌ msg) (msgs_of-tell_msgs msgs)

-- A decoder of a stream: the messages of what has come stay the first ones when more comes.
pub record Decoder (decode : Bytes → List Bytes) : Type 0 where
  pub more : Bytes → Bytes → List Bytes
  pub on_more : (us vs : Bytes) → decode (us ++ vs) ≡ decode us ++ more us vs

-- The bytes that an event brings.
abbrev pub arrived : Event → TSock → Bytes
arrived (reads bs) s = if s.reading then bs else []
arrived (sends msg) s = []
arrived runs s = []
arrived (writes ok) s = []
arrived read_fails s = []
arrived times_out s = []
arrived shuts_down s = []
arrived starts s = []

-- The buffer has these bytes.
record Has (all : Bytes) (s : TSock) : Type 0 where
  pub bytes : s.byte_buf ≡ all

module _ (all : Bytes) where
  report-Has : (type : CloseType) (s : TSock) → Has all s → Has all (report type s)
  unfolding report
  report-Has normal s k = record { bytes = k.bytes }
  report-Has timeout s k = record { bytes = k.bytes }
  report-Has activity s k = record { bytes = k.bytes }

  on_closed-Has : (type : CloseType) (s : TSock) → Has all s → Has all (on_closed type s)
  unfolding on_closed
  on_closed-Has type s k = if_both (Has all) s.is_closed s (report type s) k (report-Has type s k)

  posted-Has : (posted : List Bytes) (s : TSock) → Has all s → Has all (run_posted posted s)
  unfolding run_posted run_send do_write
  posted-Has [] s k = k
  posted-Has (msg ∷ msgs) s k =
      if_both (Has all) (is_nil s.write_buffer) _ _ (record { bytes = k.bytes })
        (record { bytes = k.bytes })

  written-Has : (buffer : List Bytes) (s : TSock) → Has all s → Has all (written_on buffer s)
  unfolding written_on do_write
  written-Has [] s k = k
  written-Has (msg ∷ msgs) s k =
      if_both (Has all) (is_nil msgs) _ _ (record { bytes = k.bytes }) (record { bytes = k.bytes })

  write-Has : (ok : Bool) (s : TSock) → Has all s → Has all (on_write ok s)
  unfolding on_write
  write-Has true s k = written-Has s.write_buffer s k
  write-Has false s k =
      on_closed-Has normal (record s { writing = false }) (record { bytes = k.bytes })

  same_bytes : (s : TSock) → Has all s → Has (all ++ []) s
  same_bytes s k = record { bytes = k.bytes ∙ sym (append-nil all) }

module _ (decode : Bytes → List Bytes) where
  -- The bytes that a history brings.
  abbrev pub received : List Event → TSock → Bytes
  received [] s = []
  received (e ∷ es) s = arrived e s ++ received es (step decode e s)

  read-Has : (bs all : Bytes) (s : TSock) → Has all s → Has (all ++ bs) (on_read decode bs s)
  unfolding on_read do_read
  read-Has [] all s k = record { bytes = k.bytes ∙ sym (append-nil all) }
  read-Has (b ∷ bs) all s k = record { bytes = ap (λ u. u ++ b ∷ bs) k.bytes }

  step-Has :
      (e : Event) (all : Bytes) (s : TSock) → Has all s → Has (all ++ arrived e s) (step decode e s)
  unfolding step do_read start send_msg
  step-Has (sends msg) all s k = same_bytes all _ (
      if_both (λ (r : TSock × Bool). Has all r.0) s.is_closed (s, false)
        (record s { posted = s.posted ++ msg ∷ []; sent = s.sent ++ msg ∷ [] }, true) k
        (record { bytes = k.bytes }))
  step-Has runs all s k = same_bytes all _ (posted-Has all s.posted s k)
  step-Has (writes ok) all s k =
      same_bytes all _ (if_both (Has all) s.writing (on_write ok s) s (write-Has all ok s k) k)
  step-Has read_fails all s k = same_bytes all _ (
      if_both (Has all) s.reading (on_closed normal (record s { reading = false })) s
        (on_closed-Has all normal (record s { reading = false }) (record { bytes = k.bytes })) k)
  step-Has (reads bs) all s k = go s.reading
    where
      go : (b : Bool) → Has (all ++ (if b then bs else [])) (if b then on_read decode bs s else s)
      go true = read-Has bs all s k
      go false = same_bytes all s k
  step-Has times_out all s k =
      same_bytes all _
        (if_both (Has all) s.reading (on_closed timeout s) s (on_closed-Has all timeout s k) k)
  step-Has shuts_down all s k = same_bytes all _ (on_closed-Has all activity s k)
  step-Has starts all s k = same_bytes all _ (record { bytes = k.bytes })

  run-Has :
      (es : List Event) (all : Bytes) (s : TSock)
      → Has all s
      → Has (all ++ received es s) (run decode es s)
  unfolding run
  run-Has [] all s k = same_bytes all s k
  run-Has (e ∷ es) all s k =
      subst (λ u. Has u (run decode es (step decode e s)))
        (append_assoc all (arrived e s) (received es (step decode e s)))
        (run-Has es (all ++ arrived e s) (step decode e s) (step-Has e all s k))

  -- The buffer keeps all bytes that have ever come, on any connection of the socket, and each read that brings bytes hands
  -- over all messages that were found in them again, and then those that it completes. The decoder is one of a stream.
  pub run-repeats :
      (d : Decoder decode) (es : List Event) (b : ℕ) (bs : Bytes)
      → let s = run decode es new_sock in
        s.reading ≡ true
        → let all = received es new_sock in
          ((step decode (reads (b ∷ bs)) s).byte_buf ≡ all ++ b ∷ bs)
          × (msgs_of (step decode (reads (b ∷ bs)) s).told
              ≡ msgs_of s.told ++ (decode all ++ d.more all (b ∷ bs)))
  unfolding step on_read do_read new_sock
  run-repeats d es b bs open_read =
      let s = run decode es new_sock in
      let k : s.byte_buf ≡ received es new_sock =
        (run-Has es [] new_sock (record { bytes = refl })).bytes in
      subst
        (λ r.
          let t = if r then on_read decode (b ∷ bs) s else s in
          (t.byte_buf ≡ received es new_sock ++ b ∷ bs)
          × (msgs_of t.told
              ≡ msgs_of s.told
                ++ (decode (received es new_sock) ++ d.more (received es new_sock) (b ∷ bs))))
        (sym open_read)
        (
          ap (λ u. u ++ b ∷ bs) k,
          msgs_of-append s.told (tell_msgs (decode (s.byte_buf ++ b ∷ bs)))
              ∙ ap (◌++◌ (msgs_of s.told)) (
                  msgs_of-tell_msgs (decode (s.byte_buf ++ b ∷ bs))
                  ∙ (ap (λ u. decode (u ++ b ∷ bs)) k ∙ d.on_more (received es new_sock) (b ∷ bs))),
        )
