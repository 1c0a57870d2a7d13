-- ===== src/Nel/TSock/Stuck.antt =====
-- nel/TSock.cpp: a socket after a write that failed.
use zylib.Prelude.{
  ◌≡◌, refl, sym, ◌≢◌, Bool, true, false, List, [], ◌∷◌, ◌++◌, if◌then◌else◌, if_both, is_nil,
  append-ne-nil,
}
use mathlib.Core.Path.{subst}
use zylib.Nel.TSock.{
  Bytes, CloseType, normal, timeout, activity, TSock, new_sock, do_read, start, send_msg, do_write,
  run_send, run_posted, report, on_closed, on_write, Event, sends, runs, writes, read_fails, reads,
  times_out, shuts_down, starts, on_read, step, run,
}
use zylib.Nel.TSock.Sending.{Kept, new_sock-Kept, run-in_order}

-- Messages wait, and no write is outstanding.
record Idle (written : List Bytes) (s : TSock) : Type 0 where
  pub quiet : s.writing ≡ false
  pub waits : s.write_buffer ≢ []
  pub same : s.written ≡ written

module _ (written : List Bytes) where
  report-Idle : (type : CloseType) (s : TSock) → Idle written s → Idle written (report type s)
  unfolding report
  report-Idle normal s k = record { quiet = k.quiet; waits = k.waits; same = k.same }
  report-Idle timeout s k = record { quiet = k.quiet; waits = k.waits; same = k.same }
  report-Idle activity s k = record { quiet = k.quiet; waits = k.waits; same = k.same }

  on_closed-Idle : (type : CloseType) (s : TSock) → Idle written s → Idle written (on_closed type s)
  unfolding on_closed
  on_closed-Idle type s k =
      if_both (Idle written) s.is_closed s (report type s) k (report-Idle type s k)

  -- A message that is sent is put behind those that wait, and no write begins.
  queued-Idle :
      (buffer : List Bytes) (msg : Bytes) (s : TSock)
      → s.write_buffer ≡ buffer
      → Idle written s
      → Idle written (
          if is_nil buffer
          then do_write (record s { write_buffer = s.write_buffer ++ msg ∷ [] })
          else record s { write_buffer = s.write_buffer ++ msg ∷ [] })
  queued-Idle [] msg s e k = absurd (k.waits e)
  queued-Idle (b ∷ bs) msg s e k = record {
    quiet = k.quiet;
    waits = append-ne-nil s.write_buffer (msg ∷ []) (λ h. cc);
    same = k.same;
  }

  posted-Idle :
      (posted : List Bytes) (s : TSock) → Idle written s → Idle written (run_posted posted s)
  unfolding run_posted run_send
  posted-Idle [] s k = k
  posted-Idle (msg ∷ msgs) s k =
      queued-Idle s.write_buffer msg (record s { posted = msgs }) refl
        (record { quiet = k.quiet; waits = k.waits; same = k.same })

  read-Idle :
      (decode : Bytes → List Bytes) (bs : Bytes) (s : TSock)
      → Idle written s
      → Idle written (on_read decode bs s)
  unfolding on_read do_read
  read-Idle decode [] s k = record { quiet = k.quiet; waits = k.waits; same = k.same }
  read-Idle decode (b ∷ bs) s k = record { quiet = k.quiet; waits = k.waits; same = k.same }

  step-Idle :
      (decode : Bytes → List Bytes) (e : Event) (s : TSock)
      → Idle written s
      → Idle written (step decode e s)
  unfolding step send_msg do_read start
  step-Idle decode (sends msg) s k =
      if_both (λ (r : TSock × Bool). Idle written r.0) s.is_closed (s, false)
        (record s { posted = s.posted ++ msg ∷ []; sent = s.sent ++ msg ∷ [] }, true) k
        (record { quiet = k.quiet; waits = k.waits; same = k.same })
  step-Idle decode runs s k = posted-Idle s.posted s k
  step-Idle decode (writes ok) s k =
      subst (λ b. Idle written (if b then on_write ok s else s)) (sym k.quiet) k
  step-Idle decode read_fails s k =
      if_both (Idle written) s.reading (on_closed normal (record s { reading = false })) s
        (on_closed-Idle normal (record s { reading = false })
          (record { quiet = k.quiet; waits = k.waits; same = k.same }))
        k
  step-Idle decode (reads bs) s k =
      if_both (Idle written) s.reading (on_read decode bs s) s (read-Idle decode bs s k) k
  step-Idle decode times_out s k =
      if_both (Idle written) s.reading (on_closed timeout s) s (on_closed-Idle timeout s k) k
  step-Idle decode shuts_down s k = on_closed-Idle activity s k
  step-Idle decode starts s k = record { quiet = k.quiet; waits = k.waits; same = k.same }

  run-Idle :
      (decode : Bytes → List Bytes) (es : List Event) (s : TSock)
      → Idle written s
      → Idle written (run decode es s)
  unfolding run
  run-Idle decode [] s k = k
  run-Idle decode (e ∷ es) s k = run-Idle decode es (step decode e s) (step-Idle decode e s k)

fails-Idle : (s : TSock) → Kept s → s.writing ≡ true → Idle s.written (on_write false s)
unfolding on_write
fails-Idle s k w =
    on_closed-Idle s.written normal (record s { writing = false })
      (record { quiet = refl; waits = k.busy w; same = refl })

-- A write that fails, at any point of a history, is the last one: whatever is sent and however often the socket is
-- connected again, it never takes a message any more.
pub run-stuck :
    (decode : Bytes → List Bytes) (before after : List Event)
    → let s = run decode before new_sock in
      s.writing ≡ true → (run decode after (step decode (writes false) s)).written ≡ s.written
unfolding step
run-stuck decode before after w =
    let s = run decode before new_sock in
    let k : Kept s = run-in_order decode before new_sock new_sock-Kept in
    let idle : Idle s.written (step decode (writes false) s) =
      subst (λ b. Idle s.written (if b then on_write false s else s)) (sym w) (fails-Idle s k w) in
    (run-Idle s.written decode after (step decode (writes false) s) idle).same
