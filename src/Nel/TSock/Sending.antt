-- ===== src/Nel/TSock/Sending.antt =====
-- nel/TSock.cpp: what a socket writes, over all the connections that are made with it.
use zylib.Prelude.{
  ◌≡◌, refl, sym, ap, ◌∙◌, ◌≢◌, Bool, true, false, List, [], ◌∷◌, ◌++◌, append_assoc, if_both,
  is_nil, append-ne-nil,
}
use zylib.Nel.TSock.{
  Bytes, CloseType, normal, timeout, activity, TSock, new_sock, do_read, start, send_msg, do_write,
  run_send, run_posted, report, on_closed, written_on, on_write, Event, sends, runs, writes,
  read_fails, reads, times_out, shuts_down, starts, on_read, step, run,
}

-- Each message sent is written, waits in the buffer or is still posted, and they are in this order. A write is outstanding
-- only where a message waits.
pub record Kept (s : TSock) : Type 0 where
  pub in_order : s.written ++ (s.write_buffer ++ s.posted) ≡ s.sent
  pub busy : s.writing ≡ true → s.write_buffer ≢ []

report-Kept : (type : CloseType) (s : TSock) → Kept s → Kept (report type s)
unfolding report
report-Kept normal s k = record { in_order = k.in_order; busy = k.busy }
report-Kept timeout s k = record { in_order = k.in_order; busy = k.busy }
report-Kept activity s k = record { in_order = k.in_order; busy = k.busy }

on_closed-Kept : (type : CloseType) (s : TSock) → Kept s → Kept (on_closed type s)
unfolding on_closed
on_closed-Kept type s k = if_both Kept s.is_closed s (report type s) k (report-Kept type s k)

send-Kept : (msg : Bytes) (s : TSock) → Kept s → Kept (send_msg msg s).0
unfolding send_msg
send-Kept msg s k =
    if_both (λ (r : TSock × Bool). Kept r.0) s.is_closed (s, false)
      (record s { posted = s.posted ++ msg ∷ []; sent = s.sent ++ msg ∷ [] }, true) k
      (record { in_order = longer; busy = k.busy })
  where
    longer : s.written ++ (s.write_buffer ++ (s.posted ++ msg ∷ [])) ≡ s.sent ++ msg ∷ []
    longer =
        ap (◌++◌ s.written) (sym (append_assoc s.write_buffer s.posted (msg ∷ [])))
        ∙ (sym (append_assoc s.written (s.write_buffer ++ s.posted) (msg ∷ []))
            ∙ ap (λ u. u ++ msg ∷ []) k.in_order)

posted-Kept :
    (posted : List Bytes) (s : TSock) → s.posted ≡ posted → Kept s → Kept (run_posted posted s)
unfolding run_posted run_send do_write
posted-Kept [] s e k = k
posted-Kept (msg ∷ msgs) s e k =
    if_both Kept (is_nil s.write_buffer) _ _ (record { in_order = moved; busy = λ _. waits })
      (record { in_order = moved; busy = λ _. waits })
  where
    moved : s.written ++ ((s.write_buffer ++ msg ∷ []) ++ msgs) ≡ s.sent
    moved =
        ap (◌++◌ s.written) (append_assoc s.write_buffer (msg ∷ []) msgs)
        ∙ (ap (λ u. s.written ++ (s.write_buffer ++ u)) (sym e) ∙ k.in_order)

    waits : s.write_buffer ++ msg ∷ [] ≢ []
    waits = append-ne-nil s.write_buffer (msg ∷ []) (λ h. cc)

written-Kept :
    (buffer : List Bytes) (s : TSock)
    → s.write_buffer ≡ buffer
    → Kept s
    → Kept (written_on buffer s)
unfolding written_on do_write
written-Kept [] s e k = k
written-Kept (msg ∷ []) s e k = record { in_order = taken; busy = λ h. absurd cc }
  where
    taken : (s.written ++ msg ∷ []) ++ s.posted ≡ s.sent
    taken =
        append_assoc s.written (msg ∷ []) s.posted
        ∙ (ap (λ u. s.written ++ (u ++ s.posted)) (sym e) ∙ k.in_order)
written-Kept (msg ∷ (next ∷ msgs)) s e k = record { in_order = taken; busy = λ _ h. cc }
  where
    taken : (s.written ++ msg ∷ []) ++ ((next ∷ msgs) ++ s.posted) ≡ s.sent
    taken =
        append_assoc s.written (msg ∷ []) ((next ∷ msgs) ++ s.posted)
        ∙ (ap (λ u. s.written ++ (u ++ s.posted)) (sym e) ∙ k.in_order)

write-Kept : (ok : Bool) (s : TSock) → Kept s → Kept (on_write ok s)
unfolding on_write
write-Kept true s k = written-Kept s.write_buffer s refl k
write-Kept false s k =
    on_closed-Kept normal (record s { writing = false })
      (record { in_order = k.in_order; busy = λ h. absurd cc })

read-Kept :
    (decode : Bytes → List Bytes) (bs : Bytes) (s : TSock) → Kept s → Kept (on_read decode bs s)
unfolding on_read do_read
read-Kept decode [] s k = record { in_order = k.in_order; busy = k.busy }
read-Kept decode (b ∷ bs) s k = record { in_order = k.in_order; busy = k.busy }

step-Kept : (decode : Bytes → List Bytes) (e : Event) (s : TSock) → Kept s → Kept (step decode e s)
unfolding step do_read start
step-Kept decode (sends msg) s k = send-Kept msg s k
step-Kept decode runs s k = posted-Kept s.posted s refl k
step-Kept decode (writes ok) s k = if_both Kept s.writing (on_write ok s) s (write-Kept ok s k) k
step-Kept decode read_fails s k =
    if_both Kept s.reading (on_closed normal (record s { reading = false })) s
      (on_closed-Kept normal (record s { reading = false })
        (record { in_order = k.in_order; busy = k.busy }))
      k
step-Kept decode (reads bs) s k =
    if_both Kept s.reading (on_read decode bs s) s (read-Kept decode bs s k) k
step-Kept decode times_out s k =
    if_both Kept s.reading (on_closed timeout s) s (on_closed-Kept timeout s k) k
step-Kept decode shuts_down s k = on_closed-Kept activity s k
step-Kept decode starts s k = record { in_order = k.in_order; busy = k.busy }

-- In any history of a socket, connections that fail and new ones included, what it has written and then what waits in
-- its buffer and what is still posted are the messages for which sendMsg returned true, in order.
pub run-in_order :
    (decode : Bytes → List Bytes) (es : List Event) (s : TSock) → Kept s → Kept (run decode es s)
unfolding run
run-in_order decode [] s k = k
run-in_order decode (e ∷ es) s k = run-in_order decode es (step decode e s) (step-Kept decode e s k)

pub new_sock-Kept : Kept new_sock
unfolding new_sock
new_sock-Kept = record { in_order = refl; busy = λ h. absurd cc }
