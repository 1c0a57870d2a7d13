-- ===== src/Nel/TSock/Tests.antt =====
-- nel/TSock.cpp: histories at concrete inputs.
use zylib.Prelude.{ℕ, ◌≡◌, refl, ap, true, false, List, [], ◌∷◌, ◌++◌, map}
use zylib.Nel.TSock.{
  Bytes, received_msg, closed, new_sock, do_read, start, send_msg, do_write, run_send, run_posted,
  report, on_closed, written_on, on_write, tell_msgs, Event, sends, runs, writes, read_fails, reads,
  starts, on_read, step, run,
}
use zylib.Nel.TSock.Sending.{Kept, new_sock-Kept, run-in_order}
use zylib.Nel.TSock.Stuck.{run-stuck}
use zylib.Nel.TSock.Receiving.{Decoder, msgs_of, received, run-repeats}

-- Every byte is a message.
abbrev bytewise : Bytes → List Bytes
bytewise bs = map (λ (b : ℕ). b ∷ []) bs

map-append :
    (us vs : Bytes)
    → map (λ (b : ℕ). b ∷ []) (us ++ vs) ≡ map (λ (b : ℕ). b ∷ []) us ++ map (λ (b : ℕ). b ∷ []) vs
map-append [] vs = refl
map-append (u ∷ us) vs = ap (◌∷◌ (u ∷ [])) (map-append us vs)

abbrev bytewise_decoder : Decoder bytewise
bytewise_decoder = record { more = λ us vs. bytewise vs; on_more = map-append }

-- Two messages are sent, and the first is written.
abbrev busy : List Event
busy = starts ∷ (sends (1 ∷ []) ∷ (sends (2 ∷ []) ∷ (runs ∷ (runs ∷ (writes true ∷ [])))))

-- The connection ends and a new one is made.
abbrev again : List Event
again =
    read_fails ∷ (starts ∷ (sends (3 ∷ []) ∷ (runs ∷ (writes true ∷ (reads (7 ∷ (8 ∷ [])) ∷ [])))))

run-in_order_example : Kept (run bytewise (busy) new_sock)
run-in_order_example = run-in_order bytewise busy new_sock new_sock-Kept

run-stuck_example :
    let s = run bytewise busy new_sock in
    (run bytewise again (step bytewise (writes false) s)).written ≡ s.written
unfolding run step start do_read send_msg run_posted run_send do_write on_write written_on new_sock
run-stuck_example = run-stuck bytewise busy again refl

told_after :
    (run bytewise again (run bytewise busy new_sock)).told
    ≡ closed ∷ (received_msg (7 ∷ []) ∷ (received_msg (8 ∷ []) ∷ []))
unfolding run step start do_read send_msg run_posted run_send do_write on_write written_on on_closed
    report on_read tell_msgs new_sock
told_after = refl

-- One more byte after 7 and 8.
run-repeats_example :
    let s = run bytewise again new_sock in
    ((step bytewise (reads (9 ∷ [])) s).byte_buf ≡ received bytewise again new_sock ++ 9 ∷ [])
    × (msgs_of (step bytewise (reads (9 ∷ [])) s).told
        ≡ msgs_of s.told ++ (bytewise (received bytewise again new_sock) ++ bytewise (9 ∷ [])))
unfolding run step start do_read send_msg run_posted run_send do_write on_write written_on on_closed
    report on_read new_sock
run-repeats_example = run-repeats bytewise bytewise_decoder again 9 [] refl
