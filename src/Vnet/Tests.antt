-- ===== src/Vnet/Tests.antt =====
-- network/vnetwork/VNetwork.cpp: two sessions at concrete inputs.
use zylib.Prelude.{◌≡◌, refl, true, List, [], ◌∷◌, ◌++◌, map, arith}
use zylib.Vnet.Session.{
  Session, reads_header, received, new_session, start, Input, sends, wrote, do_read_header, step,
  async_send_bytes, async_send, do_write, written, written_on,
}
use zylib.Vnet.Session.Receiving.{serve, reads}
use zylib.Vnet.Session.Sending.{run, bodies_of}
use zylib.Vnet.Delivery.{serve-run}

abbrev inputs : List Input
inputs = sends (8 ∷ 9 ∷ []) ∷ wrote true ∷ sends [] ∷ sends (7 ∷ []) ∷ wrote true ∷ wrote true ∷ []

abbrev receiver : Session
receiver = start (new_session 2)

inputs_written : (run (start (new_session 1)) inputs).write_msgs ≡ []
unfolding run step async_send_bytes async_send do_write written written_on new_session
    do_read_header
inputs_written = refl

receiver_reads : receiver.reading ≡ reads_header
unfolding do_read_header
receiver_reads = refl

serve-run_example :
    let q = serve (reads (bodies_of inputs)) (run (start (new_session 1)) inputs).wire receiver in
    (q.0.calls ≡ receiver.calls ++ map received (bodies_of inputs))
    × (q.1 ≡ [])
    × (q.0.reading ≡ reads_header)
    × (q.0.closed ≡ receiver.closed)
serve-run_example =
    serve-run inputs 1 receiver (omega arith, (omega arith, (omega arith, _))) inputs_written
      receiver_reads
