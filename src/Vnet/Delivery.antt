-- ===== src/Vnet/Delivery.antt =====
-- Two sessions of network/vnetwork/VNetwork.cpp: what one writes, the other reads.
use zylib.Prelude.{
  ℕ, ◌^◌, ◌<◌, ◌≡◌, refl, sym, ap, ◌∙◌, List, [], ◌∷◌, ◌++◌, map, append-nil, arith, length, concat,
  All,
}
use zylib.Vnet.Message.{sent}
use zylib.Vnet.Message.Framing.{framed}
use zylib.Vnet.Session.{Session, reads_header, received, new_session, start, Input, do_read_header}
use zylib.Vnet.Session.Receiving.{serve, reads, Short, serve-frames}
use zylib.Vnet.Session.Sending.{run, stream, bodies_of, run-stream}

Short-Small : (bodies : List (List ℕ)) → All Short bodies → All (λ b. length b < 2 ^ 31) bodies
Short-Small [] h = h
Short-Small (b ∷ bodies) (h, hs) = (omega arith, Short-Small bodies hs)

stream-start : (index : ℕ) → stream (start (new_session index)) ≡ []
unfolding new_session do_read_header
stream-start index = refl

-- What a session has written when no message waits any more.
wire-run :
    (is : List Input) (index : ℕ)
    → All Short (bodies_of is)
    → (run (start (new_session index)) is).write_msgs ≡ []
    → (run (start (new_session index)) is).wire ≡ concat (map framed (bodies_of is))
wire-run is index h e =
    let s = start (new_session index) in
    let all = run-stream is s (Short-Small (bodies_of is) h) in
    let done = ap (λ ms. (run s is).wire ++ concat (map sent ms)) e in
    sym (append-nil (run s is).wire)
    ∙ sym done
    ∙ all
    ∙ ap (λ l. l ++ concat (map framed (bodies_of is))) (stream-start index)

-- A session is asked to send bodies of at most 512 bytes each, in any history, in whatever way its own reads
-- end, and in the end no message waits. Then a session that reads a head and gets the bytes that the first
-- has written hands over exactly these bodies, in order, uses up the bytes, and stays as open as it was.
pub serve-run :
    (is : List Input) (index : ℕ) (r : Session)
    → All Short (bodies_of is)
    → (run (start (new_session index)) is).write_msgs ≡ []
    → r.reading ≡ reads_header
    → let q = serve (reads (bodies_of is)) (run (start (new_session index)) is).wire r in
      (q.0.calls ≡ r.calls ++ map received (bodies_of is))
      × (q.1 ≡ [])
      × (q.0.reading ≡ reads_header)
      × (q.0.closed ≡ r.closed)
serve-run is index r h e head = rw (wire-run is index h e) (serve-frames (bodies_of is) r head h)
