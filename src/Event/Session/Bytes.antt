-- ===== src/Event/Session/Bytes.antt =====
-- eventserver/EventSession.cpp and EventMessageDecoder.cpp: the bytes that a session sends and the messages
-- that it hands over.
use zylib.Prelude.{
  ℕ, zero, suc, ◌-◌, ◌≡◌, refl, ap, ◌∙◌, Bool, true, false, not, ◌&&◌, ◌||◌, none, some, List, [],
  ◌∷◌, ◌++◌, map, append_assoc, arith, ◌==◌, length, take, drop, replicate, take-append-drop,
}
use zylib.Event.Session.{
  Session, Note, append_response, add_write, shutdown, blocked, write_loop, after_write, on_write,
  async_write, take_msgs,
}

-- What a session has sent and is to send, in order.
abbrev pub bytes : Session → List ℕ
bytes s = s.wire ++ s.send_buffer

blocked-bytes : (again : Bool) (s : Session) → bytes (blocked again s).0 ≡ bytes s
unfolding blocked add_write shutdown
blocked-bytes true s = refl
blocked-bytes false s = ground arith

write_loop-bytes :
    (chunks : List ℕ) (again : Bool) (s : Session) → bytes (write_loop chunks again s).0 ≡ bytes s
unfolding write_loop
write_loop-bytes [] again s = ground (arith, blocked-bytes again s)
write_loop-bytes (n ∷ chunks) again s =
    let t : Session = record s {
      send_buffer = drop n s.send_buffer;
      wire = s.wire ++ take n s.send_buffer;
    } in
    let moved : bytes t ≡ bytes s =
      append_assoc s.wire (take n s.send_buffer) (drop n s.send_buffer)
      ∙ ap (◌++◌ s.wire) (take-append-drop n s.send_buffer) in
    let ih = write_loop-bytes chunks again t ∙ moved in ground (arith, blocked-bytes again s, ih)

after_write-0 : (s : Session) (notes : List Note) → (after_write s notes).0 ≡ s
unfolding after_write
after_write-0 s notes = ground arith

-- A write event moves bytes from the buffer to the socket, in order and without loss.
pub on_write-bytes :
    (chunks : List ℕ) (again : Bool) (s : Session) → bytes (on_write chunks again s).0 ≡ bytes s
unfolding on_write
on_write-bytes chunks again s =
    let t : Session = record s { wait_written = false } in
    let r = write_loop chunks again t in
    ap bytes (after_write-0 r.0 r.1) ∙ write_loop-bytes chunks again t

-- A response goes behind everything that was to be sent before it, whatever the socket takes at once.
pub async_write-bytes :
    (chunks : List ℕ) (again : Bool) (s : Session) (resp : List ℕ)
    → bytes (async_write chunks again (append_response s resp)).0 ≡ bytes s ++ resp
unfolding async_write append_response
async_write-bytes chunks again s resp =
    let all = append_assoc s.wire s.send_buffer resp in
    ground (arith, on_write-bytes chunks again (append_response s resp), all)

-- The socket takes some bytes at each call, and all of them in the end.
abbrev pub drains : List ℕ → ℕ → Bool
drains [] left = left == 0
drains (n ∷ chunks) left = left == 0 || not (n == 0) && drains chunks (left - n)

take_msgs_nil : (n : ℕ) → take_msgs n [] ≡ (replicate n none, [])
unfolding take_msgs
take_msgs_nil zero = refl
take_msgs_nil (suc n) = ap (λ r. (none ∷ r.0, r.1)) (take_msgs_nil n)

-- `take` gives the messages from the front of the queue in order, and behind the last of them null
-- pointers; what is left is what it did not give.
pub take_msgs-take :
    (n : ℕ) (queue : List ℕ)
    → take_msgs n queue
      ≡ (map some (take n queue) ++ replicate (n - length queue) none, drop n queue)
unfolding take_msgs
take_msgs-take zero [] = ground arith
take_msgs-take zero (m ∷ queue) = ground arith
take_msgs-take (suc n) [] =
    let all : suc n - 0 ≡ suc n = omega arith in rw all (take_msgs_nil (suc n))
take_msgs-take (suc n) (m ∷ queue) =
    let less : suc n - suc (length queue) ≡ n - length queue = omega arith in
    rw less (ap (λ r. (some m ∷ r.0, r.1)) (take_msgs-take n queue))
