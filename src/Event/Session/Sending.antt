-- ===== src/Event/Session/Sending.antt =====
-- eventserver/EventSession.cpp: what a session waits for after a read or a write.
use zylib.Prelude.{
  ℕ, zero, suc, ◌≡◌, refl, inl, inr, Bool, true, false, not, ◌&&◌, ◌||◌, Option, none, some, List,
  [], ◌∷◌, ◌++◌, arith, if◌then◌else◌, Bool-cases, is_nil, take, drop,
}
use zylib.Event.Session.{
  started, Session, Note, handled, closed, timed_out, asks_shutdown, shutdown, blocked, write_loop,
  after_write, on_write, async_write, on_read, decoded, close_down, Decode, Reading, got, ended,
  late,
}

-- EventServer::shutdownSession is among the calls.
abbrev pub asks : List Note → Bool
asks [] = false
asks (asks_shutdown ∷ notes) = true
asks (handled msgs ∷ notes) = asks notes
asks (started ∷ notes) = asks notes
asks (closed ∷ notes) = asks notes
asks (timed_out ∷ notes) = asks notes

-- A session waits exactly while its write event is armed, and has nothing to send unless it waits or is
-- shut down.
pub record Sound (s : Session) : Type 0 where
  pub waits : s.wait_written ≡ s.write_armed
  pub pending : (is_nil s.send_buffer || s.is_shutdown || s.write_armed) ≡ true

-- The session afterwards is sound and the same one, and if it is shut down, then it waits or it has asked to
-- be released, or it did not wait and was shut down before.
pub record Served (before : Bool) (s : Session) (r : Session × List Note) : Type 0 where
  pub sound : Sound r.0
  pub same : r.0.sid ≡ s.sid
  pub released : (not r.0.is_shutdown || r.0.write_armed || asks r.1 || before) ≡ true

pub asks-snoc : (notes : List Note) → asks (notes ++ asks_shutdown ∷ []) ≡ true
asks-snoc [] = refl
asks-snoc (asks_shutdown ∷ notes) = refl
asks-snoc (handled msgs ∷ notes) = asks-snoc notes
asks-snoc (started ∷ notes) = asks-snoc notes
asks-snoc (closed ∷ notes) = asks-snoc notes
asks-snoc (timed_out ∷ notes) = asks-snoc notes

-- What the loop leaves.
record Written (s : Session) (r : Session × List Note) : Type 0 where
  sound : Sound r.0
  same : r.0.sid ≡ s.sid

blocked-Written :
    (again : Bool) (s : Session)
    → s.wait_written ≡ false
    → s.write_armed ≡ false
    → Written s (blocked again s)
unfolding blocked
blocked-Written true s w a = ground arith
blocked-Written false s w a = ground arith

write_loop-Written :
    (chunks : List ℕ) (again : Bool) (s : Session)
    → s.wait_written ≡ false
    → s.write_armed ≡ false
    → Written s (write_loop chunks again s)
unfolding write_loop
write_loop-Written [] again s w a = ground (arith, blocked-Written again s)
write_loop-Written (n ∷ chunks) again s w a = ground (
  arith,
  blocked-Written again s,
  write_loop-Written chunks again
      (record s { send_buffer = drop n s.send_buffer; wire = s.wire ++ take n s.send_buffer }) w a,
)

after_write-Served :
    (s : Session) (r : Session × List Note) → Written s r → Served false s (after_write r.0 r.1)
unfolding after_write
after_write-Served s (t, notes) w = ground (arith, asks-snoc notes)

pub on_write-Served :
    (chunks : List ℕ) (again : Bool) (s : Session)
    → s.write_armed ≡ false
    → Served false s (on_write chunks again s)
unfolding on_write
on_write-Served chunks again s a =
    let t : Session = record s { wait_written = false } in
    let r =
      after_write-Served t (write_loop chunks again t) (write_loop-Written chunks again t refl a) in
    record { sound = r.sound; same = r.same; released = r.released }

pub async_write-Served :
    (chunks : List ℕ) (again : Bool) (s : Session)
    → s.wait_written ≡ s.write_armed
    → s.is_shutdown ≡ false
    → Served false s (async_write chunks again s)
unfolding async_write
async_write-Served chunks again s w d =
    elim s.wait_written
        as (λ b.
          s.wait_written ≡ b → Served false s (if b then (s, []) else on_write chunks again s)) [
            | true ↦ λ e. ground arith
            | false ↦ λ e. on_write-Served chunks again s (ground arith)
          ]
      refl

close_down-Served :
    (s : Session) (note : Note)
    → Sound s
    → s.is_shutdown ≡ false
    → asks (note ∷ []) ≡ false
    → Served false s (close_down s note)
unfolding close_down shutdown
close_down-Served s (handled msgs) k d n = ground arith
close_down-Served s started k d n = ground arith
close_down-Served s closed k d n = ground arith
close_down-Served s timed_out k d n = ground arith
close_down-Served s asks_shutdown k d n = cc

decoded-Served :
    (s : Session) (r : List ℕ × List ℕ × Option ℕ)
    → Sound s
    → s.is_shutdown ≡ false
    → Served false s (decoded s r)
unfolding decoded
decoded-Served s (queue, buffer, none) k d =
    let c =
      close_down-Served (record s { msg_queue = queue; received_buffer = buffer }) closed
        (record { waits = k.waits; pending = k.pending }) d refl in
    record { sound = c.sound; same = c.same; released = c.released }
decoded-Served s (queue, buffer, some zero) k d = ground arith
decoded-Served s (queue, buffer, some (suc n)) k d = ground arith

-- A session that was shut down is left alone by a read.
pub on_read-Served :
    (decode : Decode) (outcome : Reading) (s : Session)
    → Sound s
    → Served (s.is_shutdown && not s.write_armed) s (on_read decode outcome s)
unfolding on_read
on_read-Served decode outcome s k = elim (Bool-cases s.is_shutdown) [
  | inl e ↦ shut outcome e
  | inr e ↦ open_one outcome e
]
  where
    shut :
        (o : Reading)
        → s.is_shutdown ≡ true
        → Served (s.is_shutdown && not s.write_armed) s (on_read decode o s)
    shut (got bytes) e = ground arith
    shut ended e = ground arith
    shut late e = ground arith

    open_one :
        (o : Reading)
        → s.is_shutdown ≡ false
        → Served (s.is_shutdown && not s.write_armed) s (on_read decode o s)
    open_one (got bytes) e = ground (
      arith,
      close_down-Served s closed k e refl,
      decoded-Served s (decode s.msg_queue (s.received_buffer ++ bytes)) k e,
    )
    open_one ended e = ground (arith, close_down-Served s closed k e refl)
    open_one late e = ground (arith, close_down-Served s timed_out k e refl)
