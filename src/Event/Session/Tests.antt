-- ===== src/Event/Session/Tests.antt =====
-- eventserver/EventSession.cpp: a session at concrete inputs.
use zylib.Prelude.{◌≡◌, refl, true, false, some, [], ◌∷◌}
use zylib.Event.Session.{
  Session, SessionId, closed, asks_shutdown, append_response, on_write, async_write, on_read,
  write_loop, blocked, close_down, ended, Decode,
}

abbrev sid : SessionId
sid = record { fd = 7; seq_id = 1 }

abbrev waiting : Session
waiting = record {
  sid = sid;
  is_shutdown = true;
  wait_written = true;
  received_buffer = [];
  send_buffer = 3 ∷ 4 ∷ 5 ∷ [];
  msg_queue = [];
  read_armed = false;
  write_armed = true;
  wire = 1 ∷ 2 ∷ [];
}

abbrev idle : Session
idle = record waiting { is_shutdown = false; wait_written = false; write_armed = false }

-- The rest waits for the write event.
async_write_blocked : (async_write (2 ∷ []) true (append_response idle (6 ∷ []))).0 ≡ record idle {
  send_buffer = 5 ∷ 6 ∷ [];
  wait_written = true;
  write_armed = true;
  wire = 1 ∷ 2 ∷ 3 ∷ 4 ∷ [];
}
unfolding async_write append_response on_write write_loop blocked
async_write_blocked = refl

abbrev no_decode : Decode
no_decode msgs buffer = (msgs, buffer, some 0)

-- The peer ends, while a write waits, and then the write fails: the handler is told twice.
closed_twice :
    let r = on_read no_decode ended (record idle { wait_written = true; write_armed = true }) in
    (r.1 ≡ closed ∷ asks_shutdown ∷ []) × ((on_write [] false r.0).1 ≡ closed ∷ asks_shutdown ∷ [])
unfolding on_read on_write close_down write_loop blocked
closed_twice = (refl, refl)
