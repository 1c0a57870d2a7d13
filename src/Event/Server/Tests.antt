-- ===== src/Event/Server/Tests.antt =====
-- eventserver/EventServer.cpp: a server at concrete inputs.
use zylib.Prelude.{◌≡◌, refl, true, some, List, [], ◌∷◌, ◌++◌}
use zylib.Event.Session.{
  SessionId, Decode, got, new_session, add_read, on_read, decoded, async_write, append_response,
  on_write, write_loop, blocked, release, add_write, after_write, close_down, shutdown, take_msgs,
}
use zylib.Event.Server.{
  shutdown_task, Input, accepts, readable, writable, executes, sends, shuts, run, new_server,
  find_session, put_session, insert_session, put_notes, notify, run_send, run_shutdown,
  create_session, erase_session, execute_on, execute_task, on_accept, read_event, send_response,
  shutdown_session, step, submit_task, write_event,
}

abbrev sid : SessionId
sid = record { fd = 7; seq_id = 1 }

abbrev no_decode : Decode
no_decode queue buffer = (queue, buffer, some 0)

-- A response that the socket takes in part, and a shutdown of the session in the meantime.
abbrev inputs : List Input
inputs =
    accepts 7
    ∷ readable sid (got (1 ∷ []))
    ∷ sends sid (3 ∷ 4 ∷ 5 ∷ [])
    ∷ shuts sid
    ∷ executes (2 ∷ []) true
    ∷ executes [] true
    ∷ []

-- The rest is written, and then the session is released.
run_ends :
    let v = run no_decode new_server (inputs ++ writable sid (1 ∷ []) true ∷ []) in
    (v.tasks ≡ shutdown_task sid ∷ []) × ((run no_decode v (executes [] true ∷ [])).sessions ≡ [])
unfolding run new_server find_session put_session insert_session put_notes notify run_send
    run_shutdown create_session erase_session execute_on execute_task on_accept read_event
    send_response shutdown_session step submit_task write_event new_session add_read on_read decoded
    async_write append_response on_write write_loop blocked release add_write after_write close_down
    shutdown take_msgs
run_ends = (refl, refl)
