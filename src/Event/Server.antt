-- ===== src/Event/Server.antt =====
-- eventserver/EventServer.cpp with EventSessionManager.cpp and EventTask.cpp: the sessions, and the
-- tasks that other threads and the sessions themselves submit to the loop thread. The map of sessions
-- is a list; a key stands in it once. An input is what the loop thread runs next, or what a user's
-- thread submits; `told` has what the handlers were told, oldest first. The loop of executeTask is one
-- input for each task. `accept` gives the descriptor as an argument.
pub mod Keeping
pub mod Leaks
mod Tests
use zylib.Prelude.{
  ℕ, ◌+◌, ◌-◌, ◌^◌, Bool, true, false, Option, none, some, List, [], ◌∷◌, ◌++◌, ◌==◌, if◌then◌else◌,
}
use zylib.Event.Session.{
  started, Session, SessionId, Note, asks_shutdown, same_id, new_session, append_response, add_read,
  on_write, async_write, release, on_read, Decode, Reading,
}

-- EventSendTask and EventShutdownSessionTask.
pub data Task : Type 0 where
  send_task : SessionId → List ℕ → Task
  shutdown_task : SessionId → Task

pub record Server : Type 0 where
  pub seq_id : ℕ
  pub sessions : List Session
  pub tasks : List Task
  pub told : List (SessionId × Note)

unfoldable pub new_server : Server
new_server = record { seq_id = 0; sessions = []; tasks = []; told = [] }

abbrev pub is_some : Option Session → Bool
is_some none = false
is_some (some _) = true

-- findSession
unfoldable pub find_session : SessionId → List Session → Option Session
find_session sid [] = none
find_session sid (s ∷ sessions) = if same_id s.sid sid then some s else find_session sid sessions

-- eraseSession
unfoldable pub erase_session : SessionId → List Session → List Session
erase_session sid [] = []
erase_session sid (s ∷ sessions) =
    let rest = erase_session sid sessions in if same_id s.sid sid then rest else s ∷ rest

-- The session that a pointer to it has changed.
unfoldable pub put_session : Session → List Session → List Session
put_session t [] = []
put_session t (s ∷ sessions) = (if same_id s.sid t.sid then t else s) ∷ put_session t sessions

-- submitTask
unfoldable pub submit_task : Server → Task → Server
submit_task v t = record v { tasks = v.tasks ++ t ∷ [] }

-- The calls that a session has made, one after another.
unfoldable pub notify : SessionId → List Note → Server → Server
unfolding submit_task
notify sid [] v = v
notify sid (asks_shutdown ∷ notes) v = notify sid notes (submit_task v (shutdown_task sid))
notify sid (note ∷ notes) v = notify sid notes (record v { told = v.told ++ (sid, note) ∷ [] })

-- A session after one of its functions, and its calls.
unfoldable pub put_notes : Server → Session × List Note → Server
put_notes v (s, notes) = notify s.sid notes (record v { sessions = put_session s v.sessions })

-- `insert` keeps an entry that is there.
unfoldable pub insert_session : Session → List Session → List Session
insert_session s sessions = elim (find_session s.sid sessions) [
  | none ↦ s ∷ sessions
  | some _ ↦ sessions
]

-- createSession: INT32_MAX is followed by 1.
unfoldable pub create_session : Server → ℕ → Server × Session
create_session v fd =
    let seq = (if v.seq_id == 2 ^ 31 - 1 then 0 else v.seq_id) + 1 in
    let s = new_session (record { fd = fd; seq_id = seq }) in
    (record v { seq_id = seq; sessions = insert_session s v.sessions }, s)

-- onAccept of a connection. A session that is in no map is not followed.
unfoldable pub on_accept : Server → ℕ → Server
unfolding create_session
on_accept v fd =
    let (v', s) = create_session v fd in
    let told = v'.told ++ (s.sid, started) ∷ [] in
    if is_some (find_session s.sid v.sessions)
    then record v' { told = told }
    else record v' { sessions = put_session (add_read s) v'.sessions; told = told }

-- sendResponse and shutdownSession
unfoldable pub send_response : Server → SessionId → List ℕ → Server
unfolding submit_task
send_response v sid bytes = submit_task v (send_task sid bytes)

unfoldable pub shutdown_session : Server → SessionId → Server
unfolding submit_task
shutdown_session v sid = submit_task v (shutdown_task sid)

-- EventSendTask::run, with what the socket takes.
unfoldable pub run_send : Server → SessionId → List ℕ → List ℕ → Bool → Server
run_send v sid bytes chunks again = elim (find_session sid v.sessions) [
  | none ↦ v
  | some s ↦
      if s.is_shutdown then v else put_notes v (async_write chunks again (append_response s bytes))
]

-- EventShutdownSessionTask::run
unfoldable pub run_shutdown : Server → SessionId → Server
run_shutdown v sid = elim (find_session sid v.sessions) [
  | none ↦ v
  | some s ↦
      let (s', free) = release s in
      if free
      then record v { sessions = erase_session sid v.sessions }
      else record v { sessions = put_session s' v.sessions }
]

-- One round of executeTask.
unfoldable pub execute_on : Server → List Task → List ℕ → Bool → Server
execute_on v [] chunks again = v
execute_on v (send_task sid bytes ∷ rest) chunks again =
    run_send (record v { tasks = rest }) sid bytes chunks again
execute_on v (shutdown_task sid ∷ rest) chunks again = run_shutdown (record v { tasks = rest }) sid

unfoldable pub execute_task : Server → List ℕ → Bool → Server
unfolding execute_on
execute_task v chunks again = execute_on v v.tasks chunks again

-- The read event and the write event of a session: libevent calls what is armed, and takes it off.
unfoldable pub read_event : Decode → Server → SessionId → Reading → Server
read_event decode v sid outcome = elim (find_session sid v.sessions) [
  | none ↦ v
  | some s ↦
      if s.read_armed
      then put_notes v (on_read decode outcome (record s { read_armed = false }))
      else v
]

unfoldable pub write_event : Server → SessionId → List ℕ → Bool → Server
write_event v sid chunks again = elim (find_session sid v.sessions) [
  | none ↦ v
  | some s ↦
      if s.write_armed
      then put_notes v (on_write chunks again (record s { write_armed = false }))
      else v
]

pub data Input : Type 0 where
  accepts : ℕ → Input
  readable : SessionId → Reading → Input
  writable : SessionId → List ℕ → Bool → Input
  executes : List ℕ → Bool → Input
  sends : SessionId → List ℕ → Input
  shuts : SessionId → Input

unfoldable pub step : Decode → Server → Input → Server
unfolding on_accept read_event write_event execute_task send_response shutdown_session
step decode v (accepts fd) = on_accept v fd
step decode v (readable sid outcome) = read_event decode v sid outcome
step decode v (writable sid chunks again) = write_event v sid chunks again
step decode v (executes chunks again) = execute_task v chunks again
step decode v (sends sid bytes) = send_response v sid bytes
step decode v (shuts sid) = shutdown_session v sid

unfoldable pub run : Decode → Server → List Input → Server
unfolding step
run decode v [] = v
run decode v (i ∷ is) = run decode (step decode v i) is
