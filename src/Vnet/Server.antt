-- ===== src/Vnet/Server.antt =====
-- TcpServer of network/vnetwork/VNetwork.cpp: the sessions of a server and its map of them, on the one
-- thread of the io_service. `session_map` has the keys of the unordered map, in no order that
-- counts; `sessions` has every session that was accepted, the newest first. An index is the bit pattern
-- of an int64_t.
pub mod Members
mod Tests
use zylib.Prelude.{ℕ, suc, ◌%◌, ◌^◌, List, [], ◌∷◌, ltb, ◌==◌, if◌then◌else◌}
use zylib.Vnet.Session.{
  call, on_accepted, Session, Call, received, on_closed, session_leave, new_session, start, Input,
  step,
}
use zylib.Vnet.Session.Ending.{leaves}

pub record Server : Type 0 where
  pub index_generator : ℕ
  pub sessions : List Session
  pub session_map : List ℕ

unfoldable pub new_server : Server
new_server = record { index_generator = 0; sessions = []; session_map = [] }

-- SessionLeave
unfoldable pub erase_index : ℕ → List ℕ → List ℕ
erase_index idx [] = []
erase_index idx (j ∷ indices) =
    let rest = erase_index idx indices in if j == idx then rest else j ∷ rest

-- SessionJoin: `session_map_[index] = session`.
unfoldable pub session_join : ℕ → List ℕ → List ℕ
session_join idx indices = idx ∷ erase_index idx indices

-- NextIndex
unfoldable pub next_index : Server → ℕ
next_index v = suc v.index_generator % 2 ^ 64

-- The handler of DoAccept without an error.
unfoldable pub accept : Server → Server
accept v =
    let idx = next_index v in
    record {
      index_generator = idx;
      sessions = call on_accepted (start (new_session idx)) ∷ v.sessions;
      session_map = session_join idx v.session_map;
    }

-- The calls of SessionLeave that a step of a session makes.
unfoldable pub leave_after : Session → Session → List ℕ → List ℕ
leave_after s s' indices =
    if ltb (leaves s.calls) (leaves s'.calls) then erase_index s'.index indices else indices

-- A step of the session with an index.
unfoldable pub step_at : ℕ → Input → List Session → List ℕ → List Session × List ℕ
step_at idx i [] indices = ([], indices)
step_at idx i (s ∷ sessions) indices =
    let (sessions', indices') = step_at idx i sessions indices in
    if s.index == idx
    then (step s i ∷ sessions, leave_after s (step s i) indices)
    else (s ∷ sessions', indices')

pub data Event : Type 0 where
  accepts : Event
  at : ℕ → Input → Event

unfoldable pub serve_event : Server → Event → Server
serve_event v accepts = accept v
serve_event v (at idx i) =
    let (sessions, indices) = step_at idx i v.sessions v.session_map in
    record v { sessions = sessions; session_map = indices }

unfoldable pub run_server : Server → List Event → Server
run_server v [] = v
run_server v (e ∷ es) = run_server (serve_event v e) es
