-- ===== src/Vnet/Server/Tests.antt =====
-- TcpServer of network/vnetwork/VNetwork.cpp at concrete inputs.
use zylib.Prelude.{◌≡◌, none, List, [], ◌∷◌, arith, length}
use zylib.Vnet.Session.{read, sends, closes}
use zylib.Vnet.Server.{new_server, Event, accepts, at, run_server}
use zylib.Vnet.Server.Members.{has_index, has_open, open_count, run_server-open}

abbrev events : List Event
events = accepts ∷ accepts ∷ at 1 (read none) ∷ accepts ∷ at 2 (sends (8 ∷ [])) ∷ at 1 closes ∷ []

run_server-open_example :
    let v = run_server new_server events in
    (has_index 1 v.session_map ≡ has_open 1 v.sessions)
    × (length v.session_map ≡ open_count v.sessions)
run_server-open_example = run_server-open events 1 (omega arith)
