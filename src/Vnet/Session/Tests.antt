-- ===== src/Vnet/Session/Tests.antt =====
-- ServerSession of network/vnetwork/VNetwork.cpp at concrete inputs.
use zylib.Prelude.{◌≡◌, true, false, ◌||◌, none, List, [], ◌∷◌, is_nil}
use zylib.Vnet.Session.{Session, new_session, start, Input, sends, read, wrote, closes}
use zylib.Vnet.Session.Sending.{run}
use zylib.Vnet.Session.Ending.{ends, leaves, once, run-ends}

abbrev begun : Session
begun = start (new_session 1)

-- Two messages, of which one is written, and then an error.
abbrev inputs : List Input
inputs = sends (8 ∷ []) ∷ sends (9 ∷ []) ∷ wrote true ∷ read none ∷ wrote false ∷ closes ∷ []

run-ends_example :
    let t = run (start (new_session 1)) inputs in
    (ends t.calls ≡ once t.closed)
    × (leaves t.calls ≡ once t.closed)
    × ((t.closed || t.writing || is_nil t.write_msgs) ≡ true)
run-ends_example = run-ends inputs 1
