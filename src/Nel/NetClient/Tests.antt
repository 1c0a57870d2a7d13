-- ===== src/Nel/NetClient/Tests.antt =====
-- nel/NetClient.cpp: a client that is told to connect twice.
use zylib.Prelude.{◌≡◌, refl, true, false, List, [], ◌∷◌}
use zylib.Nel.NetClient.{
  InetAddress, unspecified, net_client, disconnect, Event, connects, reconnects, ends, on_connect,
  async_connect, connect, reconnect, step, run,
}
use zylib.Nel.TSock.{new_sock}

abbrev local : InetAddress
local = record { ip = 49 ∷ []; port = 8080 }

abbrev twice : List Event
twice = connects local ∷ (ends false ∷ (reconnects ∷ []))

asked_twice :
    (run (λ ip. true) twice (net_client disconnect)).asked
    ≡ (unspecified, 8080) ∷ ((unspecified, 8080) ∷ [])
unfolding run step connect reconnect async_connect on_connect net_client new_sock
asked_twice = refl
