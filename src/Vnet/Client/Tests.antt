-- ===== src/Vnet/Client/Tests.antt =====
-- TcpClient of network/vnetwork/VNetwork.cpp at concrete inputs.
use zylib.Prelude.{refl, true, false, none, some, List, [], ◌∷◌}
use zylib.Vnet.Message.Framing.{head_of}
use zylib.Vnet.Session.{
  Session, new_session, start, Input, sends, read, wrote, closes, do_read_header, call,
}
use zylib.Vnet.Session.Sending
use zylib.Vnet.Client.{connected, run}
use zylib.Vnet.Client.Handlers.{Alike}
use zylib.Vnet.Client.Alike.{run-Alike}

abbrev client : Session
client = connected true (new_session 0)

abbrev peer : Session
peer = start (new_session 1)

peers_Alike : Alike client peer
unfolding connected zylib.Vnet.Client.do_read_header do_read_header new_session call
peers_Alike = record {
  calls = refl;
  closed = refl;
  reading = refl;
  msgs = refl;
  writing = refl;
  wire = refl;
  msg = λ r. cc;
}

abbrev inputs : List Input
inputs = read (some (head_of (8 ∷ 9 ∷ []))) ∷ sends (3 ∷ []) ∷ read none ∷ wrote false ∷ closes ∷ []

run-Alike_example : Alike (run client inputs) (Sending.run peer inputs)
run-Alike_example = run-Alike inputs client peer ((λ r. refl), _) peers_Alike
