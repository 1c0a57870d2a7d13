-- ===== src/Nel/NetClient.antt =====
-- nel/NetClient.cpp: a client of one address, with its TSock. address::from_string of boost is a static
-- function, which throws for a text that is no address; what it gives for any other is dropped, and the
-- address that is used stays the unspecified one. Whether it throws is an argument. `asked` has what
-- async_connect was asked for, oldest first.
pub mod Addresses
mod Tests
use zylib.Prelude.{ℕ, Bool, true, false, List, [], ◌∷◌, ◌++◌, ◌==◌, if◌then◌else◌}
use zylib.Nel.TSock.{TSock, start, on_closed, activity, new_sock}

-- A text and a port.
pub record InetAddress : Type 0 where
  pub ip : List ℕ
  pub port : ℕ

-- boost::asio::ip::address
pub data Address : Type 0 where
  unspecified : Address
  parsed : List ℕ → Address

-- STATE
abbrev pub connected : ℕ
connected = 0

abbrev pub is_connecting : ℕ
is_connecting = 1

abbrev pub disconnect : ℕ
disconnect = 2

pub record NetClient : Type 0 where
  pub m_state : ℕ
  pub inet_addr : InetAddress
  pub has_callback : Bool
  pub sock : TSock
  pub asked : List (Address × ℕ)
  pub waiting : Bool
  pub called_back : List Bool

-- The constructor leaves m_state as it finds it.
unfoldable pub net_client : ℕ → NetClient
net_client found = record {
  m_state = found;
  inet_addr = record { ip = []; port = 0 };
  has_callback = false;
  sock = new_sock;
  asked = [];
  waiting = false;
  called_back = [];
}

-- The handler of async_connect.
unfoldable pub on_connect : Bool → NetClient → NetClient
on_connect ok c =
    let c' =
      if ok
      then record c { sock = start c.sock; m_state = connected; waiting = false }
      else record c { m_state = disconnect; waiting = false } in
    if c.has_callback then record c' { called_back = c.called_back ++ ok ∷ [] } else c'

-- disconnect runs TSock::shutdown, whose handler is run here at once.
unfoldable pub disconnects : NetClient → NetClient
disconnects c = record c { sock = on_closed activity c.sock }

pub data Event : Type 0 where
  connects : InetAddress → Event
  reconnects : Event
  ends : Bool → Event
  leaves : Event

module _ (is_address : List ℕ → Bool) where
  unfoldable pub async_connect : InetAddress → NetClient → NetClient × Bool
  async_connect addr c =
      if is_address addr.ip
      then (
        record c {
          m_state = is_connecting;
          asked = c.asked ++ (unspecified, addr.port) ∷ [];
          waiting = true;
        },
        true,
      )
      else (c, false)

  unfoldable pub connect : InetAddress → NetClient → NetClient × Bool
  connect addr c =
      if c.m_state == disconnect
      then async_connect addr (record c { has_callback = true; inet_addr = addr })
      else (c, false)

  unfoldable pub reconnect : NetClient → NetClient × Bool
  reconnect c = if c.has_callback then async_connect c.inet_addr c else (c, false)

  unfoldable pub step : Event → NetClient → NetClient
  step (connects addr) c = (connect addr c).0
  step reconnects c = (reconnect c).0
  step (ends ok) c = if c.waiting then on_connect ok c else c
  step leaves c = disconnects c

  unfoldable pub run : List Event → NetClient → NetClient
  run [] c = c
  run (e ∷ es) c = run es (step e c)
