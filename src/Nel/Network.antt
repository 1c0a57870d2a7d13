-- ===== src/Nel/Network.antt =====
-- nel/UnifiedNetwork.cpp and nel/CallbackManager.cpp: the connections of a process to its services, by
-- their ids. A name, an address and a callback is a number, 0 the empty name. Whether the server can listen, whether
-- the naming service answers and what NetClient::connect returns for an address are arguments. The clients
-- that addService makes have new sockets.
pub mod Adding
pub mod Keeping
pub mod Callbacks
mod Tests
use zylib.Prelude.{
  ℕ, suc, Bool, true, false, not, ◌&&◌, ◌||◌, Option, none, some, List, [], ◌∷◌, ◌==◌,
  if◌then◌else◌,
}
use zylib.Nel.Connection.{
  Connection, new_connection, Call, service_connect, service_disconnect, received_msg, Endpoint,
  update, add_client_endpoint, has_service_addr, find_addr, ◌>>=◌,
}

-- m_service_name with the rest of a UnifiedConnection, under its id.
pub record Service : Type 0 where
  pub service_name : ℕ
  pub conn : Connection

abbrev pub Services : Type 0
Services = List (ℕ × Service)

pub record UnifiedNetwork : Type 0 where
  pub connections : Services
  pub self_service_name : ℕ
  pub self_conn : Option ℕ
  pub initialised : Bool
  pub next_sock : ℕ

unfoldable pub unified_network : UnifiedNetwork
unified_network = record {
  connections = [];
  self_service_name = 0;
  self_conn = none;
  initialised = false;
  next_sock = 0;
}

-- findConnection, by the id and by the name.
unfoldable pub find_connection : ℕ → Services → Option Service
find_connection id [] = none
find_connection id ((key, s) ∷ services) = if key == id then some s else find_connection id services

unfoldable pub find_by_name : ℕ → Services → Option Service
find_by_name name [] = none
find_by_name name ((_, s) ∷ services) =
    if s.service_name == name then some s else find_by_name name services

-- `m_connections[id] = conn`, and what changes a connection that is in the map.
unfoldable pub put_connection : ℕ → Service → Services → Services
put_connection id s [] = (id, s) ∷ []
put_connection id s ((key, old) ∷ services) =
    if key == id then (key, s) ∷ services else (key, old) ∷ put_connection id s services

-- The naming service's own name.
abbrev pub naming_service_name : ℕ
naming_service_name = 1

-- init, with whether a decoder is set.
unfoldable pub init : Bool → Bool → Bool → ℕ → ℕ → Bool → UnifiedNetwork → UnifiedNetwork × Bool
init has_decoder listens naming_answers id name use_ns n =
    if n.initialised || not has_decoder
    then (n, false)
    else let named = record n { self_service_name = name } in
      if not listens
      then (named, false)
      else let own : Service = record { service_name = name; conn = new_connection false } in
        let added = record named {
          connections = put_connection id own n.connections;
          self_conn = some id;
        } in
        if use_ns && not (name == naming_service_name) && not naming_answers
        then (added, false)
        else (record added { initialised = true }, true)

-- The service that addService finds or makes.
unfoldable pub find_or_new : ℕ → ℕ → Bool → Services → Service
find_or_new id name auto_retry services = elim (find_connection id services) [
  | none ↦ record { service_name = name; conn = new_connection auto_retry }
  | some s ↦ s
]

module _ (connects : ℕ → Bool) where
  -- The loop of addService, over a connection and the number of the next socket.
  unfoldable pub add_addresses : List ℕ → Connection → ℕ → Connection × ℕ
  add_addresses [] c next = (c, next)
  add_addresses (addr ∷ addrs) c next =
      if has_service_addr addr c.client_addrs
      then add_addresses addrs c next
      else if connects addr
      then add_addresses addrs (add_client_endpoint next addr c) (suc next)
      else add_addresses addrs c (suc next)

  unfoldable pub add_service : ℕ → ℕ → List ℕ → Bool → UnifiedNetwork → UnifiedNetwork
  add_service id name addrs auto_retry n =
      let s = find_or_new id name auto_retry n.connections in
      let (conn, next) = add_addresses addrs s.conn n.next_sock in
      record n {
        connections = put_connection id (record s { conn = conn }) n.connections;
        next_sock = next;
      }

-- send: the socket that gets the message, if there is one.
unfoldable pub send : ℕ → ℕ → UnifiedNetwork → Option ℕ
send id addr n = do
  s ← find_connection id n.connections
  ep ← find_addr addr s.conn.endpoints
  some ep.sock

-- update, connection after connection.
unfoldable pub update_all : (ℕ → Bool) → (ℕ → Bool) → Services → Option Services
update_all alive again [] = some []
update_all alive again ((id, s) ∷ services) = do
  conn ← update alive again s.conn
  rest ← update_all alive again services
  some ((id, record s { conn = conn }) ∷ rest)

unfoldable pub update_network : (ℕ → Bool) → (ℕ → Bool) → UnifiedNetwork → Option UnifiedNetwork
update_network alive again n = do
  services ← update_all alive again n.connections
  some (record n { connections = services })

-- CallbackManager: the callbacks by message id, and by the name of a service.
pub record CallbackManager : Type 0 where
  pub msg_cbs : List (ℕ × ℕ)
  pub up_cbs : List (ℕ × ℕ)
  pub down_cbs : List (ℕ × ℕ)

unfoldable pub find_callback : ℕ → List (ℕ × ℕ) → Option ℕ
find_callback key [] = none
find_callback key ((k, cb) ∷ cbs) = if k == key then some cb else find_callback key cbs

-- `insert`, which replaces nothing, and `erase`.
unfoldable pub insert_callback : ℕ → ℕ → List (ℕ × ℕ) → List (ℕ × ℕ) × Bool
insert_callback key cb cbs = elim (find_callback key cbs) [
  | none ↦ ((key, cb) ∷ cbs, true)
  | some old ↦ (cbs, false)
]

unfoldable pub erase_callback : ℕ → List (ℕ × ℕ) → List (ℕ × ℕ)
erase_callback key [] = []
erase_callback key ((k, cb) ∷ cbs) =
    let rest = erase_callback key cbs in if k == key then rest else (k, cb) ∷ rest

unfoldable pub set_service_connect_callback : ℕ → ℕ → CallbackManager → CallbackManager × Bool
set_service_connect_callback name cb m =
    let (cbs, added) = insert_callback name cb m.up_cbs in (record m { up_cbs = cbs }, added)

unfoldable pub set_service_disconnect_callback : ℕ → ℕ → CallbackManager → CallbackManager × Bool
set_service_disconnect_callback name cb m =
    let (cbs, added) = insert_callback name cb m.down_cbs in (record m { down_cbs = cbs }, added)

unfoldable pub remove_service_connect_callback : ℕ → CallbackManager → CallbackManager
remove_service_connect_callback name m = record m { up_cbs = erase_callback name m.up_cbs }

unfoldable pub remove_service_disconnect_callback : ℕ → CallbackManager → CallbackManager
remove_service_disconnect_callback name m = record m { down_cbs = erase_callback name m.down_cbs }

-- createMsgContext leaves the name of a context empty.
abbrev pub context_name : ℕ
context_name = 0

-- The callback that a call of a connection runs; `msg_id` gives the id of a message.
unfoldable pub deliver : (ℕ → ℕ) → CallbackManager → Call → Option ℕ
deliver msg_id m service_connect = find_callback context_name m.up_cbs
deliver msg_id m service_disconnect = find_callback context_name m.down_cbs
deliver msg_id m (received_msg msg) = find_callback (msg_id msg) m.msg_cbs
