-- ===== src/Nel/Connection.antt =====
-- UnifiedConnection of nel/UnifiedConnection.cpp with TEndpoint of nel/TEndpoint.cpp: the sockets of one
-- service. A TSockPtr is a number, an address too. The io thread puts sockets into queues under a
-- mutex; `update` of the user's thread takes each queue in one section and works through it. `none` is
-- a failed NL_ASSERT. `told` has the calls of the callback manager, oldest first. Whether a socket is
-- alive still and whether `reconnect` succeeds are arguments.
pub mod Counts
pub mod Updates
pub mod Sockets
pub mod Races
mod Tests
use zylib.Prelude.{
  ℕ, Bool, true, false, ◌||◌, Option, none, some, List, [], ◌∷◌, ◌++◌, ◌==◌, if◌then◌else◌,
}

infixl 5 ◌>>=◌
abbrev pub ◌>>=◌ : {A B : Type 0} → Option A → (A → Option B) → Option B
◌>>=◌ o f = elim o [ none ↦ none | some a ↦ f a ]

-- m_remote_addr, whether m_client is set, and m_sock.
pub record Endpoint : Type 0 where
  pub remote_addr : ℕ
  pub client_side : Bool
  pub sock : ℕ

pub data Call : Type 0 where
  service_connect service_disconnect : Call
  received_msg : ℕ → Call

pub record Connection : Type 0 where
  pub auto_retry : Bool
  pub endpoints : List (ℕ × Endpoint)
  pub retry_endpoints : List (ℕ × Endpoint)
  pub closed_sock : List ℕ
  pub timeout_sock : List ℕ
  pub new_msg : List (ℕ × ℕ)
  pub server_new_sock : List ℕ
  pub client_connect_success : List ℕ
  pub client_connect_fail : List ℕ
  pub client_addrs : List ℕ
  pub told : List Call

unfoldable pub new_connection : Bool → Connection
new_connection auto_retry = record {
  auto_retry = auto_retry;
  endpoints = [];
  retry_endpoints = [];
  closed_sock = [];
  timeout_sock = [];
  new_msg = [];
  server_new_sock = [];
  client_connect_success = [];
  client_connect_fail = [];
  client_addrs = [];
  told = [];
}

-- The queues that the io thread fills; `ok` says that a connect had no error.
unfoldable pub cb_server_accept : ℕ → Connection → Connection
cb_server_accept sock c = record c { server_new_sock = c.server_new_sock ++ sock ∷ [] }

unfoldable pub cb_client_connect : Bool → ℕ → Connection → Connection
cb_client_connect ok sock c =
    if ok
    then record c { client_connect_success = c.client_connect_success ++ sock ∷ [] }
    else record c { client_connect_fail = c.client_connect_fail ++ sock ∷ [] }

unfoldable pub cb_sock_timeout : ℕ → Connection → Connection
cb_sock_timeout sock c = record c { timeout_sock = c.timeout_sock ++ sock ∷ [] }

unfoldable pub cb_sock_closed : ℕ → Connection → Connection
cb_sock_closed sock c = record c { closed_sock = c.closed_sock ++ sock ∷ [] }

unfoldable pub cb_received_msg : ℕ → ℕ → Connection → Connection
cb_received_msg sock msg c = record c { new_msg = c.new_msg ++ (sock, msg) ∷ [] }

-- findEndpoint and findRetryEndpoint, by the socket and by the address.
unfoldable pub find_endpoint : ℕ → List (ℕ × Endpoint) → Option Endpoint
find_endpoint sock [] = none
find_endpoint sock ((key, ep) ∷ eps) = if key == sock then some ep else find_endpoint sock eps

unfoldable pub find_addr : ℕ → List (ℕ × Endpoint) → Option Endpoint
find_addr addr [] = none
find_addr addr ((_, ep) ∷ eps) =
    let rest = find_addr addr eps in if ep.remote_addr == addr then some ep else rest

-- eraseEndpoint
unfoldable pub erase_endpoint : ℕ → List (ℕ × Endpoint) → List (ℕ × Endpoint)
erase_endpoint sock [] = []
erase_endpoint sock ((key, ep) ∷ eps) =
    let rest = erase_endpoint sock eps in if key == sock then rest else (key, ep) ∷ rest

-- `map[sock] = endpoint`
unfoldable pub put_endpoint : ℕ → Endpoint → List (ℕ × Endpoint) → List (ℕ × Endpoint)
put_endpoint sock ep eps = (sock, ep) ∷ erase_endpoint sock eps

unfoldable pub call : Call → Connection → Connection
call n c = record c { told = c.told ++ n ∷ [] }

-- The endpoint of a socket that a server accepted, and of a client.
abbrev pub server_endpoint : ℕ → Endpoint
server_endpoint sock = record { remote_addr = 0; client_side = false; sock = sock }

abbrev pub client_endpoint : ℕ → ℕ → Endpoint
client_endpoint sock addr = record { remote_addr = addr; client_side = true; sock = sock }

-- The loop of processServerNewSocket.
unfoldable pub add_new_socks : List ℕ → Connection → Connection
add_new_socks [] c = c
add_new_socks (sock ∷ socks) c = add_new_socks socks (
    call service_connect
      (record c { endpoints = put_endpoint sock (server_endpoint sock) c.endpoints }))

unfoldable pub process_server_new_socket : Connection → Connection
process_server_new_socket c = add_new_socks c.server_new_sock (record c { server_new_sock = [] })

-- What both loops, of processSockTimeout and processSockClosed, do with an endpoint that is found.
unfoldable pub drop_sock : ℕ → Endpoint → Connection → Connection
drop_sock sock ep c =
    let c' = record c { endpoints = erase_endpoint sock c.endpoints } in
    call service_disconnect (
      if c.auto_retry
      then record c' { retry_endpoints = put_endpoint sock ep c.retry_endpoints }
      else c')

unfoldable pub drop_socks : List ℕ → Connection → Option Connection
drop_socks [] c = some c
drop_socks (sock ∷ socks) c = elim (find_endpoint sock c.endpoints) [
  | none ↦ none
  | some ep ↦ drop_socks socks (drop_sock sock ep c)
]

unfoldable pub process_sock_timeout : Connection → Option Connection
process_sock_timeout c = drop_socks c.timeout_sock (record c { timeout_sock = [] })

unfoldable pub process_sock_closed : Connection → Option Connection
process_sock_closed c = drop_socks c.closed_sock (record c { closed_sock = [] })

-- processSockReceivedMsg: a message of a socket that is gone is discarded.
unfoldable pub hand_over : (ℕ → Bool) → List (ℕ × ℕ) → Connection → Connection
hand_over alive [] c = c
hand_over alive ((sock, msg) ∷ msgs) c =
    hand_over alive msgs (if alive sock then call (received_msg msg) c else c)

unfoldable pub process_sock_received_msg : (ℕ → Bool) → Connection → Connection
process_sock_received_msg alive c = hand_over alive c.new_msg (record c { new_msg = [] })

-- processClientAsyncConnectSuccess
unfoldable pub tell_connects : List ℕ → Connection → Connection
tell_connects [] c = c
tell_connects (sock ∷ socks) c = tell_connects socks (call service_connect c)

unfoldable pub process_client_connect_success : Connection → Connection
process_client_connect_success c =
    tell_connects c.client_connect_success (record c { client_connect_success = [] })

-- processClientAsyncConnectFail
unfoldable pub retry_socks : List ℕ → Connection → Option Connection
retry_socks [] c = some c
retry_socks (sock ∷ socks) c =
    if c.auto_retry
    then elim (find_endpoint sock c.endpoints) [
      | none ↦ none
      | some ep ↦
          retry_socks socks (record c { retry_endpoints = put_endpoint sock ep c.retry_endpoints })
    ]
    else retry_socks socks c

unfoldable pub process_client_connect_fail : Connection → Option Connection
process_client_connect_fail c =
    retry_socks c.client_connect_fail (record c { client_connect_fail = [] })

-- processClientAutoRetry, over the entries that are left, with those that stay.
unfoldable pub auto_retry_on :
    (ℕ → Bool) → List (ℕ × Endpoint) → List (ℕ × Endpoint) → Connection → Option Connection
auto_retry_on again [] kept c = some (record c { retry_endpoints = kept })
auto_retry_on again ((key, ep) ∷ eps) kept c =
    if ep.client_side
    then if again ep.sock
      then auto_retry_on again eps kept
          (call service_connect (record c { endpoints = put_endpoint ep.sock ep c.endpoints }))
      else auto_retry_on again eps (kept ++ (key, ep) ∷ []) c
    else none

unfoldable pub process_client_auto_retry : (ℕ → Bool) → Connection → Option Connection
process_client_auto_retry again c = auto_retry_on again c.retry_endpoints [] c

-- `update` behind processServerNewSocket, and as a whole.
unfoldable pub update_rest : (ℕ → Bool) → (ℕ → Bool) → Connection → Option Connection
update_rest alive again c = do
  c1 ← process_sock_closed c
  c2 ← process_sock_timeout c1
  c3 ←
      process_client_connect_fail
        (process_client_connect_success (process_sock_received_msg alive c2))
  if c3.auto_retry then process_client_auto_retry again c3 else some c3

unfoldable pub update : (ℕ → Bool) → (ℕ → Bool) → Connection → Option Connection
update alive again c = update_rest alive again (process_server_new_socket c)

-- addClientEndpoint and hasServiceAddr
unfoldable pub add_client_endpoint : ℕ → ℕ → Connection → Connection
add_client_endpoint sock addr c = record c {
  endpoints = put_endpoint sock (client_endpoint sock addr) c.endpoints;
  client_addrs = c.client_addrs ++ addr ∷ [];
}

unfoldable pub has_service_addr : ℕ → List ℕ → Bool
has_service_addr addr [] = false
has_service_addr addr (a ∷ addrs) = a == addr || has_service_addr addr addrs
