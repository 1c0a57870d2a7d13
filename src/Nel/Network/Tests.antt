-- ===== src/Nel/Network/Tests.antt =====
-- nel/UnifiedNetwork.cpp: a service with two addresses, and one whose socket has ended.
use zylib.Prelude.{ℕ, ◌≡◌, refl, Bool, true, false, none, some, [], ◌∷◌}
use zylib.Nel.Connection.{
  new_connection, service_disconnect, has_service_addr, add_client_endpoint, cb_sock_closed, update,
  update_rest, process_server_new_socket, add_new_socks, process_sock_closed, process_sock_timeout,
  drop_socks, drop_sock, erase_endpoint, put_endpoint, call, find_endpoint,
  process_sock_received_msg, hand_over, process_client_connect_success, tell_connects,
  process_client_connect_fail, retry_socks, find_addr,
}
use zylib.Nel.Network.{
  Service, UnifiedNetwork, unified_network, find_connection, put_connection, add_addresses,
  find_or_new, add_service, send, update_all, update_network,
}
use zylib.Nel.Network.Adding.{add_service-add_service}

abbrev all : ℕ → Bool
all a = true

abbrev both : UnifiedNetwork
both = add_service all 7 70 (5 ∷ (6 ∷ [])) false unified_network

sent_to_second : send 7 6 both ≡ some 1
unfolding send add_service find_or_new find_connection add_addresses has_service_addr
    add_client_endpoint put_endpoint erase_endpoint put_connection unified_network find_addr
    new_connection
sent_to_second = refl

add_service-add_service_example : add_service all 7 70 (5 ∷ (6 ∷ [])) false both ≡ both
add_service-add_service_example =
    add_service-add_service all 7 70 (5 ∷ (6 ∷ [])) false unified_network (refl, (refl, tt))

-- The only socket of a service has been closed.
abbrev ended : Service
ended = record {
  service_name = 70;
  conn = cb_sock_closed 0 (add_client_endpoint 0 5 (new_connection false));
}

abbrev before : UnifiedNetwork
before = record unified_network { connections = (7, ended) ∷ [] }

abbrev left : Service
left = record {
  service_name = 70;
  conn = record (new_connection false) { client_addrs = 5 ∷ []; told = service_disconnect ∷ [] };
}

abbrev after : UnifiedNetwork
after = record unified_network { connections = (7, left) ∷ [] }

updated : update_network all all before ≡ some after
unfolding update_network update_all update update_rest process_server_new_socket add_new_socks
    process_sock_closed process_sock_timeout drop_socks drop_sock erase_endpoint put_endpoint call
    find_endpoint process_sock_received_msg hand_over process_client_connect_success tell_connects
    process_client_connect_fail retry_socks cb_sock_closed add_client_endpoint new_connection
    unified_network
updated = refl

not_sent : send 7 5 after ≡ none
unfolding send find_connection find_addr new_connection unified_network
not_sent = refl
