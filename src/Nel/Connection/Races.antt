-- ===== src/Nel/Connection/Races.antt =====
-- UnifiedConnection of nel/UnifiedConnection.cpp: the io thread runs while `update` does.
use zylib.Prelude.{
  ℕ, ◌≡◌, refl, ap, ◌∙◌, inl, inr, Bool, false, none, List, [], ◌∷◌, ◌++◌, arith, Option-cases,
}
use zylib.Nel.Connection.{
  ◌>>=◌, Endpoint, Connection, cb_server_accept, cb_sock_closed, find_endpoint, drop_sock,
  drop_socks, process_server_new_socket, process_sock_closed, update_rest,
}
use zylib.Nel.Connection.Counts.{
  count, count_eps, count-erase, endpoints-drop_sock, add_new_socks-count,
}
use zylib.Nel.Connection.Sockets.{
  System, accept, normal, report, on_closed, has, known, known_le, Kept,
}

find-missing :
    (sock : ℕ) (eps : List (ℕ × Endpoint)) → count_eps sock eps ≡ 0 → find_endpoint sock eps ≡ none
unfolding find_endpoint
find-missing sock [] z = refl
find-missing sock ((key, ep) ∷ eps) z = ground (arith, find-missing sock eps)

-- A socket of the queue that the map does not have fails the assertion, if none before it does.
drop_socks-missing :
    (socks : List ℕ) (sock : ℕ) (c : Connection)
    → count_eps sock c.endpoints ≡ 0
    → drop_socks (socks ++ sock ∷ []) c ≡ none
unfolding drop_socks
drop_socks-missing [] sock c z = rw (drop_socks, find-missing sock c.endpoints z) refl
drop_socks-missing (j ∷ socks) sock c z = elim (Option-cases (find_endpoint j c.endpoints)) [
  | inl e ↦ rw (drop_socks, e) refl
  | inr (ep, e) ↦
      let gone = endpoints-drop_sock j ep c in
      let still : count_eps sock (drop_sock j ep c).endpoints ≡ 0 =
        ap (count_eps sock) gone ∙ ground (arith, count-erase sock j c.endpoints) in
      rw (drop_socks, e) (drop_socks-missing socks sock (drop_sock j ep c) still)
]

count-has : (i : ℕ) (js : List ℕ) → count i js ≡ 0 → has i js ≡ false
count-has i [] z = refl
count-has i (j ∷ js) z = ground (arith, count-has i js)

-- A closed socket that the map does not have, whatever else the queue has.
update_rest-missing :
    (alive again : ℕ → Bool) (sock : ℕ) (c : Connection)
    → count_eps sock c.endpoints ≡ 0
    → update_rest alive again (cb_sock_closed sock c) ≡ none
unfolding update_rest process_sock_closed cb_sock_closed
update_rest-missing alive again sock c z =
    let closed : Connection = record c { closed_sock = [] } in
    rw (update_rest, ◌>>=◌, drop_socks-missing c.closed_sock sock closed z) refl

conn-on_closed :
    (sock : ℕ) (s : System)
    → has sock s.ended ≡ false
    → has sock s.muted ≡ false
    → (on_closed normal sock s).conn ≡ cb_sock_closed sock s.conn
unfolding on_closed report
conn-on_closed sock s h m = rw (on_closed, h, m) refl

-- `update` has taken the new sockets when the io thread accepts one more, which ends at once: then the
-- assertion in processSockClosed fails, in every state that a history leads to. The service has not shut
-- this socket down.
pub update_rest-races :
    (alive again : ℕ → Bool) (s : System)
    → Kept s
    → has s.accepted s.muted ≡ false
    → let first : System = record s { conn = process_server_new_socket s.conn } in
      update_rest alive again (on_closed normal s.accepted (accept first)).conn ≡ none
unfolding process_server_new_socket accept cb_server_accept
update_rest-races alive again s k m =
    let n = s.accepted in
    let first : System = record s { conn = process_server_new_socket s.conn } in
    let c0 : Connection = record s.conn { server_new_sock = [] } in
    let fresh : known n s ≡ 0 = ground arith in
    let ended = count-has n s.ended (omega (arith, fresh, k.once n)) in
    let one =
      add_new_socks-count s.conn.server_new_sock c0
        (λ i. omega (arith, k.once i, k.reported i, k.mapped i, known_le i s)) n in
    let absent : count_eps n (accept first).conn.endpoints ≡ 0 =
      omega (arith, one, fresh, k.once n, k.reported n, k.mapped n) in
    ap (update_rest alive again) (conn-on_closed n (accept first) ended m)
    ∙ update_rest-missing alive again n (accept first).conn absent
