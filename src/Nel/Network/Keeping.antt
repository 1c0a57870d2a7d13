-- ===== src/Nel/Network/Keeping.antt =====
-- nel/UnifiedNetwork.cpp with nel/UnifiedConnection.cpp: the addresses of a service through `update`.
use zylib.Prelude.{
  ℕ, ◌≡◌, refl, sym, ap, ◌∙◌, inl, inr, Bool, true, Option, none, some, List, [], ◌∷◌, ◌++◌, arith,
  ◌==◌, Bool-cases, Option-cases, some-subst, if_both,
}
use mathlib.Core.Path.{subst}
use zylib.Nel.Connection.{
  Connection, Endpoint, call, add_new_socks, process_server_new_socket, drop_sock, drop_socks,
  process_sock_closed, process_sock_timeout, hand_over, process_sock_received_msg, tell_connects,
  process_client_connect_success, retry_socks, process_client_connect_fail, auto_retry_on,
  process_client_auto_retry, update_rest, update, find_endpoint, put_endpoint, has_service_addr,
  ◌>>=◌,
}
use zylib.Nel.Network.{
  Service, Services, UnifiedNetwork, find_connection, add_service, update_all, update_network,
}
use zylib.Nel.Network.Adding.{add_service_known}

module _ (addrs : List ℕ) where
  -- If there is a connection, it has these addresses.
  abbrev Has : Option Connection → Type 0
  Has none = Unit
  Has (some d) = d.client_addrs ≡ addrs

  bind-Has :
      (o : Option Connection) (f : Connection → Option Connection)
      → Has o
      → ((d : Connection) → d.client_addrs ≡ addrs → Has (f d))
      → Has (o >>= f)
  bind-Has none f h k = tt
  bind-Has (some d) f h k = k d h

  drop_sock-addrs :
      (sock : ℕ) (ep : Endpoint) (c : Connection)
      → c.client_addrs ≡ addrs
      → (drop_sock sock ep c).client_addrs ≡ addrs
  unfolding drop_sock call
  drop_sock-addrs sock ep c h =
      if_both (λ (d : Connection). d.client_addrs ≡ addrs) c.auto_retry _ _ h h

  drop_socks-Has :
      (socks : List ℕ) (c : Connection) → c.client_addrs ≡ addrs → Has (drop_socks socks c)
  unfolding drop_socks
  drop_socks-Has [] c h = h
  drop_socks-Has (sock ∷ socks) c h =
      let next : Option Endpoint → Option Connection =
        λ o. elim o [ none ↦ none | some ep ↦ drop_socks socks (drop_sock sock ep c) ] in
      elim (Option-cases (find_endpoint sock c.endpoints)) [
        | inl lost ↦ subst (λ o. Has (next o)) (sym lost) tt
        | inr (ep, e) ↦
            subst (λ o. Has (next o)) (sym e)
              (drop_socks-Has socks (drop_sock sock ep c) (drop_sock-addrs sock ep c h))
      ]

  hand_over-addrs :
      (alive : ℕ → Bool) (msgs : List (ℕ × ℕ)) (c : Connection)
      → c.client_addrs ≡ addrs
      → (hand_over alive msgs c).client_addrs ≡ addrs
  unfolding hand_over call
  hand_over-addrs alive [] c h = h
  hand_over-addrs alive ((sock, msg) ∷ msgs) c h =
      hand_over-addrs alive msgs _
        (if_both (λ (d : Connection). d.client_addrs ≡ addrs) (alive sock) _ c h h)

  tell_connects-addrs :
      (socks : List ℕ) (c : Connection)
      → c.client_addrs ≡ addrs
      → (tell_connects socks c).client_addrs ≡ addrs
  unfolding tell_connects call
  tell_connects-addrs [] c h = h
  tell_connects-addrs (sock ∷ socks) c h = tell_connects-addrs socks _ h

  add_new_socks-addrs :
      (socks : List ℕ) (c : Connection)
      → c.client_addrs ≡ addrs
      → (add_new_socks socks c).client_addrs ≡ addrs
  unfolding add_new_socks call
  add_new_socks-addrs [] c h = h
  add_new_socks-addrs (sock ∷ socks) c h = add_new_socks-addrs socks _ h

  retry_socks-Has :
      (socks : List ℕ) (c : Connection) → c.client_addrs ≡ addrs → Has (retry_socks socks c)
  unfolding retry_socks
  retry_socks-Has [] c h = h
  retry_socks-Has (sock ∷ socks) c h =
      let next : Option Endpoint → Option Connection = λ o. elim o [
        | none ↦ none
        | some ep ↦
            retry_socks socks
              (record c { retry_endpoints = put_endpoint sock ep c.retry_endpoints })
      ] in
      if_both Has c.auto_retry (next (find_endpoint sock c.endpoints)) (retry_socks socks c)
        (elim (Option-cases (find_endpoint sock c.endpoints)) [
          | inl lost ↦ subst (λ o. Has (next o)) (sym lost) tt
          | inr (ep, e) ↦
              subst (λ o. Has (next o)) (sym e)
                (retry_socks-Has socks
                  (record c { retry_endpoints = put_endpoint sock ep c.retry_endpoints }) h)
        ])
        (retry_socks-Has socks c h)

  auto_retry-Has :
      (again : ℕ → Bool) (eps kept : List (ℕ × Endpoint)) (c : Connection)
      → c.client_addrs ≡ addrs
      → Has (auto_retry_on again eps kept c)
  unfolding auto_retry_on call
  auto_retry-Has again [] kept c h = h
  auto_retry-Has again ((key, ep) ∷ eps) kept c h =
      if_both Has ep.client_side _ none
        (if_both Has (again ep.sock) _ _ (auto_retry-Has again eps kept _ h)
          (auto_retry-Has again eps (kept ++ (key, ep) ∷ []) c h))
        tt

  -- `update` leaves the addresses of a connection.
  update-Has :
      (alive again : ℕ → Bool) (c : Connection)
      → c.client_addrs ≡ addrs
      → Has (update alive again c)
  unfolding update update_rest process_server_new_socket process_sock_closed process_sock_timeout
      process_sock_received_msg process_client_connect_success process_client_connect_fail
      process_client_auto_retry
  update-Has alive again c h =
      bind-Has _ _
        (drop_socks-Has _ _
          (add_new_socks-addrs c.server_new_sock (record c { server_new_sock = [] }) h))
        (λ c1 h1.
          bind-Has _ _ (drop_socks-Has c1.timeout_sock (record c1 { timeout_sock = [] }) h1)
            (λ c2 h2.
              bind-Has _ _
                (retry_socks-Has _ _ (
                  tell_connects-addrs _ _
                    (hand_over-addrs alive c2.new_msg (record c2 { new_msg = [] }) h2)))
                (λ c3 h3.
                  if_both Has c3.auto_retry _ (some c3)
                    (auto_retry-Has again c3.retry_endpoints [] c3 h3) h3)))

bind-some :
    {A B : Type 0} (o : Option A) (f : A → Option B) (b : B)
    → (o >>= f) ≡ some b
    → (a : A) × (o ≡ some a) × (f a ≡ some b)
bind-some none f b h = absurd cc
bind-some (some a) f b h = (a, refl, h)

-- The connection that a service has after `update`, if none of its assertions fails.
update_all-found :
    (alive again : ℕ → Bool) (id : ℕ) (s : Service) (services services' : Services)
    → find_connection id services ≡ some s
    → update_all alive again services ≡ some services'
    → (t : Service) × (find_connection id services' ≡ some t)
      × (t.conn.client_addrs ≡ s.conn.client_addrs)
unfolding update_all find_connection
update_all-found alive again id s [] services' f u = absurd cc
update_all-found alive again id s ((key, old) ∷ services) services' f u =
    let (conn, e, u1) = bind-some (update alive again old.conn) _ services' u in
    let (rest, e', u2) = bind-some (update_all alive again services) _ services' u1 in
    let updated : Service = record old { conn = conn } in
    some-subst
      (λ (cs : Services).
        (t : Service) × (find_connection id cs ≡ some t)
        × (t.conn.client_addrs ≡ s.conn.client_addrs))
      u2
      (elim (Bool-cases (key == id)) [
        | inl same ↦
            let old_is : old ≡ s = ground (arith, same) in
            let kept : conn.client_addrs ≡ old.conn.client_addrs =
              subst (Has old.conn.client_addrs) e
                (update-Has old.conn.client_addrs alive again old.conn refl) in
            (updated, rw (find_connection, same) refl, kept ∙ ap (λ r. r.conn.client_addrs) old_is)
        | inr other ↦
            let (t, g, k) =
              update_all-found alive again id s services rest (ground (arith, other)) e' in
            (t, rw (find_connection, other) g, k)
      ])

-- After any `update`, a service that has been given an address is not connected to it by addService, whether or not it has an endpoint for it
-- left: addService changes nothing.
pub update-add_service :
    (connects alive again : ℕ → Bool) (id name addr : ℕ) (auto_retry : Bool) (n n' : UnifiedNetwork)
    (s : Service)
    → find_connection id n.connections ≡ some s
    → has_service_addr addr s.conn.client_addrs ≡ true
    → update_network alive again n ≡ some n'
    → add_service connects id name (addr ∷ []) auto_retry n' ≡ n'
unfolding update_network
update-add_service connects alive again id name addr auto_retry n n' s f h u =
    let (services, e, u1) = bind-some (update_all alive again n.connections) _ n' u in
    let (t, g, k) = update_all-found alive again id s n.connections services f e in
    some-subst (λ (m : UnifiedNetwork). add_service connects id name (addr ∷ []) auto_retry m ≡ m)
      u1
      (add_service_known connects id name (addr ∷ []) auto_retry
        (record n { connections = services }) t g (ap (has_service_addr addr) k ∙ h, tt))
