-- ===== src/Nel/Network/Adding.antt =====
-- nel/UnifiedNetwork.cpp: addService.
use zylib.Prelude.{
  ℕ, suc, ◌≡◌, refl, sym, ap, ◌∙◌, inl, inr, Bool, true, some, List, [], ◌∷◌, ◌++◌, arith, ◌==◌,
  ==_refl, Bool-cases, All,
}
use mathlib.Core.Path.{subst}
use zylib.Nel.Connection.{Connection, add_client_endpoint, has_service_addr}
use zylib.Nel.Network.{
  Service, Services, UnifiedNetwork, find_connection, put_connection, add_addresses, find_or_new,
  add_service,
}

find_connection-put_connection :
    (id : ℕ) (s : Service) (services : Services)
    → find_connection id (put_connection id s services) ≡ some s
unfolding find_connection put_connection
find_connection-put_connection id s [] = rw (==_refl id) refl
find_connection-put_connection id s ((key, old) ∷ services) = elim (Bool-cases (key == id)) [
  | inl same ↦ rw (same, find_connection) (rw same refl)
  | inr other ↦
      rw (other, find_connection) (rw other (find_connection-put_connection id s services))
]

pub put_connection_same :
    (id : ℕ) (s : Service) (services : Services)
    → find_connection id services ≡ some s
    → put_connection id s services ≡ services
unfolding find_connection put_connection
put_connection_same id s [] h = absurd cc
put_connection_same id s ((key, old) ∷ services) h = elim (Bool-cases (key == id)) [
  | inl same ↦ ground (arith, same)
  | inr other ↦
      rw other (ap (◌∷◌ (key, old)) (put_connection_same id s services (ground (arith, other))))
]

has_service_addr-append :
    (a b : ℕ) (addrs : List ℕ)
    → has_service_addr a addrs ≡ true
    → has_service_addr a (addrs ++ b ∷ []) ≡ true
unfolding has_service_addr
has_service_addr-append a b [] h = absurd cc
has_service_addr-append a b (x ∷ addrs) h = elim (Bool-cases (x == a)) [
  | inl same ↦ rw same refl
  | inr other ↦ ground (arith, other, has_service_addr-append a b addrs)
]

has_service_addr_last : (a : ℕ) (addrs : List ℕ) → has_service_addr a (addrs ++ a ∷ []) ≡ true
unfolding has_service_addr
has_service_addr_last a [] = rw (==_refl a) refl
has_service_addr_last a (x ∷ addrs) = ground (arith, has_service_addr_last a addrs)

module _ (connects : ℕ → Bool) where
  -- Addresses that are known are passed over.
  pub add_addresses_known :
      (addrs : List ℕ) (c : Connection) (next : ℕ)
      → All (λ a. has_service_addr a c.client_addrs ≡ true) addrs
      → add_addresses connects addrs c next ≡ (c, next)
  unfolding add_addresses
  add_addresses_known [] c next h = refl
  add_addresses_known (a ∷ addrs) c next h = rw (h.0) (add_addresses_known addrs c next h.1)

  -- What was known stays known.
  add_addresses_keeps :
      (addrs : List ℕ) (c : Connection) (next a : ℕ)
      → has_service_addr a c.client_addrs ≡ true
      → has_service_addr a (add_addresses connects addrs c next).0.client_addrs ≡ true
  unfolding add_addresses add_client_endpoint
  add_addresses_keeps [] c next a h = h
  add_addresses_keeps (b ∷ addrs) c next a h =
      elim (Bool-cases (has_service_addr b c.client_addrs)) [
        | inl known ↦ rw known (add_addresses_keeps addrs c next a h)
        | inr new ↦ rw new (elim (Bool-cases (connects b)) [
          | inl made ↦ rw made (
              add_addresses_keeps addrs (add_client_endpoint next b c) (suc next) a
                (has_service_addr-append a b c.client_addrs h))
          | inr not_made ↦ rw not_made (add_addresses_keeps addrs c (suc next) a h)
        ])
      ]

  -- An address that connects is known after it.
  add_addresses_covers :
      (addrs : List ℕ) (c : Connection) (next : ℕ)
      → All (λ a. connects a ≡ true) addrs
      → All
          (λ a. has_service_addr a (add_addresses connects addrs c next).0.client_addrs ≡ true)
          addrs
  unfolding add_addresses add_client_endpoint
  add_addresses_covers [] c next h = tt
  add_addresses_covers (b ∷ addrs) c next h =
      elim (Bool-cases (has_service_addr b c.client_addrs)) [
        | inl known ↦
            let e : add_addresses connects (b ∷ addrs) c next
                ≡ add_addresses connects addrs c next =
              rw known refl in
            subst
              (λ (r : Connection × ℕ).
                All (λ a. has_service_addr a r.0.client_addrs ≡ true) (b ∷ addrs))
              (sym e)
              (add_addresses_keeps addrs c next b known, add_addresses_covers addrs c next h.1)
        | inr new ↦
            let c' = add_client_endpoint next b c in
            let e : add_addresses connects (b ∷ addrs) c next
                ≡ add_addresses connects addrs c' (suc next) =
              rw (new, h.0) refl in
            subst
              (λ (r : Connection × ℕ).
                All (λ a. has_service_addr a r.0.client_addrs ≡ true) (b ∷ addrs))
              (sym e)
              (
                add_addresses_keeps addrs c' (suc next) b (has_service_addr_last b c.client_addrs),
                add_addresses_covers addrs c' (suc next) h.1,
              )
      ]

  -- A service all of whose addresses are known is left alone.
  pub add_service_known :
      (id name : ℕ) (addrs : List ℕ) (auto_retry : Bool) (n : UnifiedNetwork) (s : Service)
      → find_connection id n.connections ≡ some s
      → All (λ a. has_service_addr a s.conn.client_addrs ≡ true) addrs
      → add_service connects id name addrs auto_retry n ≡ n
  unfolding add_service find_or_new
  add_service_known id name addrs auto_retry n s found known =
      let put : Service → Connection × ℕ → UnifiedNetwork = λ s' r. record n {
        connections = put_connection id (record s' { conn = r.0 }) n.connections;
        next_sock = r.1;
      } in
      let e : find_or_new id name auto_retry n.connections ≡ s = rw (find_or_new, found) refl in
      ap (λ s'. put s' (add_addresses connects addrs s'.conn n.next_sock)) e
      ∙ (ap (put s) (add_addresses_known addrs s.conn n.next_sock known)
          ∙ ap (λ cs. record n { connections = cs }) (put_connection_same id s n.connections found))

  -- Adding a service with the same addresses once more changes nothing, if each of them could be connected.
  pub add_service-add_service :
      (id name : ℕ) (addrs : List ℕ) (auto_retry : Bool) (n : UnifiedNetwork)
      → All (λ a. connects a ≡ true) addrs
      → add_service connects id name addrs auto_retry
          (add_service connects id name addrs auto_retry n)
        ≡ add_service connects id name addrs auto_retry n
  unfolding add_service
  add_service-add_service id name addrs auto_retry n all =
      let s = find_or_new id name auto_retry n.connections in
      let s' : Service = record s { conn = (add_addresses connects addrs s.conn n.next_sock).0 } in
      add_service_known id name addrs auto_retry (add_service connects id name addrs auto_retry n)
        s' (find_connection-put_connection id s' n.connections)
        (add_addresses_covers addrs s.conn n.next_sock all)
