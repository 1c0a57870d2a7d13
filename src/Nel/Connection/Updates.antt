-- ===== src/Nel/Connection/Updates.antt =====
-- UnifiedConnection of nel/UnifiedConnection.cpp: what `update` does behind the new sockets, for a
-- connection that retries nothing.
use zylib.Prelude.{
  ℕ, ◌+◌, ◌≤◌, ◌≡◌, refl, ap, ◌∙◌, Bool, true, false, Option, some, List, [], ◌∷◌, arith,
  if◌then◌else◌,
}
use zylib.Nel.Connection.{
  ◌>>=◌, Call, service_connect, received_msg, Connection, call, hand_over,
  process_sock_received_msg, tell_connects, process_client_connect_success, retry_socks,
  process_client_connect_fail, update_rest, process_sock_closed, process_sock_timeout,
}
use zylib.Nel.Connection.Counts.{count, count_eps, Same, Same-trans, drop_socks-count}

-- What else `update` does changes neither the map nor the queues, without retries.
record Quiet (c d : Connection) : Type 0 where
  same : Same c d
  endpoints : d.endpoints ≡ c.endpoints

Quiet-trans : {c d e : Connection} → Quiet c d → Quiet d e → Quiet c e
Quiet-trans a b = record { same = Same-trans a.same b.same; endpoints = b.endpoints ∙ a.endpoints }

Same-refl : (c : Connection) → Same c c
Same-refl c = ground arith

call-Quiet : (n : Call) (c : Connection) → Quiet c (call n c)
unfolding call
call-Quiet n c = record { same = ground arith; endpoints = refl }

heard-Quiet : (b : Bool) (n : Call) (c : Connection) → Quiet c (if b then call n c else c)
heard-Quiet true n c = call-Quiet n c
heard-Quiet false n c = record { same = Same-refl c; endpoints = refl }

hand_over-Quiet :
    (alive : ℕ → Bool) (msgs : List (ℕ × ℕ)) (c : Connection) → Quiet c (hand_over alive msgs c)
unfolding hand_over
hand_over-Quiet alive [] c = record { same = Same-refl c; endpoints = refl }
hand_over-Quiet alive ((sock, msg) ∷ msgs) c =
    Quiet-trans (heard-Quiet (alive sock) (received_msg msg) c) (hand_over-Quiet alive msgs _)

tell_connects-Quiet : (socks : List ℕ) (c : Connection) → Quiet c (tell_connects socks c)
unfolding tell_connects
tell_connects-Quiet [] c = record { same = Same-refl c; endpoints = refl }
tell_connects-Quiet (sock ∷ socks) c =
    Quiet-trans (call-Quiet service_connect c) (tell_connects-Quiet socks _)

if_false : {A : Type 0} (b : Bool) (x y : A) → b ≡ false → (if b then x else y) ≡ y
if_false b x y e = rw e refl

retry_socks-plain :
    (socks : List ℕ) (c : Connection) → c.auto_retry ≡ false → retry_socks socks c ≡ some c
unfolding retry_socks
retry_socks-plain [] c r = refl
retry_socks-plain (sock ∷ socks) c r = if_false c.auto_retry _ _ r ∙ retry_socks-plain socks c r

-- What `update` does behind the sockets.
rest_of-Quiet :
    (alive : ℕ → Bool) (c : Connection)
    → c.auto_retry ≡ false
    → (d : Connection) × (process_client_connect_fail
          (process_client_connect_success (process_sock_received_msg alive c))
        ≡ some d)
      × (d.auto_retry ≡ false)
      × Quiet c d
unfolding process_client_connect_fail process_client_connect_success process_sock_received_msg
rest_of-Quiet alive c r =
    let c0 : Connection = record c { new_msg = [] } in
    let c1 = hand_over alive c.new_msg c0 in
    let q1 = hand_over-Quiet alive c.new_msg c0 in
    let c1' : Connection = record c1 { client_connect_success = [] } in
    let c2 = tell_connects c1.client_connect_success c1' in
    let q2 = tell_connects-Quiet c1.client_connect_success c1' in
    let d : Connection = record c2 { client_connect_fail = [] } in
    let r2 : d.auto_retry ≡ false = q2.same.retry ∙ q1.same.retry ∙ r in
    (
      d,
      retry_socks-plain c2.client_connect_fail d r2,
      r2,
      record {
        same = record {
          retry = q2.same.retry ∙ q1.same.retry;
          closed_sock = q2.same.closed_sock ∙ q1.same.closed_sock;
          timeout_sock = q2.same.timeout_sock ∙ q1.same.timeout_sock;
          server_new_sock = q2.same.server_new_sock ∙ q1.same.server_new_sock;
        };
        endpoints = q2.endpoints ∙ q1.endpoints;
      },
    )

bind-some : {A B : Type 0} (o : Option A) (a : A) (f : A → Option B) → o ≡ some a → (o >>= f) ≡ f a
bind-some o a f e = rw e refl

-- The parts of `update` that all succeed.
update_rest-parts :
    (alive again : ℕ → Bool) (c c1 c2 d : Connection)
    → process_sock_closed c ≡ some c1
    → process_sock_timeout c1 ≡ some c2
    → process_client_connect_fail
        (process_client_connect_success (process_sock_received_msg alive c2))
      ≡ some d
    → d.auto_retry ≡ false
    → update_rest alive again c ≡ some d
unfolding update_rest
update_rest-parts alive again c c1 c2 d e1 e2 e3 r =
    bind-some _ c1 _ e1 ∙ bind-some _ c2 _ e2 ∙ bind-some _ d _ e3 ∙ if_false d.auto_retry _ _ r

-- What `update_rest` does with the sockets of a connection whose new sockets are in the map.
pub update_rest-Drained :
    (alive : ℕ → Bool) (c : Connection)
    → c.auto_retry ≡ false
    → ((i : ℕ) → count i c.closed_sock + count i c.timeout_sock ≤ count_eps i c.endpoints)
    → ((i : ℕ) → count_eps i c.endpoints ≤ 1)
    → (d : Connection) × (update_rest alive alive c ≡ some d)
      × (d.auto_retry ≡ false)
      × (d.closed_sock ≡ [])
      × (d.timeout_sock ≡ [])
      × (d.server_new_sock ≡ c.server_new_sock)
      × ((i : ℕ)
          → count_eps i d.endpoints + (count i c.closed_sock + count i c.timeout_sock)
            ≡ count_eps i c.endpoints)
unfolding process_sock_closed process_sock_timeout
update_rest-Drained alive c r h one =
    let c0 : Connection = record c { closed_sock = [] } in
    let (c1, e1, s1, n1) = drop_socks-count c.closed_sock c0 r (λ i. omega (arith, h i)) one in
    let c1' : Connection = record c1 { timeout_sock = [] } in
    let (c2, e2, s2, n2) =
      drop_socks-count c1.timeout_sock c1' (s1.retry ∙ r)
        (λ i. omega (arith, h i, n1 i, ap (count i) s1.timeout_sock))
        (λ i. omega (arith, n1 i, one i)) in
    let (d, e3, r3, q) = rest_of-Quiet alive c2 (s2.retry ∙ s1.retry ∙ r) in
    (
      d,
      update_rest-parts alive alive c c1 c2 d e1 e2 e3 r3,
      r3,
      q.same.closed_sock ∙ s2.closed_sock ∙ s1.closed_sock,
      q.same.timeout_sock ∙ s2.timeout_sock,
      q.same.server_new_sock ∙ s2.server_new_sock ∙ s1.server_new_sock,
      λ i. omega (arith, n1 i, n2 i, ap (count_eps i) q.endpoints, ap (count i) s1.timeout_sock),
    )
