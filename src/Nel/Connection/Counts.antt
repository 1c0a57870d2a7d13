-- ===== src/Nel/Connection/Counts.antt =====
-- UnifiedConnection of nel/UnifiedConnection.cpp: how often a socket stands in the map and in the queues,
-- through the parts of `update`.
use zylib.Prelude.{
  ℕ, ◌+◌, ◌≤◌, ◌≡◌, refl, ap, ◌∙◌, inl, inr, false, some, List, [], ◌∷◌, ◌++◌, arith, ◌==◌,
  if◌then◌else◌, Bool-cases,
}
use zylib.Nel.Connection.{
  Endpoint, service_connect, Connection, find_endpoint, erase_endpoint, put_endpoint, call,
  server_endpoint, add_new_socks, drop_sock, drop_socks,
}

-- How often a socket stands in a queue, or in the map.
abbrev pub count : ℕ → List ℕ → ℕ
count i [] = 0
count i (j ∷ js) = (if i == j then 1 else 0) + count i js

abbrev pub count_eps : ℕ → List (ℕ × Endpoint) → ℕ
count_eps i [] = 0
count_eps i ((key, ep) ∷ eps) = (if i == key then 1 else 0) + count_eps i eps

pub count-append : (i : ℕ) (xs ys : List ℕ) → count i (xs ++ ys) ≡ count i xs + count i ys
count-append i [] ys = omega arith
count-append i (x ∷ xs) ys = omega (arith, count-append i xs ys)

-- The same connection but for its map, its calls, and the queue that is being worked on.
pub record Same (c d : Connection) : Type 0 where
  pub retry : d.auto_retry ≡ c.auto_retry
  pub closed_sock : d.closed_sock ≡ c.closed_sock
  pub timeout_sock : d.timeout_sock ≡ c.timeout_sock
  pub server_new_sock : d.server_new_sock ≡ c.server_new_sock

pub count-erase :
    (i sock : ℕ) (eps : List (ℕ × Endpoint))
    → count_eps i (erase_endpoint sock eps) ≡ (if i == sock then 0 else count_eps i eps)
unfolding erase_endpoint
count-erase i sock [] = ground arith
count-erase i sock ((key, ep) ∷ eps) = ground (arith, count-erase i sock eps)

find-count :
    (sock : ℕ) (eps : List (ℕ × Endpoint))
    → 1 ≤ count_eps sock eps
    → (ep : Endpoint) × (find_endpoint sock eps ≡ some ep)
unfolding find_endpoint
find-count sock [] h = absurd (omega arith)
find-count sock ((key, ep) ∷ eps) h = elim (Bool-cases (key == sock)) [
  | inl e ↦ (ep, rw e refl)
  | inr e ↦ let (other, f) = find-count sock eps (ground arith) in (other, rw e f)
]

drop_sock-Same : (sock : ℕ) (ep : Endpoint) (c : Connection) → Same c (drop_sock sock ep c)
unfolding drop_sock call
drop_sock-Same sock ep c = ground arith

pub endpoints-drop_sock :
    (sock : ℕ) (ep : Endpoint) (c : Connection)
    → (drop_sock sock ep c).endpoints ≡ erase_endpoint sock c.endpoints
unfolding drop_sock call
endpoints-drop_sock sock ep c = ground arith

pub Same-trans : {c d e : Connection} → Same c d → Same d e → Same c e
Same-trans a b = record {
  retry = b.retry ∙ a.retry;
  closed_sock = b.closed_sock ∙ a.closed_sock;
  timeout_sock = b.timeout_sock ∙ a.timeout_sock;
  server_new_sock = b.server_new_sock ∙ a.server_new_sock;
}

-- The map without a socket that stands in it once.
count-erased :
    (i sock : ℕ) (socks : List ℕ) (eps : List (ℕ × Endpoint))
    → count i (sock ∷ socks) ≤ count_eps i eps
    → count_eps i eps ≤ 1
    → (count i socks ≤ count_eps i (erase_endpoint sock eps))
      × (count_eps i (erase_endpoint sock eps) ≤ 1)
      × (count_eps i (erase_endpoint sock eps) + (if i == sock then 1 else 0)
          ≡ (if i == sock then 1 else count_eps i eps))
count-erased i sock socks eps h one = ground (arith, count-erase i sock eps)

drop_socks-cons :
    (sock : ℕ) (socks : List ℕ) (ep : Endpoint) (c : Connection)
    → find_endpoint sock c.endpoints ≡ some ep
    → drop_socks (sock ∷ socks) c ≡ drop_socks socks (drop_sock sock ep c)
unfolding drop_socks
drop_socks-cons sock socks ep c e = rw (drop_socks, e) refl

-- Every socket of the queue is found, and leaves the map.
pub drop_socks-count :
    (socks : List ℕ) (c : Connection)
    → c.auto_retry ≡ false
    → ((i : ℕ) → count i socks ≤ count_eps i c.endpoints)
    → ((i : ℕ) → count_eps i c.endpoints ≤ 1)
    → (d : Connection) × (drop_socks socks c ≡ some d)
      × Same c d
      × ((i : ℕ) → count_eps i d.endpoints + count i socks ≡ count_eps i c.endpoints)
unfolding drop_socks
drop_socks-count [] c r h one = (
  c,
  refl,
  record { retry = refl; closed_sock = refl; timeout_sock = refl; server_new_sock = refl },
  λ i. omega arith,
)
drop_socks-count (sock ∷ socks) c r h one =
    let (ep, f) = find-count sock c.endpoints (ground (arith, h sock)) in
    let c' = drop_sock sock ep c in
    let e = endpoints-drop_sock sock ep c in
    let same = drop_sock-Same sock ep c in
    let (d, g, same', n) =
      drop_socks-count socks c' (same.retry ∙ r)
        (λ i. rw e (count-erased i sock socks c.endpoints (h i) (one i)).0)
        (λ i. rw e (count-erased i sock socks c.endpoints (h i) (one i)).1) in
    (
      d,
      drop_socks-cons sock socks ep c f ∙ g,
      Same-trans same same',
      λ i.
          let left = n i ∙ ap (count_eps i) e in
          let gone = (count-erased i sock socks c.endpoints (h i) (one i)).2 in
          ground (arith, h i, one i),
    )

pub add_new_socks-Same : (socks : List ℕ) (c : Connection) → Same c (add_new_socks socks c)
unfolding add_new_socks call
add_new_socks-Same [] c = ground arith
add_new_socks-Same (sock ∷ socks) c =
    let ih = add_new_socks-Same socks (
      call service_connect
        (record c { endpoints = put_endpoint sock (server_endpoint sock) c.endpoints })) in
    record {
      retry = ih.retry;
      closed_sock = ih.closed_sock;
      timeout_sock = ih.timeout_sock;
      server_new_sock = ih.server_new_sock;
    }

-- Every new socket comes into the map, where it was not.
pub add_new_socks-count :
    (socks : List ℕ) (c : Connection)
    → ((i : ℕ) → count i socks + count_eps i c.endpoints ≤ 1)
    → (i : ℕ)
    → count_eps i (add_new_socks socks c).endpoints ≡ count i socks + count_eps i c.endpoints
unfolding add_new_socks call put_endpoint
add_new_socks-count [] c one i = omega arith
add_new_socks-count (sock ∷ socks) c one i =
    let ih =
      add_new_socks-count socks
        (call service_connect
          (record c { endpoints = put_endpoint sock (server_endpoint sock) c.endpoints }))
        (λ j. ground (arith, one j, count-erase j sock c.endpoints)) i in
    ground (arith, one i, count-erase i sock c.endpoints)
