-- ===== src/Nel/Connection/Sockets.antt =====
-- UnifiedConnection of nel/UnifiedConnection.cpp with TSock::onClosed of nel/TSock.cpp: the connection
-- that a service has for its own server, which retries nothing, and the sockets that it accepts.
use zylib.Prelude.{
  ℕ, suc, ◌+◌, ◌≤◌, ◌<◌, ◌≡◌, refl, ap, ◌∙◌, Bool, true, false, ◌||◌, Option, none, some, List, [],
  ◌∷◌, arith, ltb, ◌==◌, if◌then◌else◌, ltb→lt,
}
use zylib.Nel.Connection.{
  Connection, new_connection, cb_server_accept, cb_sock_timeout, cb_sock_closed, add_new_socks,
  process_server_new_socket, update,
}
use zylib.Nel.Connection.Updates.{update_rest-Drained}
use zylib.Nel.Connection.Counts.{
  count, count_eps, add_new_socks-count, add_new_socks-Same, count-append,
}

-- m_is_closed is set of the sockets in `ended`, whose end was reported, and of those in `muted`, which the
-- service has shut down itself. The sockets that were accepted are 0, 1, 2, ...
pub record System : Type 0 where
  pub conn : Connection
  pub ended : List ℕ
  pub muted : List ℕ
  pub accepted : ℕ

abbrev pub has : ℕ → List ℕ → Bool
has i [] = false
has i (j ∷ js) = i == j || has i js

-- CLOSED_TYPE
pub data CloseType : Type 0 where
  normal timeout activity : CloseType

-- TSock::onClosed behind its test.
unfoldable pub report : CloseType → ℕ → System → System
report normal sock s = record s { conn = cb_sock_closed sock s.conn; ended = sock ∷ s.ended }
report timeout sock s = record s { conn = cb_sock_timeout sock s.conn; ended = sock ∷ s.ended }
report activity sock s = record s { muted = sock ∷ s.muted }

unfoldable pub on_closed : CloseType → ℕ → System → System
on_closed type sock s = if has sock s.ended || has sock s.muted then s else report type sock s

-- NetServer accepts a socket.
unfoldable pub accept : System → System
accept s = record s { conn = cb_server_accept s.accepted s.conn; accepted = suc s.accepted }

pub data Event : Type 0 where
  accepts updates : Event
  ends : CloseType → ℕ → Event

-- Only a socket that was accepted ends.
unfoldable pub step : (ℕ → Bool) → System → Event → Option System
step alive s accepts = some (accept s)
step alive s (ends type sock) = some (if ltb sock s.accepted then on_closed type sock s else s)
step alive s updates = elim (update alive alive s.conn) [
  | none ↦ none
  | some c ↦ some (record s { conn = c })
]

unfoldable pub run : (ℕ → Bool) → System → List Event → Option System
run alive s [] = some s
run alive s (e ∷ es) = elim (step alive s e) [ none ↦ none | some t ↦ run alive t es ]

unfoldable pub new_system : System
new_system = record { conn = new_connection false; ended = []; muted = []; accepted = 0 }

abbrev pub known : ℕ → System → ℕ
known i s = if ltb i s.accepted then 1 else 0

-- A socket that was accepted is on its way into the map or in it, until its end, which was reported once, has
-- been dealt with. The connection waits for nothing else.
pub record Kept (s : System) : Type 0 where
  pub once : (i : ℕ) → count i s.ended ≤ known i s
  pub reported :
      (i : ℕ) → count i s.conn.closed_sock + count i s.conn.timeout_sock ≤ count i s.ended
  pub mapped :
      (i : ℕ)
      → count i s.conn.server_new_sock + count_eps i s.conn.endpoints + count i s.ended
        ≡ count i s.conn.closed_sock + count i s.conn.timeout_sock + known i s
  pub plain : s.conn.auto_retry ≡ false

-- The map has a socket exactly if it was accepted and its end has not been reported.
abbrev pub Exact : System → Type 0
Exact s = (i : ℕ) → count_eps i s.conn.endpoints + count i s.ended ≡ known i s

pub known_le : (i : ℕ) (s : System) → known i s ≤ 1
known_le i s = ground arith

update-Exact :
    (alive : ℕ → Bool) (s : System)
    → Kept s
    → (c : Connection) × (update alive alive s.conn ≡ some c)
      × Kept (record s { conn = c })
      × Exact (record s { conn = c })
unfolding update process_server_new_socket
update-Exact alive s k =
    let c0 : Connection = record s.conn { server_new_sock = [] } in
    let b = add_new_socks s.conn.server_new_sock c0 in
    let same = add_new_socks-Same s.conn.server_new_sock c0 in
    let n =
      add_new_socks-count s.conn.server_new_sock c0
        (λ i. omega (arith, k.once i, k.reported i, k.mapped i, known_le i s)) in
    let (d, e, r, ec, et, en, nd) =
      update_rest-Drained alive b (same.retry ∙ k.plain)
        (λ i. omega (
          arith,
          k.once i,
          k.reported i,
          k.mapped i,
          known_le i s,
          n i,
          ap (count i) same.closed_sock,
          ap (count i) same.timeout_sock,
        ))
        (λ i. omega (arith, k.once i, k.reported i, k.mapped i, known_le i s, n i)) in
    let exact : Exact (record s { conn = d }) = λ i. omega (
      arith,
      k.once i,
      k.reported i,
      k.mapped i,
      known_le i s,
      n i,
      ap (count i) same.closed_sock,
      ap (count i) same.timeout_sock,
      nd i,
    ) in
    (
      d,
      e,
      record {
        once = k.once;
        reported = λ i. omega (arith, ap (count i) ec, ap (count i) et);
        mapped = λ i. omega (
          arith,
          exact i,
          ap (count i) ec,
          ap (count i) et,
          ap (count i) (en ∙ same.server_new_sock),
        );
        plain = r;
      },
      exact,
    )

has-count : (i : ℕ) (js : List ℕ) → has i js ≡ false → count i js ≡ 0
has-count i [] h = refl
has-count i (j ∷ js) h = ground (arith, has-count i js)

accept-Kept : (s : System) → Kept s → Kept (accept s)
unfolding accept cb_server_accept
accept-Kept s k = record {
  once = λ i. ground (arith, k.once i);
  reported = k.reported;
  mapped = λ i. ground (
    arith,
    k.mapped i,
    k.once i,
    k.reported i,
    count-append i s.conn.server_new_sock (s.accepted ∷ []),
  );
  plain = k.plain;
}

report-Kept :
    (type : CloseType) (sock : ℕ) (s : System)
    → sock < s.accepted
    → count sock s.ended ≡ 0
    → Kept s
    → Kept (report type sock s)
unfolding report cb_sock_timeout cb_sock_closed
report-Kept normal sock s h z k = record {
  once = λ i. ground (arith, k.once i);
  reported = λ i. ground (arith, k.reported i, count-append i s.conn.closed_sock (sock ∷ []));
  mapped = λ i. ground (arith, k.mapped i, count-append i s.conn.closed_sock (sock ∷ []));
  plain = k.plain;
}
report-Kept timeout sock s h z k = record {
  once = λ i. ground (arith, k.once i);
  reported = λ i. ground (arith, k.reported i, count-append i s.conn.timeout_sock (sock ∷ []));
  mapped = λ i. ground (arith, k.mapped i, count-append i s.conn.timeout_sock (sock ∷ []));
  plain = k.plain;
}
report-Kept activity sock s h z k = record {
  once = k.once;
  reported = k.reported;
  mapped = k.mapped;
  plain = k.plain;
}

on_closed-Kept :
    (type : CloseType) (sock : ℕ) (s : System)
    → sock < s.accepted
    → Kept s
    → Kept (on_closed type sock s)
unfolding on_closed
on_closed-Kept type sock s h k = ended (has sock s.ended) (has sock s.muted) refl
  where
    ended : (b m : Bool) → has sock s.ended ≡ b → Kept (if b || m then s else report type sock s)
    ended true m e = k
    ended false true e = k
    ended false false e = report-Kept type sock s h (has-count sock s.ended e) k

step-Kept :
    (alive : ℕ → Bool) (s : System) (e : Event)
    → Kept s
    → (t : System) × (step alive s e ≡ some t) × Kept t
unfolding step
step-Kept alive s accepts k = (accept s, refl, accept-Kept s k)
step-Kept alive s updates k =
    let (c, e, k', x) = update-Exact alive s k in (record s { conn = c }, rw (step, e) refl, k')
step-Kept alive s (ends type sock) k = (_, refl, known_only (ltb sock s.accepted) refl)
  where
    known_only :
        (b : Bool) → ltb sock s.accepted ≡ b → Kept (if b then on_closed type sock s else s)
    known_only true e = on_closed-Kept type sock s (ltb→lt sock s.accepted e) k
    known_only false e = k

run-Kept :
    (alive : ℕ → Bool) (s : System) (es : List Event)
    → Kept s
    → (t : System) × (run alive s es ≡ some t) × Kept t
unfolding run
run-Kept alive s [] k = (s, refl, k)
run-Kept alive s (e ∷ es) k =
    let (t, f, kt) = step-Kept alive s e k in
    let (u, g, ku) = run-Kept alive t es kt in (u, rw (run, f) g, ku)

pub new_system-Kept : Kept new_system
unfolding new_system new_connection
new_system-Kept = record {
  once = λ i. ground arith;
  reported = λ i. ground arith;
  mapped = λ i. ground arith;
  plain = refl;
}

-- Whatever sockets the server accepts, and however they end, no assertion of `update` fails if the io thread
-- does nothing while it runs; and after one more `update` the map has a socket exactly if it was accepted
-- and its end has not been reported, which is never done of a socket that the service shuts down.
pub run-Exact :
    (alive : ℕ → Bool) (es : List Event)
    → (s : System) × (run alive new_system es ≡ some s)
      × (t : System) × (step alive s updates ≡ some t)
      × ((i : ℕ) → count_eps i t.conn.endpoints + count i t.ended ≡ known i t)
unfolding step
run-Exact alive es =
    let (s, e, k) = run-Kept alive new_system es new_system-Kept in
    let (c, f, k', x) = update-Exact alive s k in
    (s, e, record s { conn = c }, rw (step, f) refl, x)
