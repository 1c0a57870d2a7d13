-- ===== src/Vnet/Server/Members.antt =====
-- TcpServer of network/vnetwork/VNetwork.cpp: which sessions the map has.
use zylib.Prelude.{
  ℕ, suc, ◌+◌, ◌-◌, ◌%◌, ◌^◌, ◌≤◌, ◌<◌, ◌≡◌, refl, sym, ap, ◌∙◌, inl, inr, Bool, true, false, not,
  ◌&&◌, ◌||◌, Option, none, some, List, [], ◌∷◌, arith, ◌==◌, if◌then◌else◌, Bool-cases, length,
}
use native.Mathlib.Nat.{mod-eq_of_lt}
use zylib.Vnet.Message.{ChatMessage}
use zylib.Vnet.Session.{
  on_accepted, Session, Phase, no_read, reads_header, reads_body, Input, sends, read, wrote, closes,
  step, shutdown, call, header_read, body_read, do_read_header, do_read_body, do_write, async_send,
  async_send_bytes, written, written_on, on_read, new_session, start,
}
use zylib.Vnet.Session.Ending.{Sound, step-Sound, accepted-Sound}
use zylib.Vnet.Server.{
  Server, new_server, erase_index, session_join, next_index, accept, leave_after, step_at, Event,
  accepts, at, serve_event, run_server,
}

-- A step keeps the index, and a session that is closed stays so.
record Grows (s t : Session) : Type 0 where
  index : t.index ≡ s.index
  closed : s.closed ≡ true → t.closed ≡ true

shutdown-Grows : (s : Session) → Grows s (shutdown s)
unfolding shutdown call
shutdown-Grows s = ground arith

header_read-Grows : (bytes : Option (List ℕ)) (s : Session) → Grows s (header_read bytes s)
unfolding header_read shutdown call do_read_header do_read_body
header_read-Grows none s = ground arith
header_read-Grows (some bytes) s = ground arith

body_read-Grows : (bytes : Option (List ℕ)) (s : Session) → Grows s (body_read bytes s)
unfolding body_read shutdown call do_read_header
body_read-Grows none s = ground arith
body_read-Grows (some bytes) s = ground arith

on_read-Grows : (p : Phase) (bytes : Option (List ℕ)) (s : Session) → Grows s (on_read p bytes s)
unfolding on_read
on_read-Grows no_read bytes s = ground arith
on_read-Grows reads_header bytes s = header_read-Grows bytes s
on_read-Grows reads_body bytes s = body_read-Grows bytes s

written-Grows : (ok : Bool) (s : Session) → Grows s (written ok s)
unfolding written written_on do_write shutdown call
written-Grows ok s = on s.write_msgs ok
  where
    on : (ms : List ChatMessage) (ok : Bool) → Grows s (written_on ms ok s)
    on [] false = ground arith
    on (m ∷ ms) false = ground arith
    on [] true = ground arith
    on (m ∷ ms) true = ground arith

step-Grows : (s : Session) (i : Input) → Grows s (step s i)
unfolding step async_send_bytes async_send do_write
step-Grows s (sends bytes) = ground arith
step-Grows s (read bytes) = on_read-Grows s.reading bytes s
step-Grows s (wrote ok) = ground (arith, written-Grows ok s)
step-Grows s closes = shutdown-Grows s

-- The indices of the sessions that are open.
abbrev pub open_indices : List Session → List ℕ
open_indices [] = []
open_indices (s ∷ sessions) =
    let rest = open_indices sessions in if s.closed then rest else s.index ∷ rest

-- Sound sessions whose indices fall, from a bound on.
abbrev pub Falling : ℕ → List Session → Type 0
Falling n [] = Unit
Falling n (s ∷ sessions) = (s.index ≤ n) × (1 ≤ s.index) × Sound s × Falling (s.index - 1) sessions

erase_above :
    (idx n : ℕ) (ss : List Session)
    → Falling n ss
    → n < idx
    → erase_index idx (open_indices ss) ≡ open_indices ss
unfolding erase_index
erase_above idx n [] f h = refl
erase_above idx n (s ∷ ss) (le, pos, k, f) h = ground (arith, erase_above idx (s.index - 1) ss f)

Falling-mono : (m n : ℕ) (ss : List Session) → m ≤ n → Falling m ss → Falling n ss
Falling-mono m n [] h f = f
Falling-mono m n (s ∷ ss) h (le, pos, k, f) = (omega arith, pos, k, f)

leave_after-cons :
    (s t : Session) (j : ℕ) (indices : List ℕ)
    → (j == t.index) ≡ false
    → leave_after s t (j ∷ indices) ≡ j ∷ leave_after s t indices
unfolding leave_after erase_index
leave_after-cons s t j indices h = ground arith

step_at-cons :
    (idx j : ℕ) (i : Input) (ss : List Session) (indices : List ℕ)
    → (j == idx) ≡ false
    → step_at idx i ss (j ∷ indices)
      ≡ ((step_at idx i ss indices).0, j ∷ (step_at idx i ss indices).1)
unfolding step_at
step_at-cons idx j i [] indices h = refl
step_at-cons idx j i (s ∷ ss) indices h =
    let ih = step_at-cons idx j i ss indices h in
    elim (Bool-cases (s.index == idx)) [
      | inl e ↦
          let same = (step-Grows s i).index in
          let other : (j == (step s i).index) ≡ false = ground arith in
          rw e (ap (λ l. (step s i ∷ ss, l)) (leave_after-cons s (step s i) j indices other))
      | inr e ↦ rw (e, ih) refl
    ]

-- What the map has after a step of the session at the front.
leave_after-open :
    (n : ℕ) (s : Session) (i : Input) (ss : List Session)
    → Falling n (s ∷ ss)
    → leave_after s (step s i) (open_indices (s ∷ ss)) ≡ open_indices (step s i ∷ ss)
unfolding leave_after erase_index
leave_after-open n s i ss (le, pos, k, f) =
    let g = step-Grows s i in
    let k' = step-Sound s i k in
    let a = k.counted.left in
    let b = k'.counted.left in
    let gone = erase_above s.index (s.index - 1) ss f (omega arith) in
    elim (Bool-cases s.closed) [
      | inl c ↦ elim (Bool-cases (step s i).closed) [
        | inl d ↦ ground (arith, g.closed)
        | inr d ↦ ground (arith, g.closed)
      ]
      | inr c ↦ elim (Bool-cases (step s i).closed) [
        | inl d ↦ ground (arith, g.index)
        | inr d ↦ ground (arith, g.index)
      ]
    ]

Open : ℕ → List Session × List ℕ → Type 0
Open n (sessions, indices) = Falling n sessions × (indices ≡ open_indices sessions)

open_indices-closed :
    (s : Session) (ss : List Session) → s.closed ≡ true → open_indices (s ∷ ss) ≡ open_indices ss
open_indices-closed s ss c = ground arith

open_indices-open :
    (s : Session) (ss : List Session)
    → s.closed ≡ false
    → open_indices (s ∷ ss) ≡ s.index ∷ open_indices ss
open_indices-open s ss c = ground arith

-- The session at the front is another one.
passed-open :
    (idx : ℕ) (i : Input) (s : Session) (ss : List Session)
    → (s.index == idx) ≡ false
    → (step_at idx i ss (open_indices ss)).1 ≡ open_indices (step_at idx i ss (open_indices ss)).0
    → let r = step_at idx i ss (open_indices (s ∷ ss)) in
      (r.0 ≡ (step_at idx i ss (open_indices ss)).0) × (r.1 ≡ open_indices (s ∷ r.0))
passed-open idx i s ss e o = elim (Bool-cases s.closed) [
  | inl c ↦
      let a = open_indices-closed s ss c in
      let r = ap (step_at idx i ss) a in
      let z = ap (λ p. p.0) r in
      (
        z,
        ap (λ p. p.1) r
            ∙ o
            ∙ sym (ap open_indices z)
            ∙ sym (open_indices-closed s (step_at idx i ss (open_indices (s ∷ ss))).0 c),
      )
  | inr c ↦
      let a = open_indices-open s ss c in
      let r = ap (step_at idx i ss) a ∙ step_at-cons idx s.index i ss (open_indices ss) e in
      let z = ap (λ p. p.0) r in
      (
        z,
        ap (λ p. p.1) r
            ∙ ap (◌∷◌ s.index) (o ∙ sym (ap open_indices z))
            ∙ sym (open_indices-open s (step_at idx i ss (open_indices (s ∷ ss))).0 c),
      )
]

step_at-Open :
    (n idx : ℕ) (i : Input) (ss : List Session)
    → Falling n ss
    → Open n (step_at idx i ss (open_indices ss))
unfolding step_at Open
step_at-Open n idx i [] f = (f, refl)
step_at-Open n idx i (s ∷ ss) (le, pos, k, f) = elim (Bool-cases (s.index == idx)) [
  | inl e ↦
      let g = step-Grows s i in
      let f' : Falling ((step s i).index - 1) ss = rw g.index f in
      rw (step_at, e)
        (
          (omega (arith, g.index), omega (arith, g.index), step-Sound s i k, f'),
          leave_after-open n s i ss (le, pos, k, f),
        )
  | inr e ↦
      let (f', o) = step_at-Open (s.index - 1) idx i ss f in
      let (same, o') = passed-open idx i s ss e o in rw (step_at, e) ((le, pos, k, rw same f'), o')
]

-- The sessions have indices that fall from the generator on, and the map has the open ones.
record Members (v : Server) : Type 0 where
  falling : Falling v.index_generator v.sessions
  map : v.session_map ≡ open_indices v.sessions

accepted-index : (index : ℕ) → (call on_accepted (start (new_session index))).index ≡ index
unfolding new_session do_read_header call
accepted-index index = refl

accepted-closed : (index : ℕ) → (call on_accepted (start (new_session index))).closed ≡ false
unfolding new_session do_read_header call
accepted-closed index = refl

accept-Members : (v : Server) → suc v.index_generator < 2 ^ 63 → Members v → Members (accept v)
unfolding accept next_index session_join
accept-Members v small k =
    let idx = suc v.index_generator in
    let kept : idx % 2 ^ 64 ≡ idx = mod-eq_of_lt (omega arith) in
    let fresh = erase_above idx v.index_generator v.sessions k.falling (omega arith) in
    let below : Falling ((call on_accepted (start (new_session idx))).index - 1) v.sessions =
      rw (accepted-index idx)
        (Falling-mono v.index_generator (idx - 1) v.sessions (omega arith) k.falling) in
    let i = accepted-index idx in
    rw kept (record {
      falling = (omega (arith, i), omega (arith, i), accepted-Sound idx, below);
      map =
          ap (λ m. idx ∷ erase_index idx m) k.map
          ∙ ap (◌∷◌ idx) fresh
          ∙ sym (ap (λ j. j ∷ open_indices v.sessions) i)
          ∙ sym (
              open_indices-open (call on_accepted (start (new_session idx))) v.sessions
                (accepted-closed idx));
    })

-- How many sessions a history accepts.
abbrev pub accepted : List Event → ℕ
accepted [] = 0
accepted (accepts ∷ es) = suc (accepted es)
accepted (at idx i ∷ es) = accepted es

at-Members : (v : Server) (idx : ℕ) (i : Input) → Members v → Members (serve_event v (at idx i))
unfolding serve_event Open
at-Members v idx i k =
    let o = step_at-Open v.index_generator idx i v.sessions k.falling in
    rw k.map (record { falling = o.0; map = o.1 })

run_server-Members :
    (v : Server) (es : List Event)
    → v.index_generator + accepted es < 2 ^ 63
    → Members v
    → Members (run_server v es)
unfolding run_server serve_event accept next_index
run_server-Members v [] h k = k
run_server-Members v (accepts ∷ es) h k =
    let kept : suc v.index_generator % 2 ^ 64 ≡ suc v.index_generator =
      mod-eq_of_lt (omega arith) in
    run_server-Members (accept v) es (omega (arith, kept)) (accept-Members v (omega arith) k)
run_server-Members v (at idx i ∷ es) h k =
    run_server-Members (serve_event v (at idx i)) es h (at-Members v idx i k)

-- Whether a map has a key, and whether an open session has an index.
abbrev pub has_index : ℕ → List ℕ → Bool
has_index idx [] = false
has_index idx (j ∷ indices) = j == idx || has_index idx indices

abbrev pub has_open : ℕ → List Session → Bool
has_open idx [] = false
has_open idx (s ∷ sessions) = not s.closed && s.index == idx || has_open idx sessions

abbrev pub open_count : List Session → ℕ
open_count [] = 0
open_count (s ∷ sessions) = (if s.closed then 0 else 1) + open_count sessions

has_index-open_indices :
    (idx : ℕ) (ss : List Session) → has_index idx (open_indices ss) ≡ has_open idx ss
has_index-open_indices idx [] = refl
has_index-open_indices idx (s ∷ ss) = elim (Bool-cases s.closed) [
  | inl c ↦ rw c (has_index-open_indices idx ss)
  | inr c ↦ rw (c, has_index-open_indices idx ss) refl
]

length-open_indices : (ss : List Session) → length (open_indices ss) ≡ open_count ss
length-open_indices [] = refl
length-open_indices (s ∷ ss) = ground (arith, length-open_indices ss)

-- In any history of a server in which fewer than 2 ^ 63 sessions are accepted, and of these sessions, the map has
-- an index exactly if an open session has it, and as many sessions as are open.
pub run_server-open :
    (es : List Event) (idx : ℕ)
    → accepted es < 2 ^ 63
    → let v = run_server new_server es in
      (has_index idx v.session_map ≡ has_open idx v.sessions)
      × (length v.session_map ≡ open_count v.sessions)
unfolding new_server
run_server-open es idx h =
    let k = run_server-Members new_server es (omega arith) (record { falling = _; map = refl }) in
    let v = run_server new_server es in
    (
      ap (has_index idx) k.map ∙ has_index-open_indices idx v.sessions,
      ap length k.map ∙ length-open_indices v.sessions,
    )
