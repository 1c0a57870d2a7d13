-- ===== src/Knet/Rpc/Calls.antt =====
-- Whole histories of calls, answers and timeouts.
use zylib.Prelude.{
  ℕ, suc, ◌+◌, ◌%◌, ◌^◌, ◌≤◌, ◌<◌, ◌≡◌, refl, ap, inl, inr, Bool, true, false, Option, none, some,
  List, [], ◌∷◌, ◌++◌, arith, ltb, ltb→lt, ltb→ge, Bool-cases,
}
use mathlib.Core.Path.{subst}
use zylib.Knet.Rpc.{
  Rpc, new_rpc, add_timer, start_timer, append_rpc_context, async_rpc, timer_tick, cb_event,
  process_msg, cb_received_msg, Input, call, arrives, fires, ticks, processes, step, run,
}
use zylib.Knet.Rpc.Once.{Once, tick_timers-Once, queues-Once, process_msgs-Once}
use zylib.Knet.Rpc.Measures.{
  same, answers, timeouts, waiting, timed, total-append, waiting-insert_slot,
}

same-le : (a b : ℕ) → same a b ≤ 1
same-le a b = ground arith

same_less : (a b : ℕ) → a < b → same a b ≡ 0
same_less a b h = ground arith

same_more : (a b : ℕ) → b < a → same a b ≡ 0
same_more a b h = ground arith

-- One more for a new call.
one_more :
    (n k old : ℕ)
    → old ≤ 1
    → (n < k → old ≡ 0)
    → (old + same (n + 1) k ≤ 1) × (n + 1 < k → old + same (n + 1) k ≡ 0)
one_more n k old h z = elim (Bool-cases (ltb n k)) [
  | inr e ↦
      let l : k ≤ n = ltb→ge n k e in
      let other : same (n + 1) k ≡ 0 = same_more (n + 1) k (omega arith) in
      (omega arith, λ m. absurd (omega arith))
  | inl e ↦
      let none_yet : old ≡ 0 = z (ltb→lt n k e) in
      let one = same-le (n + 1) k in
      (omega (arith, none_yet, one), λ m. omega (arith, none_yet, same_less (n + 1) k m))
]

-- One less than that may be added.
at_most :
    (n k old new : ℕ)
    → old ≤ 1
    → (n < k → old ≡ 0)
    → new ≤ old + same (n + 1) k
    → (new ≤ 1) × (n + 1 < k → new ≡ 0)
at_most n k old new h z l =
    (omega (arith, (one_more n k old h z).0, l), λ m. omega (arith, (one_more n k old h z).1 m, l))

-- A call with the next key.
called-Once :
    (n : ℕ) (r q : Rpc)
    → Once n r
    → q.key_sequence_id ≡ n + 1
    → q.reports ≡ r.reports
    → ((k : ℕ) → waiting k q.slots ≤ waiting k r.slots + same (n + 1) k)
    → ((k : ℕ) → timed k q.timers ≤ timed k r.timers + same (n + 1) k)
    → Once (n + 1) q
called-Once n r q o made e w t = record {
  made = made;
  answer = λ k. (answer_of k).0;
  timeout = λ k. (timeout_of k).0;
  no_answer = λ k. (answer_of k).1;
  no_timeout = λ k. (timeout_of k).1;
}
  where
    answer_of :
        (k : ℕ)
        → (answers k q.reports + waiting k q.slots ≤ 1)
          × (n + 1 < k → answers k q.reports + waiting k q.slots ≡ 0)
    answer_of k =
        at_most n k (answers k r.reports + waiting k r.slots)
          (answers k q.reports + waiting k q.slots) (o.answer k) (o.no_answer k)
          (omega (arith, w k, ap (answers k) e))

    timeout_of :
        (k : ℕ)
        → (timeouts k q.reports + timed k q.timers ≤ 1)
          × (n + 1 < k → timeouts k q.reports + timed k q.timers ≡ 0)
    timeout_of k =
        at_most n k (timeouts k r.reports + timed k r.timers)
          (timeouts k q.reports + timed k q.timers) (o.timeout k) (o.no_timeout k)
          (omega (arith, t k, ap (timeouts k) e))

append_rpc_context-Once :
    (n : ℕ) (r : Rpc) (context : Option (Bool × Bool))
    → Once n r
    → Once (n + 1) (append_rpc_context (record r { key_sequence_id = n + 1 }) (n + 1) context)
unfolding append_rpc_context start_timer add_timer
append_rpc_context-Once n r none o =
    called-Once n r (record r { key_sequence_id = n + 1 }) o refl refl (λ k. omega arith)
      (λ k. omega arith)
append_rpc_context-Once n r (some (success, false)) o =
    called-Once n r _ o refl refl (λ k. waiting-insert_slot k (n + 1) _ r.slots) (λ k. omega arith)
append_rpc_context-Once n r (some (success, true)) o =
    called-Once n r _ o refl refl (λ k. waiting-insert_slot k (n + 1) _ r.slots)
      (λ k. omega (arith, total-append (λ hdl j. same j k) r.timers ((r.next_timer, n + 1) ∷ [])))

pub async_rpc-Once :
    (n : ℕ) (r : Rpc) (context : Option (Bool × Bool))
    → Once n r
    → n + 1 < 2 ^ 64
    → Once (n + 1) (async_rpc r context)
unfolding async_rpc
async_rpc-Once n r context o l =
    let key : (r.key_sequence_id + 1) % 2 ^ 64 ≡ n + 1 = omega (arith, o.made) in
    rw key (append_rpc_context-Once n r context o)

-- How many calls a history makes.
abbrev pub calls : List Input → ℕ
calls [] = 0
calls (call context ∷ is) = suc (calls is)
calls (arrives key ∷ is) = calls is
calls (fires hdl ∷ is) = calls is
calls (ticks ∷ is) = calls is
calls (processes ∷ is) = calls is

run-Once :
    (n : ℕ) (r : Rpc) (is : List Input)
    → Once n r
    → n + calls is < 2 ^ 64
    → Once (n + calls is) (run r is)
unfolding run step cb_received_msg cb_event timer_tick process_msg
run-Once n r [] o l = subst (λ m. Once m r) same_count o
  where
    same_count : n ≡ n + 0
    same_count = omega arith
run-Once n r (call context ∷ is) o l =
    subst (λ m. Once m (run (async_rpc r context) is)) (shift n (calls is))
      (run-Once (n + 1) (async_rpc r context) is (async_rpc-Once n r context o (omega arith))
        (omega arith))
  where
    shift : (a b : ℕ) → a + 1 + b ≡ a + suc b
    shift a b = omega arith
run-Once n r (arrives none ∷ is) o l = run-Once n r is o l
run-Once n r (arrives (some key) ∷ is) o l =
    run-Once n _ is (queues-Once n r (r.received_msgs ++ key ∷ []) r.timeout_timers o) l
run-Once n r (fires hdl ∷ is) o l =
    run-Once n _ is (queues-Once n r r.received_msgs (r.timeout_timers ++ hdl ∷ []) o) l
run-Once n r (ticks ∷ is) o l =
    run-Once n _ is (tick_timers-Once n _ r.timeout_timers (queues-Once n r r.received_msgs [] o)) l
run-Once n r (processes ∷ is) o l =
    run-Once n _ is (process_msgs-Once n _ r.received_msgs (queues-Once n r [] r.timeout_timers o))
      l

pub new_rpc-Once : Once 0 new_rpc
unfolding new_rpc
new_rpc-Once = record {
  made = refl;
  answer = λ k. omega arith;
  timeout = λ k. omega arith;
  no_answer = λ k l. omega arith;
  no_timeout = λ k l. omega arith;
}

-- In every history of less than 2 ^ 64 calls, the answer to each call is reported once at most, however
-- many answers arrive, and its timeout once at most, however often its timer fires.
pub run-answers :
    (is : List Input) (k : ℕ)
    → calls is < 2 ^ 64
    → (answers k (run new_rpc is).reports ≤ 1) × (timeouts k (run new_rpc is).reports ≤ 1)
run-answers is k l =
    let o = run-Once 0 new_rpc is new_rpc-Once (omega (arith, l)) in
    (omega (arith, o.answer k), omega (arith, o.timeout k))
