-- ===== src/Knet/Rpc/Late.antt =====
-- knet/RPCManager.cpp: no call times out after it has been answered.
use zylib.Prelude.{
  ℕ, ◌+◌, ◌%◌, ◌^◌, ◌≤◌, ◌<◌, ◌≡◌, refl, ap, ◌∙◌, inl, inr, Bool, true, false, Option, none, some,
  List, [], ◌∷◌, ◌++◌, arith, ◌==◌, if◌then◌else◌, Bool-cases,
}
use mathlib.Core.Path.{subst}
use zylib.Knet.Rpc.{
  Rpc, Slot, Report, answered, timed_out, unclaimed, report, new_rpc, take_at, insert_slot,
  cancel_timer, tick_timer, tick_timers, rpc_received_msg, process_msgs, add_timer, start_timer,
  append_rpc_context, async_rpc, timer_tick, cb_event, process_msg, cb_received_msg, Input, call,
  arrives, fires, ticks, processes, step, run,
}
use zylib.Knet.Rpc.Measures.{same, answers, timeouts, timed, Takes, take_at-Takes, timeouts-append}
use zylib.Knet.Rpc.Once.{Once, tick_timer-Once, rpc_received_msg-Once, queues-Once}
use zylib.Knet.Rpc.Calls.{calls, async_rpc-Once, new_rpc-Once}
use zylib.Knet.Rpc.Ties.{
  Tied, Leaves, owns, timed-waiting, taken-Tied, cancelled-Tied, called-Tied, held-insert_slot,
}

-- The pairs of an answer to a call and a timeout of it that comes later.
abbrev pub late : ℕ → List Report → ℕ
late k [] = 0
late k (answered j ∷ es) = (if j == k then timeouts k es else 0) + late k es
late k (timed_out j ∷ es) = late k es
late k (unclaimed j ∷ es) = late k es

late-answered : (k j : ℕ) (es : List Report) → late k (es ++ answered j ∷ []) ≡ late k es
late-answered k j [] = ground arith
late-answered k j (answered i ∷ es) =
    ground (arith, late-answered k j es, timeouts-append k es (answered j ∷ []))
late-answered k j (timed_out i ∷ es) = late-answered k j es
late-answered k j (unclaimed i ∷ es) = late-answered k j es

late-unclaimed : (k j : ℕ) (es : List Report) → late k (es ++ unclaimed j ∷ []) ≡ late k es
late-unclaimed k j [] = refl
late-unclaimed k j (answered i ∷ es) =
    ground (arith, late-unclaimed k j es, timeouts-append k es (unclaimed j ∷ []))
late-unclaimed k j (timed_out i ∷ es) = late-unclaimed k j es
late-unclaimed k j (unclaimed i ∷ es) = late-unclaimed k j es

-- A timeout of another call, or of one that has not been answered.
late-timed_out :
    (k j : ℕ) (es : List Report)
    → (1 ≤ same j k → answers k es ≡ 0)
    → late k (es ++ timed_out j ∷ []) ≡ late k es
late-timed_out k j [] h = refl
late-timed_out k j (answered i ∷ es) h =
    let ih = late-timed_out k j es (λ l. omega (arith, h l)) in
    elim (Bool-cases (j == k)) [
      | inl b ↦
          let unanswered : same i k + answers k es ≡ 0 = h (ground arith) in
          ground (arith, ih, unanswered)
      | inr b ↦ ground (arith, ih, timeouts-append k es (timed_out j ∷ []))
    ]
late-timed_out k j (timed_out i ∷ es) h = late-timed_out k j es h
late-timed_out k j (unclaimed i ∷ es) h = late-timed_out k j es h

record Prompt (n : ℕ) (r : Rpc) : Type 0 where
  pub once : Once n r
  pub tied : Tied r.slots r.timers r.next_timer
  pub on_time : (k : ℕ) → late k r.reports ≡ 0

tick_timer-Prompt : (n : ℕ) (r : Rpc) (hdl : ℕ) → Prompt n r → Prompt n (tick_timer r hdl)
unfolding tick_timer
tick_timer-Prompt n r hdl p =
    go (take_at hdl r.timers) (λ m. take_at-Takes m hdl r.timers) (tick_timer-Once n r hdl p.once)
  where
    go :
        (t : Option (ℕ × List (ℕ × ℕ)))
        → ((m : ℕ → ℕ → ℕ) → Takes m hdl r.timers t)
        → let q : Rpc = elim t [
          | none ↦ r
          | some (key, rest) ↦ record (report r (timed_out key)) { timers = rest }
        ] in
          Once n q → Prompt n q
    go none h o = p
    go (some (key, rest)) h o = record {
      once = o;
      tied = taken-Tied hdl key r.next_timer r.slots r.timers rest h p.tied;
      on_time = λ k. late-timed_out k key r.reports (unanswered k) ∙ p.on_time k;
    }
      where
        unanswered : (k : ℕ) → 1 ≤ same key k → answers k r.reports ≡ 0
        unanswered k l =
            let timer : 1 ≤ timed k r.timers = omega (arith, h (λ g j. same j k)) in
            omega
              (arith, p.once.answer k, timed-waiting k r.next_timer r.slots r.timers p.tied timer)

tick_timers-Prompt : (n : ℕ) (r : Rpc) (hdls : List ℕ) → Prompt n r → Prompt n (tick_timers r hdls)
unfolding tick_timers
tick_timers-Prompt n r [] p = p
tick_timers-Prompt n r (hdl ∷ hdls) p =
    tick_timers-Prompt n (tick_timer r hdl) hdls (tick_timer-Prompt n r hdl p)

cancel_timer-reports : (r : Rpc) (hdl : Option ℕ) → (cancel_timer r hdl).reports ≡ r.reports
unfolding cancel_timer
cancel_timer-reports r none = refl
cancel_timer-reports r (some hdl) =
    elim (take_at hdl r.timers)
      as (λ t.
        let q : Rpc = elim t [ none ↦ r | some (key, rest) ↦ record r { timers = rest } ] in
        q.reports ≡ r.reports) [ none ↦ refl | some (key, rest) ↦ refl ]

rpc_received_msg-Prompt :
    (n : ℕ) (r : Rpc) (key : ℕ) → Prompt n r → Prompt n (rpc_received_msg r key)
unfolding rpc_received_msg
rpc_received_msg-Prompt n r key p =
    go (take_at key r.slots) (λ m. take_at-Takes m key r.slots)
      (rpc_received_msg-Once n r key p.once)
  where
    answer :
        (success : Bool) (hdl : Option ℕ) (rest : List (ℕ × Slot))
        → Leaves key hdl rest r.slots
        → let called = if success then report r (answered key) else r in
          let q : Rpc = record (cancel_timer called hdl) { slots = rest } in Once n q → Prompt n q
    answer true hdl rest h o = record {
      once = o;
      tied = cancelled-Tied (report r (answered key)) hdl key r.slots rest h p.tied;
      on_time = λ k.
          ap (late k) (cancel_timer-reports (report r (answered key)) hdl)
          ∙ late-answered k key r.reports
          ∙ p.on_time k;
    }
    answer false hdl rest h o = record {
      once = o;
      tied = cancelled-Tied r hdl key r.slots rest h p.tied;
      on_time = λ k. ap (late k) (cancel_timer-reports r hdl) ∙ p.on_time k;
    }

    go :
        (t : Option (Slot × List (ℕ × Slot)))
        → ((m : ℕ → Slot → ℕ) → Takes m key r.slots t)
        → let q : Rpc = elim t [
          | none ↦ report r (unclaimed key)
          | some (slot, rest) ↦
              let called = if slot.success_cb then report r (answered key) else r in
              record (cancel_timer called slot.timer_hdl) { slots = rest }
        ] in
          Once n q → Prompt n q
    go none h o = record {
      once = o;
      tied = p.tied;
      on_time = λ k. late-unclaimed k key r.reports ∙ p.on_time k;
    }
    go (some (slot, rest)) h o =
        answer slot.success_cb slot.timer_hdl rest
          (λ k i. h (λ j s. if j == k then owns s.timer_hdl i else 0)) o

process_msgs-Prompt :
    (n : ℕ) (r : Rpc) (keys : List ℕ) → Prompt n r → Prompt n (process_msgs r keys)
unfolding process_msgs
process_msgs-Prompt n r [] p = p
process_msgs-Prompt n r (key ∷ keys) p =
    process_msgs-Prompt n (rpc_received_msg r key) keys (rpc_received_msg-Prompt n r key p)

insert_slot-Tied :
    (key next : ℕ) (s : Slot) (slots : List (ℕ × Slot)) (timers : List (ℕ × ℕ))
    → Tied slots timers next
    → Tied (insert_slot key s slots) timers next
insert_slot-Tied key next s slots timers t = record {
  linked = λ k h. omega (arith, t.linked k h, held-insert_slot k h key s slots);
  single = t.single;
  fresh = t.fresh;
}

append_rpc_context-Prompt :
    (n : ℕ) (r : Rpc) (context : Option (Bool × Bool))
    → Prompt n r
    → let q : Rpc = append_rpc_context (record r { key_sequence_id = n + 1 }) (n + 1) context in
      Once (n + 1) q → Prompt (n + 1) q
unfolding append_rpc_context start_timer add_timer
append_rpc_context-Prompt n r none p o = record { once = o; tied = p.tied; on_time = p.on_time }
append_rpc_context-Prompt n r (some (success, false)) p o = record {
  once = o;
  tied = insert_slot-Tied (n + 1) r.next_timer _ r.slots r.timers p.tied;
  on_time = p.on_time;
}
append_rpc_context-Prompt n r (some (success, true)) p o = record {
  once = o;
  tied =
      called-Tied (n + 1) r.next_timer success r.slots r.timers
        (omega (arith, p.once.no_answer (n + 1) (omega arith))) p.tied;
  on_time = p.on_time;
}

async_rpc-Prompt :
    (n : ℕ) (r : Rpc) (context : Option (Bool × Bool))
    → Prompt n r
    → n + 1 < 2 ^ 64
    → Prompt (n + 1) (async_rpc r context)
unfolding async_rpc
async_rpc-Prompt n r context p l =
    let key : (r.key_sequence_id + 1) % 2 ^ 64 ≡ n + 1 = omega (arith, p.once.made) in
    let o : Once (n + 1) (async_rpc r context) = async_rpc-Once n r context p.once l in
    rw key (
      append_rpc_context-Prompt n r context p (
        subst (λ x. Once (n + 1) (append_rpc_context (record r { key_sequence_id = x }) x context))
          key o))

queues-Prompt :
    (n : ℕ) (r : Rpc) (received queue : List ℕ)
    → Prompt n r
    → Prompt n (record r { received_msgs = received; timeout_timers = queue })
queues-Prompt n r received queue p = record {
  once = queues-Once n r received queue p.once;
  tied = p.tied;
  on_time = p.on_time;
}

-- A step, which makes a call or none.
step-Prompt :
    (n : ℕ) (r : Rpc) (i : Input)
    → Prompt n r
    → n + calls (i ∷ []) < 2 ^ 64
    → (m : ℕ) × (m ≡ n + calls (i ∷ [])) × Prompt m (step r i)
unfolding step cb_received_msg cb_event timer_tick process_msg
step-Prompt n r (call context) p l =
    (n + 1, omega arith, async_rpc-Prompt n r context p (omega (arith, l)))
step-Prompt n r (arrives none) p l = (n, omega arith, p)
step-Prompt n r (arrives (some key)) p l =
    (n, omega arith, queues-Prompt n r (r.received_msgs ++ key ∷ []) r.timeout_timers p)
step-Prompt n r (fires hdl) p l =
    (n, omega arith, queues-Prompt n r r.received_msgs (r.timeout_timers ++ hdl ∷ []) p)
step-Prompt n r ticks p l = (
  n,
  omega arith,
  tick_timers-Prompt n _ r.timeout_timers (queues-Prompt n r r.received_msgs [] p),
)
step-Prompt n r processes p l = (
  n,
  omega arith,
  process_msgs-Prompt n _ r.received_msgs (queues-Prompt n r [] r.timeout_timers p),
)

calls-cons : (i : Input) (is : List Input) → calls (i ∷ is) ≡ calls (i ∷ []) + calls is
calls-cons (call context) is = omega arith
calls-cons (arrives key) is = omega arith
calls-cons (fires hdl) is = omega arith
calls-cons ticks is = omega arith
calls-cons processes is = omega arith

run-Prompt :
    (n : ℕ) (r : Rpc) (is : List Input)
    → Prompt n r
    → n + calls is < 2 ^ 64
    → (m : ℕ) × Prompt m (run r is)
unfolding run
run-Prompt n r [] p l = (n, p)
run-Prompt n r (i ∷ is) p l =
    let (m, e, q) = step-Prompt n r i p (omega (arith, calls-cons i is)) in
    run-Prompt m (step r i) is q (omega (arith, calls-cons i is, e))

new_rpc-Prompt : Prompt 0 new_rpc
unfolding new_rpc
new_rpc-Prompt = record {
  once = new_rpc-Once;
  tied = record { linked = λ k h. omega arith; single = λ h. omega arith; fresh = λ h l. refl };
  on_time = λ k. refl;
}

-- In every history of less than 2 ^ 64 calls, no call is reported as timed out after it has been
-- reported as answered, whatever timers have fired and wait for their round.
pub run-late : (is : List Input) (k : ℕ) → calls is < 2 ^ 64 → late k (run new_rpc is).reports ≡ 0
run-late is k l =
    let (m, p) = run-Prompt 0 new_rpc is new_rpc-Prompt (omega (arith, l)) in p.on_time k
