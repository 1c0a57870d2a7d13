-- ===== src/Knet/Rpc/Once.antt =====
-- How often a call is answered, and how often it times out.
use zylib.Prelude.{
  ℕ, ◌+◌, ◌≤◌, ◌<◌, ◌≡◌, refl, Bool, true, false, Option, none, some, List, [], ◌∷◌, arith,
  if◌then◌else◌,
}
use mathlib.Core.Path.{subst}
use zylib.Knet.Rpc.{
  Rpc, Slot, answered, timed_out, unclaimed, report, take_at, cancel_timer, tick_timer, tick_timers,
  process_msgs, rpc_received_msg,
}
use zylib.Knet.Rpc.Measures.{
  same, answers, timeouts, waiting, timed, Takes, take_at-Takes, answers-append, timeouts-append,
}

-- Where `n` calls have been made, each of them is waiting or answered once at most, and timed or timed
-- out once at most, and no other call is.
pub record Once (n : ℕ) (r : Rpc) : Type 0 where
  pub made : r.key_sequence_id ≡ n
  pub answer : (k : ℕ) → answers k r.reports + waiting k r.slots ≤ 1
  pub timeout : (k : ℕ) → timeouts k r.reports + timed k r.timers ≤ 1
  pub no_answer : (k : ℕ) → n < k → answers k r.reports + waiting k r.slots ≡ 0
  pub no_timeout : (k : ℕ) → n < k → timeouts k r.reports + timed k r.timers ≡ 0

cancel_timer-Once : (n : ℕ) (r : Rpc) (hdl : Option ℕ) → Once n r → Once n (cancel_timer r hdl)
unfolding cancel_timer
cancel_timer-Once n r none o = o
cancel_timer-Once n r (some hdl) o =
    go (take_at hdl r.timers) (λ k. take_at-Takes (λ h j. same j k) hdl r.timers)
  where
    go :
        (t : Option (ℕ × List (ℕ × ℕ)))
        → ((k : ℕ) → Takes (λ h j. same j k) hdl r.timers t)
        → Once n (elim t [ none ↦ r | some (key, rest) ↦ record r { timers = rest } ])
    go none h = o
    go (some (key, rest)) h = record {
      made = o.made;
      answer = o.answer;
      timeout = λ k. omega (arith, h k, o.timeout k);
      no_answer = o.no_answer;
      no_timeout = λ k l. omega (arith, h k, o.no_timeout k l);
    }

pub tick_timer-Once : (n : ℕ) (r : Rpc) (hdl : ℕ) → Once n r → Once n (tick_timer r hdl)
unfolding tick_timer
tick_timer-Once n r hdl o =
    go (take_at hdl r.timers) (λ k. take_at-Takes (λ h j. same j k) hdl r.timers)
  where
    go :
        (t : Option (ℕ × List (ℕ × ℕ)))
        → ((k : ℕ) → Takes (λ h j. same j k) hdl r.timers t)
        → Once n (elim t [
          | none ↦ r
          | some (key, rest) ↦ record (report r (timed_out key)) { timers = rest }
        ])
    go none h = o
    go (some (key, rest)) h = record {
      made = o.made;
      answer = λ k. omega (arith, answers-append k r.reports (timed_out key ∷ []), o.answer k);
      timeout =
          λ k. omega (arith, h k, timeouts-append k r.reports (timed_out key ∷ []), o.timeout k);
      no_answer =
          λ k l. omega (arith, answers-append k r.reports (timed_out key ∷ []), o.no_answer k l);
      no_timeout = λ k l.
          omega (arith, h k, timeouts-append k r.reports (timed_out key ∷ []), o.no_timeout k l);
    }

pub tick_timers-Once : (n : ℕ) (r : Rpc) (hdls : List ℕ) → Once n r → Once n (tick_timers r hdls)
unfolding tick_timers
tick_timers-Once n r [] o = o
tick_timers-Once n r (hdl ∷ hdls) o =
    tick_timers-Once n (tick_timer r hdl) hdls (tick_timer-Once n r hdl o)

-- The queues do not matter.
pub queues-Once :
    (n : ℕ) (r : Rpc) (received queue : List ℕ)
    → Once n r
    → Once n (record r { received_msgs = received; timeout_timers = queue })
queues-Once n r received queue o = record {
  made = o.made;
  answer = o.answer;
  timeout = o.timeout;
  no_answer = o.no_answer;
  no_timeout = o.no_timeout;
}

-- A slot that is taken out may be reported as answered.
answered-Once :
    (n : ℕ) (r : Rpc) (key : ℕ) (success : Bool) (rest : List (ℕ × Slot))
    → ((k : ℕ) → waiting k rest + same key k ≡ waiting k r.slots)
    → Once n r
    → Once n (record (if success then report r (answered key) else r) { slots = rest })
answered-Once n r key false rest h o = record {
  made = o.made;
  answer = λ k. omega (arith, h k, o.answer k);
  timeout = o.timeout;
  no_answer = λ k l. omega (arith, h k, o.no_answer k l);
  no_timeout = o.no_timeout;
}
answered-Once n r key true rest h o = record {
  made = o.made;
  answer = λ k. omega (arith, h k, answers-append k r.reports (answered key ∷ []), o.answer k);
  timeout = λ k. omega (arith, timeouts-append k r.reports (answered key ∷ []), o.timeout k);
  no_answer =
      λ k l. omega (arith, h k, answers-append k r.reports (answered key ∷ []), o.no_answer k l);
  no_timeout =
      λ k l. omega (arith, timeouts-append k r.reports (answered key ∷ []), o.no_timeout k l);
}

unclaimed-Once : (n : ℕ) (r : Rpc) (key : ℕ) → Once n r → Once n (report r (unclaimed key))
unclaimed-Once n r key o = record {
  made = o.made;
  answer = λ k. omega (arith, answers-append k r.reports (unclaimed key ∷ []), o.answer k);
  timeout = λ k. omega (arith, timeouts-append k r.reports (unclaimed key ∷ []), o.timeout k);
  no_answer =
      λ k l. omega (arith, answers-append k r.reports (unclaimed key ∷ []), o.no_answer k l);
  no_timeout =
      λ k l. omega (arith, timeouts-append k r.reports (unclaimed key ∷ []), o.no_timeout k l);
}

pub cancel_timer-slots :
    (r : Rpc) (hdl : Option ℕ) (slots : List (ℕ × Slot))
    → cancel_timer (record r { slots = slots }) hdl ≡ record (cancel_timer r hdl) { slots = slots }
unfolding cancel_timer
cancel_timer-slots r none slots = refl
cancel_timer-slots r (some hdl) slots =
    elim (take_at hdl r.timers)
      as (λ t.
        Path Rpc
          (elim t [
            | none ↦ record r { slots = slots }
            | some (key, rest) ↦ record r { slots = slots; timers = rest }
          ])
          (record (elim t [ none ↦ r | some (key, rest) ↦ record r { timers = rest } ]) {
            slots = slots;
          })) [ none ↦ refl | some (key, rest) ↦ refl ]

pub rpc_received_msg-Once : (n : ℕ) (r : Rpc) (key : ℕ) → Once n r → Once n (rpc_received_msg r key)
unfolding rpc_received_msg
rpc_received_msg-Once n r key o =
    go (take_at key r.slots) (λ k. take_at-Takes (λ j s. same j k) key r.slots)
  where
    go :
        (t : Option (Slot × List (ℕ × Slot)))
        → ((k : ℕ) → Takes (λ j s. same j k) key r.slots t)
        → Once n (elim t [
          | none ↦ report r (unclaimed key)
          | some (slot, rest) ↦
              let called = if slot.success_cb then report r (answered key) else r in
              record (cancel_timer called slot.timer_hdl) { slots = rest }
        ])
    go none h = unclaimed-Once n r key o
    go (some (slot, rest)) h =
        subst (Once n)
          (cancel_timer-slots (if slot.success_cb then report r (answered key) else r)
            slot.timer_hdl rest)
          (cancel_timer-Once n _ slot.timer_hdl (answered-Once n r key slot.success_cb rest h o))

pub process_msgs-Once : (n : ℕ) (r : Rpc) (keys : List ℕ) → Once n r → Once n (process_msgs r keys)
unfolding process_msgs
process_msgs-Once n r [] o = o
process_msgs-Once n r (key ∷ keys) o =
    process_msgs-Once n (rpc_received_msg r key) keys (rpc_received_msg-Once n r key o)
