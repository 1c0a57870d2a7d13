-- ===== src/Knet/Rpc.antt =====
-- knet/RPCManager.cpp with knet/TimerManager.cpp: calls that wait for an answer, each with an optional timer.
-- A Key made by NextKey is its sequence number. What the user's callbacks do is not modelled, only that they are
-- called: `reports`, oldest first. A TimerHdl is the number of the timer; it locks as long as the manager has
-- the timer. The callback of an RPC's timer is the key of its call, whose slot it holds. What Kafka and the event
-- loop deliver are the inputs of `step`.
pub mod Measures
pub mod Once
pub mod Calls
pub mod Ties
pub mod Late
mod Tests
use mathlib.Core.Option
use zylib.Prelude.{
  ℕ, ◌+◌, ◌%◌, ◌^◌, Bool, true, false, Option, none, some, List, [], ◌∷◌, ◌++◌, map, ◌==◌,
  if◌then◌else◌,
}

-- ContextSlot, with whether its RPCContext has the two callbacks.
pub record Slot : Type 0 where
  pub success_cb : Bool
  pub timeout_cb : Bool
  pub timer_hdl : Option ℕ

-- A call of m_success_cb, of m_timeout_cb, and of NormalReceviedMsg.
pub data Report : Type 0 where
  answered timed_out unclaimed : ℕ → Report

-- RPCManager and its TimerManager: m_slots, m_timers with their callbacks, and the two queues.
pub record Rpc : Type 0 where
  pub key_sequence_id : ℕ
  pub slots : List (ℕ × Slot)
  pub received_msgs : List ℕ
  pub next_timer : ℕ
  pub timers : List (ℕ × ℕ)
  pub timeout_timers : List ℕ
  pub reports : List Report

abbrev pub report : Rpc → Report → Rpc
report r e = record r { reports = r.reports ++ e ∷ [] }

unfoldable pub new_rpc : Rpc
new_rpc = record {
  key_sequence_id = 0;
  slots = [];
  received_msgs = [];
  next_timer = 0;
  timers = [];
  timeout_timers = [];
  reports = [];
}

-- `find` in a map, with the map without what it found.
unfoldable pub take_at : {A : Type 0} → ℕ → List (ℕ × A) → Option (A × List (ℕ × A))
take_at k [] = none
take_at k ((j, a) ∷ xs) =
    if j == k then some (a, xs) else Option.map (λ r. (r.0, (j, a) ∷ r.1)) (take_at k xs)

-- `insert` into a map: an element with that key stays.
unfoldable pub insert_slot : ℕ → Slot → List (ℕ × Slot) → List (ℕ × Slot)
insert_slot k s slots = elim (take_at k slots) [ none ↦ slots ++ (k, s) ∷ [] | some r ↦ slots ]

-- TimerManager::AddTimer
unfoldable pub add_timer : Rpc → ℕ → Rpc × ℕ
add_timer r key = (
  record r { next_timer = r.next_timer + 1; timers = r.timers ++ (r.next_timer, key) ∷ [] },
  r.next_timer,
)

-- TimerManager::CancelTimer, where the handle has not expired.
unfoldable pub cancel_timer : Rpc → Option ℕ → Rpc
cancel_timer r none = r
cancel_timer r (some hdl) = elim (take_at hdl r.timers) [
  | none ↦ r
  | some (key, rest) ↦ record r { timers = rest }
]

-- The round of TimerManager::Tick for one handle.
unfoldable pub tick_timer : Rpc → ℕ → Rpc
tick_timer r hdl = elim (take_at hdl r.timers) [
  | none ↦ r
  | some (key, rest) ↦ record (report r (timed_out key)) { timers = rest }
]

unfoldable pub tick_timers : Rpc → List ℕ → Rpc
tick_timers r [] = r
tick_timers r (hdl ∷ hdls) = tick_timers (tick_timer r hdl) hdls

-- TimerManager::Tick
unfoldable pub timer_tick : Rpc → Rpc
timer_tick r = tick_timers (record r { timeout_timers = [] }) r.timeout_timers

-- TimerManager::CB_Event
unfoldable pub cb_event : Rpc → ℕ → Rpc
cb_event r hdl = record r { timeout_timers = r.timeout_timers ++ hdl ∷ [] }

-- The timer of AppendRPCContext, if the context has a callback for it.
unfoldable pub start_timer : Rpc → ℕ → Bool → Rpc × Option ℕ
unfolding add_timer
start_timer r key false = (r, none)
start_timer r key true = let (q, hdl) = add_timer r key in (q, some hdl)

-- AppendRPCContext with a context that has these callbacks.
unfoldable pub append_rpc_context : Rpc → ℕ → Option (Bool × Bool) → Rpc
append_rpc_context r key none = r
append_rpc_context r key (some (success, timeout)) =
    let (q, hdl) = start_timer r key timeout in
    let slot : Slot = record { success_cb = success; timeout_cb = timeout; timer_hdl = hdl } in
    record q { slots = insert_slot key slot q.slots }

-- AsyncRPC, with NextKey.
unfoldable pub async_rpc : Rpc → Option (Bool × Bool) → Rpc
async_rpc r context =
    let key = (r.key_sequence_id + 1) % 2 ^ 64 in
    append_rpc_context (record r { key_sequence_id = key }) key context

-- RpcReceviedMsg with a message that has this key.
unfoldable pub rpc_received_msg : Rpc → ℕ → Rpc
rpc_received_msg r key = elim (take_at key r.slots) [
  | none ↦ report r (unclaimed key)
  | some (slot, rest) ↦
      let called = if slot.success_cb then report r (answered key) else r in
      record (cancel_timer called slot.timer_hdl) { slots = rest }
]

unfoldable pub process_msgs : Rpc → List ℕ → Rpc
process_msgs r [] = r
process_msgs r (key ∷ keys) = process_msgs (rpc_received_msg r key) keys

-- ProcessMsg, which Tick calls.
unfoldable pub process_msg : Rpc → Rpc
process_msg r = process_msgs (record r { received_msgs = [] }) r.received_msgs

-- CB_ReceviedMsg with the key of what `Decode` returned, `none` for nullptr.
unfoldable pub cb_received_msg : Rpc → Option ℕ → Rpc
cb_received_msg r none = r
cb_received_msg r (some key) = record r { received_msgs = r.received_msgs ++ key ∷ [] }

-- What happens next.
pub data Input : Type 0 where
  call : Option (Bool × Bool) → Input
  arrives : Option ℕ → Input
  fires : ℕ → Input
  ticks processes : Input

unfoldable pub step : Rpc → Input → Rpc
unfolding async_rpc cb_received_msg cb_event timer_tick process_msg
step r (call context) = async_rpc r context
step r (arrives key) = cb_received_msg r key
step r (fires hdl) = cb_event r hdl
step r ticks = timer_tick r
step r processes = process_msg r

unfoldable pub run : Rpc → List Input → Rpc
unfolding step
run r [] = r
run r (i ∷ is) = run (step r i) is
