-- ===== src/Knet/Rpc/Tests.antt =====
-- Calls whose answers come after their timeouts and before.
use zylib.Prelude.{◌≤◌, ◌≡◌, refl, true, some, List, [], ◌∷◌, arith}
use zylib.Knet.Rpc.{
  new_rpc, run, Input, call, arrives, fires, ticks, processes, answered, timed_out, unclaimed,
  take_at, insert_slot, add_timer, cancel_timer, tick_timer, tick_timers, start_timer,
  append_rpc_context, rpc_received_msg, process_msgs,
}
use zylib.Knet.Rpc.Measures.{answers, timeouts}
use zylib.Knet.Rpc.Calls.{run-answers}
use zylib.Knet.Rpc.Late.{late, run-late}

abbrev slow : List Input
slow = call (some (true, true)) ∷ fires 0 ∷ ticks ∷ arrives (some 1) ∷ processes ∷ []

-- Both are reported.
slow_reports : (run new_rpc slow).reports ≡ timed_out 1 ∷ answered 1 ∷ []
unfolding run new_rpc take_at insert_slot add_timer cancel_timer tick_timer tick_timers start_timer
    append_rpc_context rpc_received_msg process_msgs
slow_reports = refl

run-answers_example :
    (answers 1 (run new_rpc slow).reports ≤ 1) × (timeouts 1 (run new_rpc slow).reports ≤ 1)
run-answers_example = run-answers slow 1 (omega arith)

-- An answer that comes before its call's timer has its round.
abbrev just_in_time : List Input
just_in_time =
    call (some (true, true))
    ∷ arrives (some 1)
    ∷ fires 0
    ∷ processes
    ∷ ticks
    ∷ arrives (some 1)
    ∷ processes
    ∷ []

just_in_time_reports : (run new_rpc just_in_time).reports ≡ answered 1 ∷ unclaimed 1 ∷ []
unfolding run new_rpc take_at insert_slot add_timer cancel_timer tick_timer tick_timers start_timer
    append_rpc_context rpc_received_msg process_msgs
just_in_time_reports = refl

run-late_example : late 1 (run new_rpc just_in_time).reports ≡ 0
run-late_example = run-late just_in_time 1 (omega arith)
