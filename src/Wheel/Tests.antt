-- ===== src/Wheel/Tests.antt =====
-- A wheel of four slots, at concrete timers.
use zylib.Prelude.{
  ℕ, ◌+◌, ◌%◌, ◌^◌, ◌<◌, ◌≡◌, refl, true, List, [], ◌∷◌, ◌++◌, map, arith, length, All,
}
use mathlib.Core.List.{Permᴰ}
use zylib.Wheel.{
  Entry, Wheel, new_wheel, add, done, cancel, reset, not_due, get_expired, lock, slot_insert,
  slot_at, with_slot, payload, due, erase_id, find_entry,
}
use zylib.Wheel.Count.{
  Tracked, added_later, entry_later, polled, added_later-Tracked, added_now, added_now-Tracked,
}
use zylib.Wheel.Due.{Valid, Waits, added-Valid, polled-Valid}
use zylib.Wheel.Due.Time.{ticked-Valid, round, rounds, Given, add-on_time, get_expired-exact}
use zylib.Wheel.Removal.{Stands, cancel-removes}
use zylib.Wheel.Reset.{again, reset-on_time}
use zylib.Wheel.Init.{new_wheel-Valid}

abbrev four : Wheel ℕ
four = new_wheel ℕ 4

four-Valid : (c : ℕ) → Valid c four
four-Valid c = new_wheel-Valid ℕ c 4 (omega arith)

-- A timer with the value 7 and the duration 3, and one more behind it.
abbrev one_timer : Wheel ℕ
one_timer = added_later four 7 3

abbrev two_timers : Wheel ℕ
two_timers = added_later one_timer 8 3

one-Tracked : Tracked one_timer
one-Tracked = added_later-Tracked four 7 3 (four-Valid 0).tracked

two-Tracked : Tracked two_timers
two-Tracked = added_later-Tracked one_timer 8 3 one-Tracked

small_round : four.current_tick + 3 < 2 ^ 64
unfolding new_wheel
small_round = omega arith

add-on_time_example :
    (added : Wheel ℕ) × (waited : Wheel ℕ) × (later : Wheel ℕ) × (out : List (ℕ × ℕ)) × (add true
        four 7 3
      ≡ done (added, four.next_id))
    × (rounds 2 added ≡ done waited)
    × Waits (entry_later four 7 3) waited
    × (round waited ≡ done (later, out))
    × Given (7, 3) out
add-on_time_example =
    add-on_time four 7 2 (four-Valid (four.current_tick + 1)) (omega (arith, small_round))

-- The first timer is due, and two entries are immediate.
abbrev due_now : Wheel ℕ
due_now = added_now (added_now (record one_timer { current_tick = 3 }) 5 0) 6 0

due_now-Valid : Valid 3 due_now
unfolding new_wheel
due_now-Valid =
    let k = added-Valid 3 four 7 3 (four-Valid 3) (omega arith) (omega arith) in
    let t : Tracked (record one_timer { current_tick = 3 }) = record {
      some_slots = k.tracked.some_slots;
      sizes = k.tracked.sizes;
      ids = k.tracked.ids;
    } in
    record {
      tracked = added_now-Tracked _ 6 0 (added_now-Tracked _ 5 0 t);
      inside = k.inside;
      ordered = k.ordered;
      soon = k.soon;
    }

-- They are iterated in the other order.
abbrev other_order : List (Entry ℕ)
other_order =
    record { id = 2; tick = 3; duration = 0; value = 6 }
    ∷ record { id = 1; tick = 3; duration = 0; value = 5 }
    ∷ []

other_order-Perm : Permᴰ other_order due_now.immediate_entries
unfolding new_wheel
other_order-Perm = Permᴰ.swap refl refl

get_expired-exact_example :
    let v : Wheel ℕ = record due_now { immediate_entries = other_order } in
    let expired = due 3 (slot_at due_now (3 % length due_now.slots)) in
    (get_expired true v ≡ done (polled v 3, map payload other_order ++ map payload expired))
    × All (λ e. e.tick ≡ 3) expired
    × Valid (3 + 1) (polled v 3)
get_expired-exact_example = get_expired-exact due_now other_order due_now-Valid other_order-Perm

-- All three are put out.
due_now_out :
    map payload other_order ++ map payload (due 3 (slot_at due_now (3 % length due_now.slots)))
    ≡ (6, 0) ∷ (5, 0) ∷ (7, 3) ∷ []
unfolding new_wheel due slot_insert
due_now_out = refl

first_Stands : Stands two_timers 0 [] (entry_later one_timer 8 3 ∷ []) (entry_later four 7 3)
unfolding new_wheel lock find_entry slot_insert
first_Stands = record { led = refl; place = refl; first = refl }

abbrev one_left : Wheel ℕ
one_left =
    record (with_slot two_timers ((entry_later four 7 3).tick % length two_timers.slots)
      (entry_later one_timer 8 3 ∷ [])) { all_entries = erase_id 0 two_timers.all_entries }

cancel-removes_example : (cancel true two_timers 0 ≡ done one_left) × Tracked one_left
unfolding new_wheel
cancel-removes_example =
    cancel-removes true two_timers 0 [] (entry_later one_timer 8 3 ∷ []) (entry_later four 7 3)
      two-Tracked first_Stands refl

-- The two timers one tick later, when nothing is due.
abbrev one_later : Wheel ℕ
one_later = record two_timers { current_tick = two_timers.current_tick + 1 }

abbrev after_one : Wheel ℕ
after_one = polled one_later one_later.current_tick

after_one-Valid : Valid (after_one.current_tick + 1) after_one
unfolding new_wheel
after_one-Valid =
    polled-Valid one_later
      (ticked-Valid two_timers
        (added-Valid 1 one_timer 8 3
          (added-Valid 1 four 7 3 (four-Valid 1) (omega arith) (omega arith)) (omega arith)
          (omega arith))
        (omega arith)).1

after_one-Stands : Stands after_one 0 [] (entry_later one_timer 8 3 ∷ []) (entry_later four 7 3)
unfolding new_wheel lock find_entry slot_insert not_due
after_one-Stands = record { led = refl; place = refl; first = refl }

reset-on_time_example :
    (again_waiting : Wheel ℕ) × (waited : Wheel ℕ) × (later : Wheel ℕ) × (out : List (ℕ × ℕ))
    × (reset true after_one 0 ≡ done again_waiting)
    × (rounds 2 again_waiting ≡ done waited)
    × Waits (again after_one (entry_later four 7 3)) waited
    × (round waited ≡ done (later, out))
    × Given (7, 3) out
unfolding new_wheel
reset-on_time_example =
    reset-on_time after_one 0 [] (entry_later one_timer 8 3 ∷ []) (entry_later four 7 3) 2
      after_one-Valid after_one-Stands refl refl (omega arith)
