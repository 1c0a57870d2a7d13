-- ===== src/Nel/Connection/Tests.antt =====
-- UnifiedConnection of nel/UnifiedConnection.cpp at concrete inputs.
use zylib.Prelude.{ℕ, ◌+◌, ◌≡◌, refl, Bool, true, none, some, List, [], ◌∷◌}
use zylib.Nel.Connection.{process_server_new_socket, update_rest}
use zylib.Nel.Connection.Counts.{count, count_eps}
use zylib.Nel.Connection.Sockets.{
  System, Event, accepts, updates, ends, normal, timeout, activity, step, run, new_system, known,
  accept, on_closed, new_system-Kept, run-Exact,
}
use zylib.Nel.Connection.Races.{update_rest-races}

abbrev all_alive : ℕ → Bool
all_alive sock = true

abbrev events : List Event
events =
    accepts
    ∷ accepts
    ∷ ends normal 0
    ∷ updates
    ∷ accepts
    ∷ ends timeout 1
    ∷ ends normal 1
    ∷ ends activity 2
    ∷ []

run-Exact_example :
    (s : System) × (run all_alive new_system events ≡ some s)
    × (t : System) × (step all_alive s updates ≡ some t)
    × ((i : ℕ) → count_eps i t.conn.endpoints + count i t.ended ≡ known i t)
run-Exact_example = run-Exact all_alive events

update_rest-races_example :
    let first : System = record new_system { conn = process_server_new_socket new_system.conn } in
    update_rest all_alive all_alive (on_closed normal new_system.accepted (accept first)).conn
    ≡ none
unfolding new_system
update_rest-races_example = update_rest-races all_alive all_alive new_system new_system-Kept refl
