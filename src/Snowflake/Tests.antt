-- ===== src/Snowflake/Tests.antt =====
-- experimental/Snowflake.h: runs at concrete inputs, with 41, 10 and 12 bits.
use zylib.Prelude.{ℕ, ◌*◌, ◌<◌, ◌≡◌, refl, ◌≢◌, ◌⊎◌, none, List, [], ◌∷◌, arith, All}
use zylib.Snowflake.{
  Timeval, snowflake, gen_timestamp, wait_next_milliseconds, make_id, issue, issue_after_wait,
  next_sequence, next_id, run,
}
use zylib.Snowflake.Fields.{make_id_fields, time_of, worker_of, sequence_of}
use zylib.Snowflake.Steps.{IsValid}
use zylib.Snowflake.Runs.{Rising, last_id, run-Rising}
use zylib.Snowflake.Machines.{run-apart, next_id-returns}

abbrev at : ℕ → Timeval
at ms = record { tv_sec = 1500000000; tv_usec = ms * 1000 }

-- The clock goes on, stands still and goes back.
abbrev clock : List Timeval
clock = at 1 ∷ (at 1 ∷ (at 0 ∷ (at 2 ∷ [])))

ids_of_clock :
    run 10 12 4 (snowflake 5 0) clock
    ≡ 6291456000004214784 ∷ (6291456000004214785 ∷ (0 ∷ (6291456000008409088 ∷ [])))
unfolding run next_id snowflake gen_timestamp issue make_id next_sequence
ids_of_clock = refl

sequence_full :
    run 0 1 3 (snowflake 0 0) (at 1 ∷ (at 1 ∷ (at 1 ∷ (at 1 ∷ (at 2 ∷ [])))))
    ≡ 3000000000002 ∷ (3000000000003 ∷ (3000000000004 ∷ []))
unfolding run next_id snowflake gen_timestamp issue issue_after_wait make_id next_sequence
    wait_next_milliseconds
sequence_full = refl

machine-IsValid : (id : ℕ) → id < 1024 → IsValid 41 10 12 (snowflake id 0)
unfolding snowflake
machine-IsValid id h = record {
  time_fits = omega arith;
  worker_fits = h;
  sequence_fits = omega arith;
  bits = omega arith;
}

make_id_fields_example :
    (time_of 10 12 (make_id 10 12 1500000000001 5 7) ≡ 1500000000001)
    × (worker_of 10 12 (make_id 10 12 1500000000001 5 7) ≡ 5)
    × (sequence_of 10 12 (make_id 10 12 1500000000001 5 7) ≡ 7)
make_id_fields_example =
    make_id_fields 10 12 1500000000001 5 7 (omega arith) (omega arith) (omega arith)

run-Rising_example : Rising (last_id 10 12 (snowflake 5 0)) (run 10 12 4 (snowflake 5 0) clock)
unfolding gen_timestamp
run-Rising_example =
    run-Rising 41 10 12 4 (snowflake 5 0) clock (machine-IsValid 5 (omega arith)) (omega arith)

run-apart_example :
    All
      (λ a. All (λ b. (a ≡ 0) ⊎ (a ≢ b)) (run 10 12 4 (snowflake 6 0) clock))
      (run 10 12 4 (snowflake 5 0) clock)
unfolding gen_timestamp snowflake
run-apart_example =
    run-apart 41 10 12 4 4 (snowflake 5 0) (snowflake 6 0) clock clock
      (machine-IsValid 5 (omega arith)) (machine-IsValid 6 (omega arith)) (omega arith)
      (omega arith) (omega arith)

next_id-returns_example : next_id 10 12 (snowflake 5 0) (at 1 ∷ (at 1 ∷ (at 2 ∷ []))) ≢ none
unfolding gen_timestamp snowflake
next_id-returns_example =
    next_id-returns 10 12 (snowflake 5 0) (at 1) (at 1 ∷ []) (at 2) [] (omega arith)
