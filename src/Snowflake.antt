-- ===== src/Snowflake.antt =====
-- experimental/Snowflake.h: ids from the time, the machine and a sequence number. The template's
-- numbers of bits are arguments, and the calls of gettimeofday that are still to come a list of what
-- they give. An id is the bit pattern of an int64_t.
pub mod Fields
pub mod Steps
pub mod Runs
pub mod Machines
pub mod Overflow
mod Tests
use zylib.Prelude.{
  ℕ, zero, suc, ◌+◌, ◌-◌, ◌*◌, ◌/◌, ◌%◌, ◌^◌, Option, none, some, List, [], ◌∷◌, ltb, leb, ◌==◌,
  if◌then◌else◌,
}
use Prim.Native.Nat.{bit_and, bit_or}

abbrev pub u64 : ℕ → ℕ
u64 n = n % 0x10000000000000000

pub record Snowflake : Type 0 where
  pub m_epoch : ℕ
  pub m_worker_id : ℕ
  pub m_last_timestamp : ℕ
  pub m_sequence : ℕ

pub record Timeval : Type 0 where
  pub tv_sec : ℕ
  pub tv_usec : ℕ

-- The constructor.
unfoldable pub snowflake : ℕ → ℕ → Snowflake
snowflake worker_id start_epoch = record {
  m_epoch = start_epoch;
  m_worker_id = worker_id;
  m_last_timestamp = 0;
  m_sequence = 0;
}

-- genTimestamp, in milliseconds.
unfoldable pub gen_timestamp : Timeval → ℕ
gen_timestamp tv = u64 (tv.tv_usec / 1000 + u64 (tv.tv_sec * 1000))

-- waitNextMilliseconds reads the clock until it is later. With `none` it is still waiting.
unfoldable pub wait_next_milliseconds : ℕ → List Timeval → Option (ℕ × List Timeval)
wait_next_milliseconds last [] = none
wait_next_milliseconds last (tv ∷ clock) =
    if leb (gen_timestamp tv) last
    then wait_next_milliseconds last clock
    else some (gen_timestamp tv, clock)

module _ (worker_id_bits sequence_bits : ℕ) where
  -- The three lines that build an id.
  unfoldable pub make_id : ℕ → ℕ → ℕ → ℕ
  make_id timestamp worker_id sequence =
      bit_or
        (bit_or (u64 (timestamp * 2 ^ (sequence_bits + worker_id_bits)))
          (u64 (worker_id * 2 ^ sequence_bits)))
        sequence

  -- The end of nextID: the time and the sequence number are kept, and the id is built from them.
  unfoldable pub issue : Snowflake → ℕ → ℕ → List Timeval → Snowflake × ℕ × List Timeval
  issue g timestamp sequence clock = (
    record g { m_last_timestamp = timestamp; m_sequence = sequence },
    make_id timestamp g.m_worker_id sequence,
    clock,
  )

  unfoldable pub issue_after_wait :
      Snowflake → Option (ℕ × List Timeval) → Option (Snowflake × ℕ × List Timeval)
  issue_after_wait g none = none
  issue_after_wait g (some (timestamp, clock)) = some (issue g timestamp 0 clock)

  -- m_sequence + 1 under SEQUENCE_MASK.
  unfoldable pub next_sequence : Snowflake → ℕ
  next_sequence g = bit_and (u64 (g.m_sequence + 1)) (2 ^ sequence_bits - 1)

  unfoldable pub next_id : Snowflake → List Timeval → Option (Snowflake × ℕ × List Timeval)
  next_id g [] = none
  next_id g (tv ∷ clock) =
      if ltb (gen_timestamp tv) g.m_last_timestamp
      then some (g, 0, clock)
      else if g.m_last_timestamp == gen_timestamp tv
      then if next_sequence g == 0
        then issue_after_wait g (wait_next_milliseconds g.m_last_timestamp clock)
        else some (issue g (gen_timestamp tv) (next_sequence g) clock)
      else some (issue g (gen_timestamp tv) 0 clock)

  -- The ids of at most n calls, one after the other, as far as they return.
  unfoldable pub run : ℕ → Snowflake → List Timeval → List ℕ
  run zero g clock = []
  run (suc n) g clock = elim (next_id g clock) [
    | none ↦ []
    | some (g', id, rest) ↦ id ∷ run n g' rest
  ]
