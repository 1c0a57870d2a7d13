-- ===== src/Redis/Pool.antt =====
-- rediscpp/ConnectionPool.cpp and ConnectionPool.h: connections that are lent out and come back. A
-- ConnectionPtr is a number; `create` asks hiredis for a connection, so what it returns is an argument
-- of each function that calls it (`none` for nullptr). Sections under the mutex are atomic: `get_conn`
-- has two, with `create` between them outside the lock, and what other threads do there is an argument.
pub mod Lending
pub mod Returning
pub mod Racing
pub mod Filling
mod Tests
use mathlib.Core.Option
use zylib.Prelude.{
  ℕ, zero, suc, Bool, true, false, Option, none, some, List, [], ◌∷◌, ◌++◌, map, leb, ◌==◌,
  if◌then◌else◌, length,
}

pub record Slot : Type 0 where
  pub conn : ℕ
  pub is_using : Bool

-- The list of slots with the limits of ConnectionPoolOpt.
pub record Pool : Type 0 where
  pub slots : List Slot
  pub pool_size : ℕ
  pub pool_max_size : ℕ

unfoldable pub new_pool : ℕ → ℕ → Pool
new_pool size max = record { slots = []; pool_size = size; pool_max_size = max }

-- The loop of `init`, with what each `create` returns; it stops at the first failure. The loop makes
-- `rounds` more connections.
unfoldable pub init_loop : ℕ → List (Option ℕ) → List Slot → List Slot × Bool
init_loop zero created slots = (slots, true)
init_loop (suc rounds) [] slots = (slots, false)
init_loop (suc rounds) (none ∷ created) slots = (slots, false)
init_loop (suc rounds) (some conn ∷ created) slots =
    init_loop rounds created (slots ++ record { conn = conn; is_using = false } ∷ [])

-- `init`
unfoldable pub init : Pool → List (Option ℕ) → Pool × Bool
unfolding init_loop
init p created =
    let (slots, complete) = init_loop p.pool_size created p.slots in
    (record p { slots = slots }, complete)

-- findEmptySlot, with `slot->m_is_using = true` on the slot found: the connection and the slots.
unfoldable pub use_empty_slot : List Slot → Option (ℕ × List Slot)
use_empty_slot [] = none
use_empty_slot (s ∷ slots) =
    if s.is_using
    then Option.map (λ r. (r.0, s ∷ r.1)) (use_empty_slot slots)
    else some (s.conn, record s { is_using = true } ∷ slots)

-- What the first section of getConn decides.
pub data Begun : Type 0 where
  lent : ℕ → Begun
  full : Begun
  creating : Begun

-- The first section of getConn.
unfoldable pub get_begin : Pool → Pool × Begun
get_begin p = elim (use_empty_slot p.slots) [
  | some (conn, slots) ↦ (record p { slots = slots }, lent conn)
  | none ↦ (p, if leb p.pool_max_size (length p.slots) then full else creating)
]

-- The second section of getConn, after `create`.
unfoldable pub get_end : Pool → Option ℕ → Pool × Option ℕ
get_end p none = (p, none)
get_end p (some conn) =
    (record p { slots = p.slots ++ record { conn = conn; is_using = true } ∷ [] }, some conn)

abbrev pub get_rest : (Pool → Pool) → Pool × Begun → Option ℕ → Pool × Option ℕ
get_rest between (p, lent conn) created = (p, some conn)
get_rest between (p, full) created = (p, none)
get_rest between (p, creating) created = get_end (between p) created

-- getConn, with what other threads make of the pool between its two sections.
unfoldable pub get_conn : (Pool → Pool) → Pool → Option ℕ → Pool × Option ℕ
unfolding get_begin get_end
get_conn between p created = get_rest between (get_begin p) created

-- `find_if` and `erase` of rleaseConn: the slot of a connection, and the slots without it.
unfoldable pub take_slot : ℕ → List Slot → Option (Slot × List Slot)
take_slot conn [] = none
take_slot conn (s ∷ slots) =
    if s.conn == conn
    then some (s, slots)
    else Option.map (λ r. (r.0, s ∷ r.1)) (take_slot conn slots)

-- rleaseConn; `none` is a failed assertion: a connection that is not the pool's, or not lent.
unfoldable pub release_conn : Pool → ℕ → Option Pool
release_conn p conn = elim (take_slot conn p.slots) [
  | none ↦ none
  | some (s, slots) ↦
      if s.is_using
      then some (record p { slots = slots ++ record s { is_using = false } ∷ [] })
      else none
]

-- connectionCount
unfoldable pub connection_count : Pool → ℕ
connection_count p = length p.slots

-- ConnectionGuard: its constructor and its destructor.
unfoldable pub guard_enter : (Pool → Pool) → Pool → Option ℕ → Pool × Option ℕ
unfolding get_conn
guard_enter between p created = get_conn between p created

unfoldable pub guard_leave : Pool → Option ℕ → Option Pool
unfolding release_conn
guard_leave p none = some p
guard_leave p (some conn) = release_conn p conn
