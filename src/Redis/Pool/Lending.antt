-- ===== src/Redis/Pool/Lending.antt =====
-- Who has a connection, and how many there are.
use mathlib.Core.Option
use zylib.Prelude.{
  ℕ, ◌+◌, ◌≤◌, ◌≡◌, true, ◌&&◌, Option, none, some, List, [], ◌∷◌, ◌++◌, arith, ◌==◌, if◌then◌else◌,
  length, All,
}
use zylib.Redis.Pool.{Slot, Pool}

-- How many slots have the connection, and how many of these are in use.
abbrev pub owned : ℕ → List Slot → ℕ
owned c [] = 0
owned c (s ∷ slots) = (if s.conn == c then 1 else 0) + owned c slots

abbrev pub used : ℕ → List Slot → ℕ
used c [] = 0
used c (s ∷ slots) = (if s.conn == c && s.is_using then 1 else 0) + used c slots

pub owned-append : (c : ℕ) (xs ys : List Slot) → owned c (xs ++ ys) ≡ owned c xs + owned c ys
owned-append c [] ys = omega arith
owned-append c (x ∷ xs) ys = omega (arith, owned-append c xs ys)

pub used-append : (c : ℕ) (xs ys : List Slot) → used c (xs ++ ys) ≡ used c xs + used c ys
used-append c [] ys = omega arith
used-append c (x ∷ xs) ys = omega (arith, used-append c xs ys)

abbrev pub hit : ℕ → ℕ → ℕ
hit a b = if a == b then 1 else 0

-- Taking an empty slot: its connection was free and is in use now, and nothing else changes; there is
-- none only if every slot is in use.
abbrev Lends : List Slot → Option (ℕ × List Slot) → Type 0
Lends slots none = All (λ s. s.is_using ≡ true) slots
Lends slots (some (conn, slots')) =
    (length slots' ≡ length slots)
    × ((c : ℕ) → owned c slots' ≡ owned c slots)
    × ((c : ℕ) → used c slots' ≡ used c slots + hit conn c)
    × (1 ≤ owned conn slots)

pub used-le-owned : (c : ℕ) (slots : List Slot) → used c slots ≤ owned c slots
used-le-owned c [] = omega arith
used-le-owned c (s ∷ slots) = ground (arith, used-le-owned c slots)

-- No connection has two slots, and there are no more slots than allowed.
pub record Valid (p : Pool) : Type 0 where
  pub apart : (c : ℕ) → owned c p.slots ≤ 1
  pub bounded : length p.slots ≤ p.pool_max_size

-- What `getConn` may do, where other threads may make q of the pool p while it creates a connection: lend a
-- connection that nobody has, which is in use from then on, of the pool p, or a new one in q, or
-- nothing, where every slot of p is in use and nothing else is changed.
pub data Got (p q : Pool) : Pool × Option ℕ → Type 0 where
  got :
      (r : Pool) (conn : ℕ)
      → used conn p.slots ≡ 0
      → ((c : ℕ) → used c r.slots ≡ used c p.slots + hit conn c)
      → Got p q (r, some conn)
  got_new :
      (r : Pool) (conn : ℕ)
      → All (λ s. s.is_using ≡ true) p.slots
      → used conn q.slots ≡ 0
      → ((c : ℕ) → used c r.slots ≡ used c q.slots + hit conn c)
      → Got p q (r, some conn)
  got_full : All (λ s. s.is_using ≡ true) p.slots → Got p q (p, none)
  got_failed : All (λ s. s.is_using ≡ true) p.slots → Got p q (q, none)

-- A connection that `create` returns is new to the pool.
abbrev pub Fresh : Pool → Option ℕ → Type 0
Fresh p none = Unit
Fresh p (some conn) = owned conn p.slots ≡ 0
