-- ===== src/Redis/Pool/Racing.antt =====
-- Several threads in getConn at once: the limit is checked in one section under the lock, and the new
-- slot is added in another.
use zylib.Prelude.{
  ℕ, zero, suc, ◌+◌, ◌<◌, ◌≡◌, refl, Bool, true, false, ◌&&◌, none, some, List, [], ◌∷◌, arith,
  gt→leb, length, length-append,
}
use zylib.Redis.Pool.{Pool, creating, use_empty_slot, get_begin, get_end}

-- The first sections of `n` threads, each of which then goes to create a connection.
unfoldable pub all_begin : ℕ → Pool → Pool × Bool
all_begin zero p = (p, true)
all_begin (suc n) p =
    let (q, begun) = get_begin p in
    let (r, rest) = all_begin n q in (r, (elim begun [ creating ↦ true | _ ↦ false ]) && rest)

-- Their second sections, each with the connection that it made.
unfoldable pub all_end : List ℕ → Pool → Pool
all_end [] p = p
all_end (conn ∷ conns) p = all_end conns (get_end p (some conn)).0

length-all_end :
    (conns : List ℕ) (p : Pool) → length (all_end conns p).slots ≡ length p.slots + length conns
unfolding all_end get_end
length-all_end [] p = omega arith
length-all_end (conn ∷ conns) p = omega (
  arith,
  length-all_end conns (get_end p (some conn)).0,
  length-append p.slots (record { conn = conn; is_using = true } ∷ []),
)

get_begin-creating :
    (p : Pool)
    → use_empty_slot p.slots ≡ none
    → length p.slots < p.pool_max_size
    → get_begin p ≡ (p, creating)
unfolding get_begin
get_begin-creating p e h = rw (e, get_begin, gt→leb p.pool_max_size (length p.slots) h)

all_begin-creates :
    (n : ℕ) (p : Pool)
    → use_empty_slot p.slots ≡ none
    → length p.slots < p.pool_max_size
    → all_begin n p ≡ (p, true)
unfolding all_begin
all_begin-creates zero p e h = refl
all_begin-creates (suc n) p e h = rw (get_begin-creating p e h, all_begin-creates n p e h)

-- With every slot in use and room for one more, any number of threads may pass the check of the limit
-- together, and each adds a slot: the pool then exceeds its limit by one less than their number.
pub race-exceeds :
    (p : Pool) (conns : List ℕ)
    → use_empty_slot p.slots ≡ none
    → length p.slots + 1 ≡ p.pool_max_size
    → (all_begin (length conns) p ≡ (p, true))
      × (length (all_end conns p).slots + 1 ≡ p.pool_max_size + length conns)
race-exceeds p conns e h =
    (all_begin-creates (length conns) p e (omega arith), omega (arith, length-all_end conns p))
