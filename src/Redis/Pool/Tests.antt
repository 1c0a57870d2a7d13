-- ===== src/Redis/Pool/Tests.antt =====
-- A pool of two slots, one of them lent.
use zylib.Prelude.{ℕ, ◌+◌, ◌≡◌, refl, true, false, none, some, [], ◌∷◌, arith}
use zylib.Redis.Pool.{Pool, release_conn, use_empty_slot}
use zylib.Redis.Pool.Lending.{Valid, owned, used, hit}
use zylib.Redis.Pool.Returning.{release_conn-Valid}

abbrev small_pool : Pool
small_pool = record {
  slots = record { conn = 4; is_using = true } ∷ record { conn = 5; is_using = false } ∷ [];
  pool_size = 2;
  pool_max_size = 3;
}

small-Valid : Valid small_pool
small-Valid = record { apart = λ c. ground arith; bounded = omega arith }

release_conn-Valid_example :
    (q : Pool) × (release_conn small_pool 4 ≡ some q)
    × Valid q
    × ((c : ℕ) → used c q.slots + hit 4 c ≡ used c small_pool.slots)
    × ((c : ℕ) → owned c q.slots ≡ owned c small_pool.slots)
release_conn-Valid_example = release_conn-Valid small_pool 4 small-Valid refl

-- The same with both slots lent.
abbrev busy_pool : Pool
busy_pool = record {
  slots = record { conn = 4; is_using = true } ∷ record { conn = 5; is_using = true } ∷ [];
  pool_size = 2;
  pool_max_size = 3;
}

all_used : use_empty_slot busy_pool.slots ≡ none
unfolding use_empty_slot
all_used = refl

-- Another thread has released a connection while a third one is made.
abbrev released : Pool → Pool
released p = record p {
  slots = record { conn = 5; is_using = true } ∷ record { conn = 4; is_using = false } ∷ [];
}
