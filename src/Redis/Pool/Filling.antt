-- ===== src/Redis/Pool/Filling.antt =====
-- rediscpp/ConnectionPool.cpp: how `init` fills a new pool.
use zylib.Prelude.{
  ℕ, zero, suc, ◌+◌, ◌≤◌, ◌≡◌, refl, sym, ap, ◌∙◌, true, false, Option, some, List, [], ◌∷◌, ◌++◌,
  append-nil, append_assoc, arith, length,
}
use zylib.Redis.Pool.{Slot, Pool, new_pool, init_loop, init}
use zylib.Redis.Pool.Lending.{owned, used, hit, Valid}

-- The connections, each in a slot that is not in use.
abbrev pub free : List ℕ → List Slot
free [] = []
free (conn ∷ conns) = record { conn = conn; is_using = false } ∷ free conns

abbrev pub made : List ℕ → List (Option ℕ)
made [] = []
made (conn ∷ conns) = some conn ∷ made conns

-- How often a connection is among those made.
abbrev pub copies : ℕ → List ℕ → ℕ
copies c [] = 0
copies c (conn ∷ conns) = hit conn c + copies c conns

init_loop-made :
    (n : ℕ) (conns : List ℕ) (slots : List Slot)
    → n ≡ length conns
    → init_loop n (made conns) slots ≡ (slots ++ free conns, true)
unfolding init_loop
init_loop-made zero [] slots e = ap (λ s. (s, true)) (sym (append-nil slots))
init_loop-made zero (c ∷ conns) slots e = absurd (omega arith)
init_loop-made (suc n) [] slots e = absurd (omega arith)
init_loop-made (suc n) (c ∷ conns) slots e =
    init_loop-made n conns (slots ++ record { conn = c; is_using = false } ∷ []) (omega arith)
    ∙ ap (λ s. (s, true))
        (append_assoc slots (record { conn = c; is_using = false } ∷ []) (free conns))

length-free : (conns : List ℕ) → length (free conns) ≡ length conns
length-free [] = refl
length-free (c ∷ conns) = ap suc (length-free conns)

owned-free : (c : ℕ) (conns : List ℕ) → owned c (free conns) ≡ copies c conns
owned-free c [] = refl
owned-free c (conn ∷ conns) = omega (arith, owned-free c conns)

used-free : (c : ℕ) (conns : List ℕ) → used c (free conns) ≡ 0
used-free c [] = refl
used-free c (conn ∷ conns) = ground (arith, used-free c conns)

-- If `create` makes as many connections as the pool is to have, all different, and the limit allows that
-- many, then `init` succeeds on a new pool, which is then valid and has all of them, none of them lent.
pub init-Valid :
    (size max : ℕ) (conns : List ℕ)
    → size ≡ length conns
    → size ≤ max
    → ((c : ℕ) → copies c conns ≤ 1)
    → (p : Pool) × (init (new_pool size max) (made conns) ≡ (p, true))
      × Valid p
      × ((c : ℕ) → owned c p.slots ≡ copies c conns)
      × ((c : ℕ) → used c p.slots ≡ 0)
unfolding init new_pool
init-Valid size max conns e l d = (
  record { slots = free conns; pool_size = size; pool_max_size = max },
  rw (init_loop-made size conns [] e) refl,
  record {
    apart = λ c. omega (arith, owned-free c conns, d c);
    bounded = omega (arith, length-free conns);
  },
  λ c. owned-free c conns,
  λ c. used-free c conns,
)
