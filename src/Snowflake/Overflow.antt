-- ===== src/Snowflake/Overflow.antt =====
-- experimental/Snowflake.h: a machine that the bits for it have no room for, and the start that is
-- kept and not used.
use zylib.Prelude.{ℕ, suc, ◌+◌, ◌*◌, ◌^◌, ◌≤◌, ◌≡◌, sym, ap, ap₂, ◌∙◌, arith}
use Prim.Native.Nat.{bit_or}
use native.Mathlib.Nat.{mod-eq_of_lt, one-le-pow, two-pow-succ, mul_comm}
use zylib.Snowflake.Fields.{two_pow-add}
use zylib.Prelude.Bits.{bit_or_behind}
use zylib.Snowflake.{u64, make_id}

-- With an even time, the machine 2 ^ WORKER_ID_BITS, which the constructor takes, gives the very id that
-- the machine 0 gives one millisecond later, with the same sequence number.
pub make_id-overflow :
    (w s k sequence : ℕ)
    → (2 * k + 2) * 2 ^ (s + w) ≤ 0x10000000000000000
    → make_id w s (2 * k) (2 ^ w) sequence ≡ make_id w s (2 * k + 1) 0 sequence
unfolding make_id
make_id-overflow w s k sequence h =
    let p : ℕ = 2 ^ (s + w) in
    let pos : 1 ≤ p = one-le-pow (s + w) 2 (omega arith) in
    let double : 2 ^ suc (s + w) ≡ p + p = two-pow-succ (s + w) in
    let above : k * 2 ^ suc (s + w) ≡ 2 * k * p = ap (λ (x : ℕ). k * x) double ∙ grind arith in
    let odd : (2 * k + 1) * p ≡ 2 * k * p + p = grind arith in
    let room : (2 * k + 2) * p ≡ 2 * k * p + (p + p) = grind arith in
    let field : 2 ^ w * 2 ^ s ≡ p = mul_comm (2 ^ w) (2 ^ s) ∙ sym (two_pow-add s w) in
    let even_fits : u64 (2 * k * p) ≡ k * 2 ^ suc (s + w) =
      mod-eq_of_lt (omega arith) ∙ sym above in
    let odd_fits : u64 ((2 * k + 1) * p) ≡ (2 * k + 1) * p = mod-eq_of_lt (omega arith) in
    let field_fits : u64 (2 ^ w * 2 ^ s) ≡ p = ap u64 field ∙ mod-eq_of_lt (omega arith) in
    let carry : bit_or (k * 2 ^ suc (s + w)) p ≡ (2 * k + 1) * p =
      bit_or_behind (suc (s + w)) k p (omega arith) ∙ omega arith in
    let none_set : bit_or ((2 * k + 1) * p) 0 ≡ (2 * k + 1) * p =
      bit_or_behind (s + w) (2 * k + 1) 0 pos ∙ omega arith in
    ap (λ (x : ℕ). bit_or x sequence)
      (ap₂ bit_or even_fits field_fits
        ∙ (carry ∙ (sym none_set ∙ ap₂ bit_or (sym odd_fits) (omega arith))))
