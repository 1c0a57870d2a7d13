-- ===== src/Prelude/Bits.antt =====
-- What `<<`, `|` and `&` with a mask of ones do to a number, as arithmetic: `|` of two numbers that
-- share no digit is their sum, and the mask leaves a remainder.
use zylib.Prelude.{ℕ, zero, suc, ◌+◌, ◌-◌, ◌*◌, ◌/◌, ◌%◌, ◌^◌, ◌≤◌, ◌<◌, ◌≡◌, refl, ap, arith}
use Prim.Native.Nat.{min, max, bit_and, bit_or, digits, bit_and-bitwise, bit_or-bitwise}
use native.Mathlib.Nat.{pow-suc, one-le-pow}

-- The operation that `bit_or` stands for, with its count of digits given apart.
abbrev or_upto : ℕ → ℕ → ℕ → ℕ
or_upto n a b = digits (λ d. d) max n a b

abbrev and_upto : ℕ → ℕ → ℕ → ℕ
and_upto n a b = digits (λ d. zero) min n a b

-- A count that covers the first number may be replaced by any other.
or_upto_any : (n m a b : ℕ) → a ≤ n → a ≤ m → or_upto n a b ≡ or_upto m a b
or_upto_any zero zero zero b h k = refl
or_upto_any zero (suc m) zero b h k = refl
or_upto_any (suc n) zero zero b h k = refl
or_upto_any (suc n) (suc m) zero b h k = refl
or_upto_any zero m (suc a) b h k = absurd (omega arith)
or_upto_any (suc n) zero (suc a) b h k = absurd (omega arith)
or_upto_any (suc n) (suc m) (suc a) b h k =
    omega (arith, or_upto_any n m (suc a / 2) (b / 2) (omega arith) (omega arith))

and_upto_any : (n m a b : ℕ) → a ≤ n → a ≤ m → and_upto n a b ≡ and_upto m a b
and_upto_any zero zero zero b h k = refl
and_upto_any zero (suc m) zero b h k = refl
and_upto_any (suc n) zero zero b h k = refl
and_upto_any (suc n) (suc m) zero b h k = refl
and_upto_any zero m (suc a) b h k = absurd (omega arith)
and_upto_any (suc n) zero (suc a) b h k = absurd (omega arith)
and_upto_any (suc n) (suc m) (suc a) b h k =
    omega (arith, and_upto_any n m (suc a / 2) (b / 2) (omega arith) (omega arith))

or_digit : (a b : ℕ) → bit_or a b ≡ bit_or (a / 2) (b / 2) * 2 + max (a % 2) (b % 2)
or_digit zero b = omega (arith, bit_or-bitwise 0 b, bit_or-bitwise 0 (b / 2))
or_digit (suc a) b = omega (
  arith,
  bit_or-bitwise (suc a) b,
  bit_or-bitwise (suc a / 2) (b / 2),
  or_upto_any a (suc a / 2) (suc a / 2) (b / 2) (omega arith) (omega arith),
)

and_digit : (a b : ℕ) → bit_and a b ≡ bit_and (a / 2) (b / 2) * 2 + min (a % 2) (b % 2)
and_digit zero b = omega (arith, bit_and-bitwise 0 b, bit_and-bitwise 0 (b / 2))
and_digit (suc a) b = omega (
  arith,
  bit_and-bitwise (suc a) b,
  bit_and-bitwise (suc a / 2) (b / 2),
  and_upto_any a (suc a / 2) (suc a / 2) (b / 2) (omega arith) (omega arith),
)

or_upto_zero : (n a : ℕ) → a ≤ n → bit_or a 0 ≡ a
or_upto_zero n zero h = omega (arith, bit_or-bitwise 0 0)
or_upto_zero zero (suc a) h = absurd (omega arith)
or_upto_zero (suc n) (suc a) h =
    omega (arith, or_digit (suc a) 0, or_upto_zero n (suc a / 2) (omega arith))

and_upto_zero : (n a : ℕ) → a ≤ n → bit_and a 0 ≡ 0
and_upto_zero n zero h = omega (arith, bit_and-bitwise 0 0)
and_upto_zero zero (suc a) h = absurd (omega arith)
and_upto_zero (suc n) (suc a) h =
    omega (arith, and_digit (suc a) 0, and_upto_zero n (suc a / 2) (omega arith))

doubled : (q k : ℕ) → q * 2 ^ suc k ≡ q * 2 ^ k + q * 2 ^ k
doubled q k = omega (arith, ap (λ (t : ℕ). q * t) (pow-suc 2 k))

-- A field of `k` digits is set behind a number that is shifted by `k`.
pub bit_or_behind : (k q r : ℕ) → r < 2 ^ k → bit_or (q * 2 ^ k) r ≡ q * 2 ^ k + r
bit_or_behind zero q r h = ground (arith, or_upto_zero q q)
bit_or_behind (suc k) q r h =
    ground (arith, or_digit (q * 2 ^ suc k) r, doubled q k, pow-suc 2 k, bit_or_behind k q (r / 2))

mask_parts : (k q r : ℕ) → r < 2 ^ k → bit_and (q * 2 ^ k + r) (2 ^ k - 1) ≡ r
mask_parts zero q r h = ground (arith, and_upto_zero (q * 1 + r) (q * 1 + r))
mask_parts (suc k) q r h = ground (
  arith,
  and_digit (q * 2 ^ suc k + r) (2 ^ suc k - 1),
  doubled q k,
  pow-suc 2 k,
  one-le-pow k 2,
  mask_parts k q (r / 2),
)

-- `&` with `k` ones is the remainder by `2 ^ k`.
pub bit_and_ones : (k a : ℕ) → bit_and a (2 ^ k - 1) ≡ a % 2 ^ k
bit_and_ones k a = ground (arith, one-le-pow k 2, mask_parts k (a / 2 ^ k) (a % 2 ^ k))
