-- ===== src/Snowflake/Fields.antt =====
-- experimental/Snowflake.h: the three fields of an id.
use zylib.Prelude.{ℕ, zero, suc, ◌+◌, ◌*◌, ◌/◌, ◌%◌, ◌^◌, ◌≤◌, ◌<◌, ◌≡◌, ◌∙◌, arith}
use native.Mathlib.Nat.{
  pow-suc, one-le-pow, mul-le-mul_right, mul_comm, zero-add, mul-add-mod_self_right, mod-eq_of_lt,
  mul-add-div_right, div-eq_of_lt,
}
use zylib.Prelude.Bits.{bit_or_behind}
use zylib.Snowflake.{u64, make_id}

-- Powers of two multiply.
pub two_pow-add : (a b : ℕ) → 2 ^ (a + b) ≡ 2 ^ a * 2 ^ b
two_pow-add zero b = rw (zero-add) (omega arith)
two_pow-add (suc a) b = grind (arith, two_pow-add a b, pow-suc 2 a, pow-suc 2 (a + b))

-- The fields that an id is read by.
module _ (worker_id_bits sequence_bits : ℕ) where
  unfoldable pub sequence_of : ℕ → ℕ
  sequence_of id = id % 2 ^ sequence_bits

  unfoldable pub worker_of : ℕ → ℕ
  worker_of id = id / 2 ^ sequence_bits % 2 ^ worker_id_bits

  unfoldable pub time_of : ℕ → ℕ
  time_of id = id / 2 ^ sequence_bits / 2 ^ worker_id_bits

-- A field `w` below `b` in front of one below `a`.
field-lt : (a b w q : ℕ) → w < b → q < a → w * a + q < a * b
field-lt a b w q h k =
    let row : (w + 1) * a ≤ b * a = mul-le-mul_right a (omega arith) in
    let spread : (w + 1) * a ≡ w * a + a = grind arith in omega (arith, row, mul_comm a b, spread)

module _ (w s t worker sequence : ℕ) (worker_fits : worker < 2 ^ w)
    (sequence_fits : sequence < 2 ^ s)
    (time_fits : (t + 1) * 2 ^ (s + w) ≤ 0x10000000000000000) where
  pub make_id_sum : make_id w s t worker sequence ≡ (t * 2 ^ w + worker) * 2 ^ s + sequence
  unfolding make_id
  make_id_sum =
      let split = two_pow-add s w in
      let low : worker * 2 ^ s + 0 < 2 ^ s * 2 ^ w =
        field-lt (2 ^ s) (2 ^ w) worker 0 worker_fits (omega (arith, one-le-pow s 2)) in
      let top : (t + 1) * 2 ^ (s + w) ≡ t * 2 ^ (s + w) + 2 ^ (s + w) = grind arith in
      let time : u64 (t * 2 ^ (s + w)) ≡ t * 2 ^ (s + w) =
        mod-eq_of_lt (omega (arith, one-le-pow (s + w) 2)) in
      let field : u64 (worker * 2 ^ s) ≡ worker * 2 ^ s = mod-eq_of_lt (omega arith) in
      let behind = bit_or_behind (s + w) t (worker * 2 ^ s) (omega arith) in
      let both : t * 2 ^ (s + w) + worker * 2 ^ s ≡ (t * 2 ^ w + worker) * 2 ^ s = grind (arith) in
      rw (make_id, time, field, behind, both)
        (bit_or_behind s (t * 2 ^ w + worker) sequence sequence_fits)

  pub make_id_fields :
      (time_of w s (make_id w s t worker sequence) ≡ t)
      × (worker_of w s (make_id w s t worker sequence) ≡ worker)
      × (sequence_of w s (make_id w s t worker sequence) ≡ sequence)
  unfolding time_of worker_of sequence_of
  make_id_fields =
      let id : ℕ = (t * 2 ^ w + worker) * 2 ^ s + sequence in
      let front : id / 2 ^ s ≡ t * 2 ^ w + worker = omega (
        arith,
        mul-add-div_right (one-le-pow s 2 (omega arith)) (t * 2 ^ w + worker) sequence,
        div-eq_of_lt sequence_fits,
      ) in
      let inner : (t * 2 ^ w + worker) / 2 ^ w ≡ t = omega (
        arith,
        mul-add-div_right (one-le-pow w 2 (omega arith)) t worker,
        div-eq_of_lt worker_fits,
      ) in
      rw make_id_sum (
        rw (front) inner,
        rw (front) (mul-add-mod_self_right t (2 ^ w) worker ∙ mod-eq_of_lt worker_fits),
        mul-add-mod_self_right (t * 2 ^ w + worker) (2 ^ s) sequence ∙ mod-eq_of_lt sequence_fits,
      )
