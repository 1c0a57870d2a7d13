-- ===== src/Snowflake/Runs.antt =====
-- experimental/Snowflake.h: the ids of many calls, of one generator and of two.
use zylib.Prelude.{
  ℕ, zero, suc, ◌+◌, ◌*◌, ◌^◌, ◌≤◌, ◌<◌, ◌≡◌, refl, ap, ◌⊎◌, inl, inr, List, [], ◌∷◌, arith,
  Option-cases,
}
use native.Mathlib.Nat.{pow-le-pow_right, mul-le-mul_right, one-le-pow}
use mathlib.Core.Path.{subst}
use zylib.Snowflake.{Snowflake, Timeval, make_id, next_id, run}
use zylib.Snowflake.Fields.{two_pow-add, make_id_sum, make_id_fields, worker_of}
use zylib.Snowflake.Steps.{InTime, IsValid, Outcome, refused, issued, next_id-Outcome}

-- Every id is 0 or more than all before it, the first of which is `bound`.
abbrev pub Rising : ℕ → List ℕ → Type 0
Rising bound [] = Unit
Rising bound (id ∷ ids) = ((id ≡ 0) × Rising bound ids) ⊎ ((bound < id) × Rising id ids)

-- The id that the state stands for.
abbrev pub last_id : ℕ → ℕ → Snowflake → ℕ
last_id w s g = make_id w s g.m_last_timestamp g.m_worker_id g.m_sequence

module _ (tm_bits w s : ℕ) where
  time_room :
      (t : ℕ)
      → t < 2 ^ tm_bits
      → tm_bits + (s + w) ≤ 63
      → (t + 1) * 2 ^ (s + w) ≤ 0x8000000000000000
  time_room t h bits =
      let whole : 2 ^ (tm_bits + (s + w)) ≤ 2 ^ 63 =
        pow-le-pow_right {n = 2} (omega arith) {j = 63} bits in
      let row : (t + 1) * 2 ^ (s + w) ≤ 2 ^ tm_bits * 2 ^ (s + w) =
        mul-le-mul_right (2 ^ (s + w)) (omega arith) in
      omega (arith, two_pow-add tm_bits (s + w))

  module _ (t q worker : ℕ) (ht : t < 2 ^ tm_bits) (hw : worker < 2 ^ w) (hq : q < 2 ^ s)
      (bits : tm_bits + (s + w) ≤ 63) where
    id_sum : make_id w s t worker q ≡ (t * 2 ^ w + worker) * 2 ^ s + q
    id_sum = make_id_sum w s t worker q hw hq (omega (arith, time_room t ht bits))

    -- An id fits an int64_t without its sign.
    pub id-lt : make_id w s t worker q < 0x8000000000000000
    id-lt =
        let row : (t * 2 ^ w + worker + 1) * 2 ^ s ≤ (t + 1) * 2 ^ w * 2 ^ s =
          mul-le-mul_right (2 ^ s) (grind arith) in
        let all : (t + 1) * 2 ^ w * 2 ^ s ≡ (t + 1) * 2 ^ (s + w) =
          grind (arith, two_pow-add s w) in
        let spread : (t * 2 ^ w + worker + 1) * 2 ^ s ≡ (t * 2 ^ w + worker) * 2 ^ s + 2 ^ s =
          grind arith in
        omega (arith, id_sum, time_room t ht bits)

    -- It has the worker that it was made with.
    pub id-worker : worker_of w s (make_id w s t worker q) ≡ worker
    id-worker = (make_id_fields w s t worker q hw hq (omega (arith, time_room t ht bits))).1

  -- The later of two moments has the greater id.
  make_id_mono :
      (t q t' q' worker : ℕ)
      → t' < 2 ^ tm_bits
      → worker < 2 ^ w
      → q < 2 ^ s
      → q' < 2 ^ s
      → tm_bits + (s + w) ≤ 63
      → (t < t') ⊎ ((t' ≡ t) × (q' ≡ q + 1))
      → make_id w s t worker q < make_id w s t' worker q'
  make_id_mono t q t' q' worker ht hw hq hq' bits (inl later) =
      let step : (t + 1) * 2 ^ w ≤ t' * 2 ^ w = mul-le-mul_right (2 ^ w) (omega arith) in
      let next : (t + 1) * 2 ^ w ≡ t * 2 ^ w + 2 ^ w = grind arith in
      let row : (t * 2 ^ w + worker + 1) * 2 ^ s ≤ (t' * 2 ^ w + worker) * 2 ^ s =
        mul-le-mul_right (2 ^ s) (omega (arith, one-le-pow w 2)) in
      let spread : (t * 2 ^ w + worker + 1) * 2 ^ s ≡ (t * 2 ^ w + worker) * 2 ^ s + 2 ^ s =
        grind arith in
      omega (arith, id_sum t q worker (omega arith) hw hq bits, id_sum t' q' worker ht hw hq' bits)
  make_id_mono t q t' q' worker ht hw hq hq' bits (inr (same, next)) =
      let e : (t' * 2 ^ w + worker) * 2 ^ s ≡ (t * 2 ^ w + worker) * 2 ^ s =
        ap (λ x. (x * 2 ^ w + worker) * 2 ^ s) same in
      omega (arith, id_sum t q worker (omega arith) hw hq bits, id_sum t' q' worker ht hw hq' bits)

  pub Outcome-IsValid :
      {g g' : Snowflake} {id : ℕ}
      → Outcome tm_bits w s g g' id
      → IsValid tm_bits w s g
      → IsValid tm_bits w s g'
  Outcome-IsValid refused v = v
  Outcome-IsValid (issued t q ht hq later) v = record {
    time_fits = ht;
    worker_fits = v.worker_fits;
    sequence_fits = hq;
    bits = v.bits;
  }

  Outcome-id :
      {g g' : Snowflake} {id : ℕ}
      → Outcome tm_bits w s g g' id
      → IsValid tm_bits w s g
      → ((id ≡ 0) × (last_id w s g' ≡ last_id w s g))
        ⊎ ((last_id w s g < id) × (last_id w s g' ≡ id))
  Outcome-id refused v = inl (refl, refl)
  Outcome-id {g} (issued t q ht hq later) v =
      inr
        (make_id_mono _ _ t q g.m_worker_id ht v.worker_fits v.sequence_fits hq v.bits later, refl)

  -- Of one generator the ids rise, whatever the clock does, and each is positive as an int64_t.
  pub run-Rising :
      (n : ℕ) (g : Snowflake) (clock : List Timeval)
      → IsValid tm_bits w s g
      → InTime tm_bits clock
      → Rising (last_id w s g) (run w s n g clock)
  unfolding run
  run-Rising zero g clock v all = tt
  run-Rising (suc n) g clock v all = elim (Option-cases (next_id w s g clock)) [
    | inl waits ↦ rw (run, waits) tt
    | inr ((g', id, rest), e) ↦
        let (o, left) = next_id-Outcome tm_bits w s g g' id clock rest v all e in
        let later : Rising (last_id w s g') (run w s n g' rest) =
          run-Rising n g' rest (Outcome-IsValid o v) left in
        rw (run, e)
          (elim (Outcome-id o v) [
            | inl (none_issued, same) ↦
                inl (none_issued, subst (λ b. Rising b (run w s n g' rest)) same later)
            | inr (above, same) ↦ inr (above, subst (λ b. Rising b (run w s n g' rest)) same later)
          ])
  ]
