-- ===== src/Snowflake/Steps.antt =====
-- experimental/Snowflake.h: what one call of nextID gives.
use zylib.Prelude.{
  ℕ, ◌+◌, ◌-◌, ◌%◌, ◌^◌, ◌≤◌, ◌<◌, ◌≡◌, refl, sym, ap, ◌∙◌, ◌⊎◌, inl, inr, false, Option, none,
  some, List, [], ◌∷◌, arith, ltb, leb, ◌==◌, ltb→lt, ltb→ge, ==_iff, Bool-cases, All,
}
use Prim.Native.Nat.{bit_and}
use native.Mathlib.Nat.{pow-le-pow_right, one-le-pow, mod-eq_of_lt, mod_self}
use mathlib.Core.Path.{subst}
use zylib.Prelude.Bits.{bit_and_ones}
use zylib.Snowflake.{
  Snowflake, Timeval, u64, gen_timestamp, wait_next_milliseconds, make_id, issue, issue_after_wait,
  next_sequence, next_id,
}

-- The readings of the clock fit the bits for the time.
abbrev pub InTime : ℕ → List Timeval → Type 0
InTime tm_bits clock = All (λ tv. gen_timestamp tv < 2 ^ tm_bits) clock

pub record IsValid (tm_bits w s : ℕ) (g : Snowflake) : Type 0 where
  pub time_fits : g.m_last_timestamp < 2 ^ tm_bits
  pub worker_fits : g.m_worker_id < 2 ^ w
  pub sequence_fits : g.m_sequence < 2 ^ s
  pub bits : tm_bits + (s + w) ≤ 63

-- A call refuses, or it issues an id of a later time, or of the same time with the next sequence number.
pub data Outcome (tm_bits w s : ℕ) (g : Snowflake) : Snowflake → ℕ → Type 0 where
  refused : Outcome tm_bits w s g g 0
  issued :
      (t q : ℕ)
      → t < 2 ^ tm_bits
      → q < 2 ^ s
      → (g.m_last_timestamp < t) ⊎ ((t ≡ g.m_last_timestamp) × (q ≡ g.m_sequence + 1))
      → Outcome tm_bits w s g
          (record g { m_last_timestamp = t; m_sequence = q })
          (make_id w s t g.m_worker_id q)

module _ (tm_bits w s : ℕ) where
  next_sequence-cases :
      (g : Snowflake)
      → IsValid tm_bits w s g
      → (next_sequence w s g ≡ 0)
        ⊎ ((next_sequence w s g ≡ g.m_sequence + 1) × (g.m_sequence + 1 < 2 ^ s))
  unfolding next_sequence
  next_sequence-cases g v =
      let wide : 2 ^ s ≤ 2 ^ 63 = pow-le-pow_right {n = 2} (omega arith) {j = 63} (omega arith) in
      let small : u64 (g.m_sequence + 1) ≡ g.m_sequence + 1 = mod-eq_of_lt (omega arith) in
      let mask : bit_and (u64 (g.m_sequence + 1)) (2 ^ s - 1) ≡ (g.m_sequence + 1) % 2 ^ s =
        rw small (bit_and_ones s (g.m_sequence + 1)) in
      elim (Bool-cases (ltb (g.m_sequence + 1) (2 ^ s))) [
        | inl below ↦ inr (mask ∙ mod-eq_of_lt (ltb→lt _ _ below), ltb→lt _ _ below)
        | inr full ↦
            let e : g.m_sequence + 1 ≡ 2 ^ s =
              omega (arith, ltb→ge (g.m_sequence + 1) (2 ^ s) full) in
            inl (mask ∙ (ap (λ x. x % 2 ^ s) e ∙ mod_self (2 ^ s)))
      ]

  -- The wait ends at a later time.
  abbrev Later : ℕ → Option (ℕ × List Timeval) → Type 0
  Later last none = Unit
  Later last (some (t, rest)) = (last < t) × (t < 2 ^ tm_bits) × InTime tm_bits rest

  wait-Later :
      (last : ℕ) (clock : List Timeval)
      → InTime tm_bits clock
      → Later last (wait_next_milliseconds last clock)
  unfolding wait_next_milliseconds
  wait-Later last [] all = tt
  wait-Later last (tv ∷ clock) all = elim (Bool-cases (leb (gen_timestamp tv) last)) [
    | inl early ↦ rw early (wait-Later last clock all.1)
    | inr late ↦ rw late (ground arith, all.0, all.1)
  ]

  abbrev Gives : Snowflake → Option (Snowflake × ℕ × List Timeval) → Type 0
  Gives g none = Unit
  Gives g (some (g', id, rest)) = Outcome tm_bits w s g g' id × InTime tm_bits rest

  after_wait-Gives :
      (g : Snowflake)
      → IsValid tm_bits w s g
      → (o : Option (ℕ × List Timeval)) → Later g.m_last_timestamp o
      → Gives g (issue_after_wait w s g o)
  unfolding issue_after_wait issue
  after_wait-Gives g v none l = tt
  after_wait-Gives g v (some (t, rest)) l =
      (issued t 0 l.1 (one-le-pow s 2 (omega arith)) (inl l.0), l.2)

  next_id-Gives :
      (g : Snowflake) (clock : List Timeval)
      → IsValid tm_bits w s g
      → InTime tm_bits clock
      → Gives g (next_id w s g clock)
  unfolding next_id issue
  next_id-Gives g [] v all = tt
  next_id-Gives g (tv ∷ clock) v all =
      elim (Bool-cases (ltb (gen_timestamp tv) g.m_last_timestamp)) [
        | inl back ↦ rw back (refused, all.1)
        | inr on ↦ rw on (elim (Bool-cases (g.m_last_timestamp == gen_timestamp tv)) [
          | inr later ↦ rw later (
            issued (gen_timestamp tv) 0 all.0 (one-le-pow s 2 (omega arith)) (inl (ground arith)),
            all.1,
          )
          | inl same ↦ rw same (elim (next_sequence-cases g v) [
            | inl full ↦ rw full (
                after_wait-Gives g v (wait_next_milliseconds g.m_last_timestamp clock)
                  (wait-Later g.m_last_timestamp clock all.1))
            | inr room ↦
                let more : (g.m_sequence + 1 == 0) ≡ false = ground arith in
                rw (room.0, more)
                  (
                    issued (gen_timestamp tv) (g.m_sequence + 1) all.0 room.1
                        (inr (sym ((==_iff _ _).0 same), refl)),
                    all.1,
                  )
          ])
        ])
      ]

  pub next_id-Outcome :
      (g g' : Snowflake) (id : ℕ) (clock rest : List Timeval)
      → IsValid tm_bits w s g
      → InTime tm_bits clock
      → next_id w s g clock ≡ some (g', id, rest)
      → Outcome tm_bits w s g g' id × InTime tm_bits rest
  next_id-Outcome g g' id clock rest v all h = subst (Gives g) h (next_id-Gives g clock v all)
