-- ===== src/Snowflake/Machines.antt =====
-- experimental/Snowflake.h: the ids of two machines, and when a call returns.
use zylib.Prelude.{
  ℕ, zero, suc, ◌<◌, ◌≡◌, refl, sym, ap, ◌∙◌, ◌≢◌, ◌⊎◌, inl, inr, false, Option, none, some, List,
  [], ◌∷◌, ◌++◌, arith, ltb, leb, ◌==◌, gt→leb, Bool-cases, Option-cases, All,
}
use mathlib.Core.Path.{subst}
use zylib.Snowflake.{
  Snowflake, Timeval, gen_timestamp, wait_next_milliseconds, issue_after_wait, next_sequence,
  next_id, run,
}
use zylib.Snowflake.Fields.{worker_of}
use zylib.Snowflake.Steps.{InTime, IsValid, Outcome, refused, issued, next_id-Outcome}
use zylib.Snowflake.Runs.{id-lt, id-worker, Outcome-IsValid}

module _ (tm_bits w s : ℕ) where
  -- An id of the worker, or 0.
  abbrev Marked : ℕ → ℕ → Type 0
  Marked worker id = (id ≡ 0) ⊎ ((worker_of w s id ≡ worker) × (id < 0x8000000000000000))

  Outcome-Marked :
      {g g' : Snowflake} {id : ℕ}
      → Outcome tm_bits w s g g' id
      → IsValid tm_bits w s g
      → Marked g.m_worker_id id × (g'.m_worker_id ≡ g.m_worker_id)
  Outcome-Marked refused v = (inl refl, refl)
  Outcome-Marked {g} (issued t q ht hq later) v = (
    inr (
      id-worker tm_bits w s t q g.m_worker_id ht v.worker_fits hq v.bits,
      id-lt tm_bits w s t q g.m_worker_id ht v.worker_fits hq v.bits,
    ),
    refl,
  )

  -- Each id of a generator is positive as an int64_t and has its machine in it, or it is 0.
  pub run-Marked :
      (n : ℕ) (g : Snowflake) (clock : List Timeval)
      → IsValid tm_bits w s g
      → InTime tm_bits clock
      → All (Marked g.m_worker_id) (run w s n g clock)
  unfolding run
  run-Marked zero g clock v all = tt
  run-Marked (suc n) g clock v all = elim (Option-cases (next_id w s g clock)) [
    | inl waits ↦ rw (run, waits) tt
    | inr ((g', id, rest), e) ↦
        let (o, left) = next_id-Outcome tm_bits w s g g' id clock rest v all e in
        let (mark, same) = Outcome-Marked o v in
        let later : All (Marked g'.m_worker_id) (run w s n g' rest) =
          run-Marked n g' rest (Outcome-IsValid tm_bits w s o v) left in
        rw (run, e) (mark, subst (λ b. All (Marked b) (run w s n g' rest)) same later)
  ]

  Marked-ne : (i j a b : ℕ) → i ≢ j → Marked i a → Marked j b → (a ≡ 0) ⊎ (a ≢ b)
  Marked-ne i j a b h (inl z) m = inl z
  Marked-ne i j a b h (inr (x, small)) (inl z) = ground arith
  Marked-ne i j a b h (inr (x, small)) (inr (y, also)) =
      inr (λ e. h (sym x ∙ (ap (worker_of w s) e ∙ y)))

  one_apart :
      (i j a : ℕ) (bs : List ℕ)
      → i ≢ j
      → Marked i a
      → All (Marked j) bs
      → All (λ b. (a ≡ 0) ⊎ (a ≢ b)) bs
  one_apart i j a [] h m all = tt
  one_apart i j a (b ∷ bs) h m all = (Marked-ne i j a b h m all.0, one_apart i j a bs h m all.1)

  lists_apart :
      (i j : ℕ) (us bs : List ℕ)
      → i ≢ j
      → All (Marked i) us
      → All (Marked j) bs
      → All (λ a. All (λ b. (a ≡ 0) ⊎ (a ≢ b)) bs) us
  lists_apart i j [] bs h l r = tt
  lists_apart i j (a ∷ us) bs h l r = (one_apart i j a bs h l.0 r, lists_apart i j us bs h l.1 r)

  -- Two generators with different machines never give the same id, but for 0.
  pub run-apart :
      (m n : ℕ) (g h : Snowflake) (clock other : List Timeval)
      → IsValid tm_bits w s g
      → IsValid tm_bits w s h
      → InTime tm_bits clock
      → InTime tm_bits other
      → g.m_worker_id ≢ h.m_worker_id
      → All (λ a. All (λ b. (a ≡ 0) ⊎ (a ≢ b)) (run w s n h other)) (run w s m g clock)
  run-apart m n g h clock other v u all both ne =
      lists_apart g.m_worker_id h.m_worker_id (run w s m g clock) (run w s n h other) ne
        (run-Marked m g clock v all) (run-Marked n h other u both)

module _ (w s : ℕ) where
  wait_ends :
      (last : ℕ) (before : List Timeval) (tv : Timeval) (after : List Timeval)
      → last < gen_timestamp tv
      → wait_next_milliseconds last (before ++ tv ∷ after) ≢ none
  unfolding wait_next_milliseconds
  wait_ends last [] tv after h =
      let late : leb (gen_timestamp tv) last ≡ false = gt→leb _ _ h in rw late (λ e. cc)
  wait_ends last (b ∷ before) tv after h = elim (Bool-cases (leb (gen_timestamp b) last)) [
    | inl early ↦ rw early (wait_ends last before tv after h)
    | inr late ↦ rw late (λ e. cc)
  ]

  after_wait_ends :
      (g : Snowflake) (o : Option (ℕ × List Timeval)) → o ≢ none → issue_after_wait w s g o ≢ none
  unfolding issue_after_wait
  after_wait_ends g none h e = h refl
  after_wait_ends g (some (t, rest)) h e = cc

  -- A call returns when the clock is read once, and once more with a later time.
  pub next_id-returns :
      (g : Snowflake) (now : Timeval) (before : List Timeval) (tv : Timeval) (after : List Timeval)
      → g.m_last_timestamp < gen_timestamp tv
      → next_id w s g (now ∷ (before ++ tv ∷ after)) ≢ none
  unfolding next_id
  next_id-returns g now before tv after h =
      let ends =
        after_wait_ends g (wait_next_milliseconds g.m_last_timestamp (before ++ tv ∷ after))
          (wait_ends g.m_last_timestamp before tv after h) in
      elim (Bool-cases (ltb (gen_timestamp now) g.m_last_timestamp)) [
        | inl back ↦ rw back (λ e. cc)
        | inr on ↦ rw on (elim (Bool-cases (g.m_last_timestamp == gen_timestamp now)) [
          | inr later ↦ rw later (λ e. cc)
          | inl same ↦ rw same (elim (Bool-cases (next_sequence w s g == 0)) [
            | inl full ↦ rw full ends
            | inr room ↦ rw room (λ e. cc)
          ])
        ])
      ]
