-- ===== src/Knet/Rpc/Measures.antt =====
-- What is counted in the reports, in the slots and in the timers.
use zylib.Prelude.{
  ℕ, ◌+◌, ◌≤◌, ◌≡◌, refl, Bool, true, false, Option, none, some, List, [], ◌∷◌, ◌++◌, arith, ◌==◌,
  if◌then◌else◌, ==_iff,
}
use mathlib.Core.Option
use mathlib.Core.Path.{subst}
use zylib.Knet.Rpc.{Slot, Report, answered, timed_out, unclaimed, take_at, insert_slot}

abbrev pub same : ℕ → ℕ → ℕ
same a b = if a == b then 1 else 0

-- The reports of an answer to a call, and of its timeout.
abbrev pub answers : ℕ → List Report → ℕ
answers k [] = 0
answers k (answered j ∷ es) = same j k + answers k es
answers k (timed_out j ∷ es) = answers k es
answers k (unclaimed j ∷ es) = answers k es

abbrev pub timeouts : ℕ → List Report → ℕ
timeouts k [] = 0
timeouts k (answered j ∷ es) = timeouts k es
timeouts k (timed_out j ∷ es) = same j k + timeouts k es
timeouts k (unclaimed j ∷ es) = timeouts k es

-- The sum of a measure over a map.
abbrev pub total : {A : Type 0} → (ℕ → A → ℕ) → List (ℕ × A) → ℕ
total m [] = 0
total m ((j, a) ∷ xs) = m j a + total m xs

-- The slots of a call, and its timers.
abbrev pub waiting : ℕ → List (ℕ × Slot) → ℕ
waiting k = total (λ j s. same j k)

abbrev pub timed : ℕ → List (ℕ × ℕ) → ℕ
timed k = total (λ hdl j. same j k)

pub answers-append :
    (k : ℕ) (es fs : List Report) → answers k (es ++ fs) ≡ answers k es + answers k fs
answers-append k [] fs = omega arith
answers-append k (answered j ∷ es) fs = omega (arith, answers-append k es fs)
answers-append k (timed_out j ∷ es) fs = answers-append k es fs
answers-append k (unclaimed j ∷ es) fs = answers-append k es fs

pub timeouts-append :
    (k : ℕ) (es fs : List Report) → timeouts k (es ++ fs) ≡ timeouts k es + timeouts k fs
timeouts-append k [] fs = omega arith
timeouts-append k (answered j ∷ es) fs = timeouts-append k es fs
timeouts-append k (timed_out j ∷ es) fs = omega (arith, timeouts-append k es fs)
timeouts-append k (unclaimed j ∷ es) fs = timeouts-append k es fs

module _ {A : Type 0} (m : ℕ → A → ℕ) where
  pub total-append : (xs ys : List (ℕ × A)) → total m (xs ++ ys) ≡ total m xs + total m ys
  total-append [] ys = omega arith
  total-append ((j, a) ∷ xs) ys = omega (arith, total-append xs ys)

  -- Taking an element out of a map.
  abbrev pub Takes : ℕ → List (ℕ × A) → Option (A × List (ℕ × A)) → Type 0
  Takes k xs none = Unit
  Takes k xs (some (a, rest)) = total m rest + m k a ≡ total m xs

  pub take_at-Takes : (k : ℕ) (xs : List (ℕ × A)) → Takes k xs (take_at k xs)
  unfolding take_at
  take_at-Takes k [] = tt
  take_at-Takes k ((j, a) ∷ xs) = takes_cons (j == k) (take_at k xs) refl (take_at-Takes k xs)
    where
      takes_cons :
          (here : Bool) (o : Option (A × List (ℕ × A)))
          → (j == k) ≡ here
          → Takes k xs o
          → Takes k
              ((j, a) ∷ xs)
              (if here then some (a, xs) else Option.map (λ r. (r.0, (j, a) ∷ r.1)) o)
      takes_cons true o e h =
          subst (λ i. total m xs + m i a ≡ m j a + total m xs) ((==_iff j k).0 e) (omega arith)
      takes_cons false none e h = tt
      takes_cons false (some (b, rest)) e h = omega (arith, h)

-- Inserting adds one slot at most.
pub waiting-insert_slot :
    (k key : ℕ) (s : Slot) (slots : List (ℕ × Slot))
    → waiting k (insert_slot key s slots) ≤ waiting k slots + same key k
unfolding insert_slot
waiting-insert_slot k key s slots =
    elim (take_at key slots)
      as (λ o.
        waiting k (elim o [ none ↦ slots ++ (key, s) ∷ [] | some r ↦ slots ])
        ≤ waiting k slots + same key k) [
          | none ↦ omega (arith, total-append (λ j t. same j k) slots ((key, s) ∷ []))
          | some r ↦ omega arith
        ]
