-- ===== src/Base64/Table.antt =====
-- base64_chars of zylib/Base64.cpp, looked up in both directions.
use zylib.Prelude.{
  ℕ, zero, suc, ◌<◌, ◌≡◌, refl, sym, inl, inr, Bool, true, false, ◌&&◌, arith, ◌==◌, ==_iff,
  Bool-cases,
}
use mathlib.Core.Path.{subst}
use zylib.Base64.{char_at, find, goes_on}

-- Whether a test holds below a bound, and what it then says.
abbrev below : (ℕ → Bool) → ℕ → Bool
below test zero = true
below test (suc n) = test n && below test n

both : (a b : Bool) → (a && b) ≡ true → (a ≡ true) × (b ≡ true)
both true b e = (refl, e)
both false b e = cc

below_lem : (test : ℕ → Bool) (n i : ℕ) → below test n ≡ true → i < n → test i ≡ true
below_lem test zero i e h = absurd (omega arith)
below_lem test (suc n) i e h = elim (Bool-cases (i == n)) [
  | inl same ↦
      subst (λ k. test k ≡ true) (sym ((==_iff i n).0 same)) (both (test n) (below test n) e).0
  | inr other ↦ below_lem test n i (both (test n) (below test n) e).1 (ground arith)
]

pub find-char_at : (i : ℕ) → i < 64 → find (char_at i) ≡ i
unfolding find char_at
find-char_at i h =
    (==_iff (find (char_at i)) i).0 (below_lem (λ k. find (char_at k) == k) 64 i refl h)

pub goes_on-char_at : (i : ℕ) → i < 64 → goes_on (char_at i) ≡ true
unfolding goes_on char_at
goes_on-char_at i h = below_lem (λ k. goes_on (char_at k)) 64 i refl h
