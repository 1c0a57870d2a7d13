-- ===== src/Algorithm.antt =====
-- experimental/Algorithm.h: the combinations of a set. A place in src is the list of what stands from
-- it on, and the buffer is written in place. src is not a null pointer.
pub mod Combinations
pub mod Counting
mod Tests
use zylib.Prelude.{
  ℕ, zero, suc, ◌+◌, ◌-◌, true, false, Option, none, some, List, [], ◌∷◌, ◌++◌, ltb, leb, ◌==◌,
  if◌then◌else◌, length, set, take, replicate,
}

module _ {A : Type 0} where
  -- The loop of combinational_detail, with the test that its recursive call begins by: the buffer and
  -- out behind it.
  unfoldable pub combinational_loop :
      ℕ → List A → ℕ → List A → List (List A) → List A × List (List A)
  combinational_loop need [] needpos buffer out = (buffer, out)
  combinational_loop need (x ∷ rest) needpos buffer out =
      let written = set buffer needpos x in
      let deeper : List A × List (List A) = elim (needpos + 1 == need) [
        | true ↦ (written, out ++ take need written ∷ [])
        | false ↦ combinational_loop need rest (needpos + 1) written out
      ] in
      let onward = combinational_loop need rest needpos deeper.0 deeper.1 in
      if ltb (length (x ∷ rest)) (need - needpos) then (buffer, out) else onward

  unfoldable pub combinational_detail :
      List A → ℕ → List A → List (List A) → ℕ → List A × List (List A)
  combinational_detail src need buffer out needpos =
      if needpos == need
      then (buffer, out ++ take need buffer ∷ [])
      else combinational_loop need src needpos buffer out

  -- `none` is the assertion that fails.
  unfoldable pub combinational : List A → ℕ → List A → List (List A) → Option (List (List A))
  combinational src need buffer out =
      if leb need (length src)
      then if need == 0 then some out else some (combinational_detail src need buffer out 0).1
      else none

  module _ (default : A) where
    -- The loop of permutation, with the rounds that are left. Each has a new buffer and appends.
    unfoldable pub permutation_loop : ℕ → ℕ → List A → List (List A) → Option (List (List A))
    permutation_loop zero i src out = some out
    permutation_loop (suc rounds) i src out = elim (combinational src i (replicate i default) []) [
      | none ↦ none
      | some ret ↦ permutation_loop rounds (i + 1) src (out ++ ret)
    ]

    unfoldable pub permutation : List A → List (List A) → Option (List (List A))
    permutation src out =
        if length src == 0 then some out else permutation_loop (length src) 1 src out
