-- ===== src/Wheel/Slot.antt =====
-- A slot and the ids in it: what insertion, the cut at `upper_bound` and erasure do to their number.
use zylib.Prelude.{
  ℕ, zero, suc, ◌+◌, ◌≤◌, ◌<◌, ◌≡◌, refl, Bool, true, false, not, Option, none, some, List, [], ◌∷◌,
  ◌++◌, arith, ◌==◌, if◌then◌else◌, length, get_or, set,
}
use mathlib.Core.Option
use zylib.Wheel.{
  Entry, slot_insert, due, not_due, erase_id, has_id, erase_all, slot_erase, wheel_entries_count,
}

-- 1 where the two ids are one.
abbrev pub hit : ℕ → ℕ → ℕ
hit i j = if i == j then 1 else 0

-- How often an id stands in a list of ids, in a slot, and in all slots.
abbrev pub count : ℕ → List ℕ → ℕ
count i [] = 0
count i (j ∷ js) = hit i j + count i js

module _ {T : Type 0} where
  abbrev pub holds : ℕ → List (Entry T) → ℕ
  holds i [] = 0
  holds i (x ∷ s) = hit i x.id + holds i s

  abbrev pub holds_all : ℕ → List (List (Entry T)) → ℕ
  holds_all i [] = 0
  holds_all i (s ∷ ss) = holds i s + holds_all i ss

  pub length-slot_insert :
      (e : Entry T) (s : List (Entry T)) → length (slot_insert e s) ≡ length s + 1
  unfolding slot_insert
  length-slot_insert e [] = refl
  length-slot_insert e (x ∷ s) = ground (arith, length-slot_insert e s)

  pub holds-slot_insert :
      (i : ℕ) (e : Entry T) (s : List (Entry T))
      → holds i (slot_insert e s) ≡ hit i e.id + holds i s
  unfolding slot_insert
  holds-slot_insert i e [] = refl
  holds-slot_insert i e (x ∷ s) = ground (arith, holds-slot_insert i e s)

  pub length-due : (t : ℕ) (s : List (Entry T)) → length (due t s) + length (not_due t s) ≡ length s
  unfolding due not_due
  length-due t [] = refl
  length-due t (x ∷ s) = ground (arith, length-due t s)

  pub holds-due :
      (i t : ℕ) (s : List (Entry T)) → holds i (due t s) + holds i (not_due t s) ≡ holds i s
  unfolding due not_due
  holds-due i t [] = refl
  holds-due i t (x ∷ s) = ground (arith, holds-due i t s)

  pub count_set :
      (i k : ℕ) (s : List (Entry T)) (ss : List (List (Entry T)))
      → k < length ss
      → holds_all i (set ss k s) + holds i (get_or ss k []) ≡ holds_all i ss + holds i s
  count_set i k s [] h = absurd (omega arith)
  count_set i zero s (t ∷ ss) h = omega arith
  count_set i (suc k) s (t ∷ ss) h = omega (arith, count_set i k s ss (omega arith))

  pub size_set :
      (k : ℕ) (s : List (Entry T)) (ss : List (List (Entry T)))
      → k < length ss
      → wheel_entries_count (set ss k s) + length (get_or ss k [])
        ≡ wheel_entries_count ss + length s
  unfolding wheel_entries_count
  size_set k s [] h = absurd (omega arith)
  size_set zero s (t ∷ ss) h = omega arith
  size_set (suc k) s (t ∷ ss) h = omega (arith, size_set k s ss (omega arith))

pub count-append : (i : ℕ) (js ks : List ℕ) → count i (js ++ ks) ≡ count i js + count i ks
count-append i [] ks = omega arith
count-append i (j ∷ js) ks = omega (arith, count-append i js ks)

-- Erasing an id that is there.
pub count-erase_id :
    (i k : ℕ) (js : List ℕ) → 1 ≤ count k js → count i (erase_id k js) + hit i k ≡ count i js
unfolding erase_id
count-erase_id i k [] h = absurd (omega arith)
count-erase_id i k (j ∷ js) h = ground (arith, count-erase_id i k js)

pub length-erase_id :
    (k : ℕ) (js : List ℕ) → 1 ≤ count k js → length (erase_id k js) + 1 ≡ length js
unfolding erase_id
length-erase_id k [] h = absurd (omega arith)
length-erase_id k (j ∷ js) h = ground (arith, length-erase_id k js)

pub has_id-count : (k : ℕ) (js : List ℕ) → 1 ≤ count k js → has_id k js ≡ true
unfolding has_id
has_id-count k [] h = absurd (omega arith)
has_id-count k (j ∷ js) h = ground (arith, has_id-count k js)

module _ {T : Type 0} where
  -- Erasing the ids of entries that are all there.
  pub count-erase_all :
      (es : List (Entry T)) (js : List ℕ)
      → ((i : ℕ) → holds i es ≤ count i js)
      → ((i : ℕ) → count i (erase_all es js) + holds i es ≡ count i js)
        × (length (erase_all es js) + length es ≡ length js)
  unfolding erase_all
  count-erase_all [] js h = (λ i. omega arith, omega arith)
  count-erase_all (e ∷ es) js h =
      let there : 1 ≤ count e.id js = ground (arith, h e.id) in
      let (counts, size) =
        count-erase_all es (erase_id e.id js)
          (λ i. omega (arith, h i, count-erase_id i e.id js there)) in
      (
        λ i. omega (arith, counts i, count-erase_id i e.id js there),
        omega (arith, size, length-erase_id e.id js there),
      )

  -- What `slot_erase` takes out: one entry with the id, and `none` only if there is none.
  abbrev pub Erases : ℕ → List (Entry T) → Option (List (Entry T) × Bool) → Type 0
  Erases i s none = holds i s ≡ 0
  Erases i s (some (r, more)) =
      (length r + 1 ≡ length s) × ((k : ℕ) → holds k r + hit k i ≡ holds k s)

  Erases-cons :
      (i : ℕ) (x : Entry T) (s : List (Entry T)) (here : Bool) (o : Option (List (Entry T) × Bool))
      → (x.id == i) ≡ here
      → Erases i s o
      → Erases i
          (x ∷ s)
          (if here then some (s, not (length s == 0)) else Option.map (λ r. (x ∷ r.0, r.1)) o)
  Erases-cons i x s true o e h = (omega arith, λ k. ground arith)
  Erases-cons i x s false none e h = ground arith
  Erases-cons i x s false (some (r, more)) e h = (omega (arith, h.0), λ k. omega (arith, h.1 k))

  pub slot_erase-Erases : (i : ℕ) (s : List (Entry T)) → Erases i s (slot_erase i s)
  unfolding slot_erase
  slot_erase-Erases i [] = refl
  slot_erase-Erases i (x ∷ s) =
      Erases-cons i x s (x.id == i) (slot_erase i s) refl (slot_erase-Erases i s)
