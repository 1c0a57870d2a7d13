-- ===== src/Wheel/Due/Ordered.antt =====
-- A slot in the order of its ticks: insertion, and the cut at `upper_bound`.
use zylib.Prelude.{
  ℕ, ◌≤◌, ◌<◌, ◌≡◌, refl, ◌⊎◌, inl, inr, true, false, List, [], ◌∷◌, ◌++◌, arith, ltb, leb,
  if◌then◌else◌, ltb→ge, le→leb, gt→leb, Bool-cases, All,
}
use mathlib.Core.Path.{subst}
use native.Mathlib.Nat.{le_trans}
use zylib.Wheel.{Entry, slot_insert, due, not_due}

module _ {T : Type 0} where
  abbrev pub Ascending : List (Entry T) → Type 0
  Ascending [] = Unit
  Ascending (x ∷ s) = All (λ y. x.tick ≤ y.tick) s × Ascending s

  -- The entry is in the slot.
  abbrev pub In : Entry T → List (Entry T) → Type 0
  In e [] = ⊥
  In e (x ∷ s) = (x ≡ e) ⊎ In e s

  pub In-All : (P : Entry T → Type 0) (e : Entry T) (s : List (Entry T)) → In e s → All P s → P e
  In-All P e [] i h = absurd i
  In-All P e (x ∷ s) (inl p) h = subst P p h.0
  In-All P e (x ∷ s) (inr i) h = In-All P e s i h.1

  -- A slot without one of its entries.
  pub All-removed :
      (P : Entry T → Type 0) (front back : List (Entry T)) (e : Entry T)
      → All P (front ++ e ∷ back)
      → All P (front ++ back)
  All-removed P [] back e h = h.1
  All-removed P (x ∷ front) back e h = (h.0, All-removed P front back e h.1)

  pub Ascending-removed :
      (front back : List (Entry T)) (e : Entry T)
      → Ascending (front ++ e ∷ back)
      → Ascending (front ++ back)
  Ascending-removed [] back e h = h.1
  Ascending-removed (x ∷ front) back e h =
      (All-removed (λ y. x.tick ≤ y.tick) front back e h.0, Ascending-removed front back e h.1)

  pub In-middle : (front back : List (Entry T)) (e : Entry T) → In e (front ++ e ∷ back)
  In-middle [] back e = inl refl
  In-middle (x ∷ front) back e = inr (In-middle front back e)

  pub All-insert :
      (P : Entry T → Type 0) (e : Entry T) (s : List (Entry T))
      → P e
      → All P s
      → All P (slot_insert e s)
  unfolding slot_insert
  All-insert P e [] p h = (p, tt)
  All-insert P e (x ∷ s) p h =
      elim (ltb e.tick x.tick) as (λ b. All P (if b then e ∷ x ∷ s else x ∷ slot_insert e s)) [
        | true ↦ (p, h)
        | false ↦ (h.0, All-insert P e s p h.1)
      ]

  pub All-map :
      (P Q : Entry T → Type 0) (s : List (Entry T))
      → ((e : Entry T) → P e → Q e)
      → All P s
      → All Q s
  All-map P Q [] f h = tt
  All-map P Q (x ∷ s) f h = (f x h.0, All-map P Q s f h.1)

  pub All-map_both :
      (P Q R : Entry T → Type 0) (s : List (Entry T))
      → ((e : Entry T) → P e → Q e → R e)
      → All P s
      → All Q s
      → All R s
  All-map_both P Q R [] f h k = tt
  All-map_both P Q R (x ∷ s) f h k = (f x h.0 k.0, All-map_both P Q R s f h.1 k.1)

  pub Ascending-insert :
      (e : Entry T) (s : List (Entry T)) → Ascending s → Ascending (slot_insert e s)
  unfolding slot_insert
  Ascending-insert e [] h = (tt, tt)
  Ascending-insert e (x ∷ s) h = elim (Bool-cases (ltb e.tick x.tick)) [
    | inl b ↦ rw b (
      (
        ground arith,
        All-map (λ y. x.tick ≤ y.tick) (λ y. e.tick ≤ y.tick) s (λ y p. ground arith) h.0,
      ),
      h,
    )
    | inr b ↦
        rw b (All-insert (λ y. x.tick ≤ y.tick) e s (ltb→ge _ _ b) h.0, Ascending-insert e s h.1)
  ]

  pub In-insert_self : (e : Entry T) (s : List (Entry T)) → In e (slot_insert e s)
  unfolding slot_insert
  In-insert_self e [] = inl refl
  In-insert_self e (x ∷ s) =
      elim (ltb e.tick x.tick) as (λ b. In e (if b then e ∷ x ∷ s else x ∷ slot_insert e s)) [
        | true ↦ inl refl
        | false ↦ inr (In-insert_self e s)
      ]

  pub In-insert : (e f : Entry T) (s : List (Entry T)) → In e s → In e (slot_insert f s)
  unfolding slot_insert
  In-insert e f [] i = absurd i
  In-insert e f (x ∷ s) i =
      elim (ltb f.tick x.tick) as (λ b. In e (if b then f ∷ x ∷ s else x ∷ slot_insert f s)) [
        | true ↦ inr i
        | false ↦ elim i [ inl p ↦ inl p | inr j ↦ inr (In-insert e f s j) ]
      ]

  -- What is due is due, what is not is later, and both were in the slot.
  pub due-le : (t : ℕ) (s : List (Entry T)) → All (λ x. x.tick ≤ t) (due t s)
  unfolding due
  due-le t [] = tt
  due-le t (x ∷ s) = elim (Bool-cases (leb x.tick t)) [
    | inl b ↦ rw b (ground arith, due-le t s)
    | inr b ↦ rw b tt
  ]

  pub not_due-gt : (t : ℕ) (s : List (Entry T)) → Ascending s → All (λ x. t < x.tick) (not_due t s)
  unfolding not_due
  not_due-gt t [] h = tt
  not_due-gt t (x ∷ s) h = elim (Bool-cases (leb x.tick t)) [
    | inl b ↦ rw b (not_due-gt t s h.1)
    | inr b ↦
        rw b (
          ground arith,
          All-map (λ y. x.tick ≤ y.tick) (λ y. t < y.tick) s (λ y p. ground arith) h.0,
        )
  ]

  pub All-not_due :
      (P : Entry T → Type 0) (t : ℕ) (s : List (Entry T)) → All P s → All P (not_due t s)
  unfolding not_due
  All-not_due P t [] h = tt
  All-not_due P t (x ∷ s) h =
      elim (leb x.tick t) as (λ b. All P (if b then not_due t s else x ∷ s)) [
        | true ↦ All-not_due P t s h.1
        | false ↦ h
      ]

  pub Ascending-not_due : (t : ℕ) (s : List (Entry T)) → Ascending s → Ascending (not_due t s)
  unfolding not_due
  Ascending-not_due t [] h = tt
  Ascending-not_due t (x ∷ s) h =
      elim (leb x.tick t) as (λ b. Ascending (if b then not_due t s else x ∷ s)) [
        | true ↦ Ascending-not_due t s h.1
        | false ↦ h
      ]

  pub In-due : (e : Entry T) (t : ℕ) (s : List (Entry T)) → In e (due t s) → In e s
  unfolding due
  In-due e t [] = λ i. absurd i
  In-due e t (x ∷ s) =
      elim (leb x.tick t) as (λ b. In e (if b then x ∷ due t s else []) → In e (x ∷ s)) [
        | true ↦ λ i. elim i [ inl p ↦ inl p | inr j ↦ inr (In-due e t s j) ]
        | false ↦ λ i. absurd i
      ]

  -- An entry of an ordered slot stays exactly if its tick is later.
  pub In-due_of_le :
      (e : Entry T) (t : ℕ) (s : List (Entry T))
      → Ascending s
      → e.tick ≤ t
      → In e s
      → In e (due t s)
  unfolding due
  In-due_of_le e t [] h l i = absurd i
  In-due_of_le e t (x ∷ s) h l (inl p) = rw (le→leb x.tick t (rw p l)) (inl p)
  In-due_of_le e t (x ∷ s) h l (inr i) =
      let first : x.tick ≤ e.tick = In-All (λ y. x.tick ≤ y.tick) e s i h.0 in
      rw (le→leb x.tick t (le_trans first l)) (inr (In-due_of_le e t s h.1 l i))

  pub In-not_due :
      (e : Entry T) (t : ℕ) (s : List (Entry T)) → t < e.tick → In e s → In e (not_due t s)
  unfolding not_due
  In-not_due e t [] l i = absurd i
  In-not_due e t (x ∷ s) l (inl p) = rw (gt→leb x.tick t (rw p l)) (inl p)
  In-not_due e t (x ∷ s) l (inr i) =
      elim (leb x.tick t) as (λ b. In e (if b then not_due t s else x ∷ s)) [
        | true ↦ In-not_due e t s l i
        | false ↦ inr i
      ]
