-- ===== src/Wheel/Count.antt =====
-- zysoft/timer/timing_wheel.h: the wheel's books, `all_entries` against the slots and the immediate
-- entries, whose sizes its assertions compare.
use zylib.Prelude.{
  ℕ, ◌+◌, ◌%◌, ◌^◌, ◌≤◌, ◌<◌, ◌≡◌, ◌∙◌, inl, inr, Bool, true, false, List, [], ◌∷◌, ◌++◌, map,
  arith, ◌==◌, ==_iff, Bool-cases, length, length-append, length-set,
}
use native.Mathlib.Nat.{mod-lt}
use zylib.Wheel.{
  Entry, Wheel, Outcome, done, assert, and_then, slot_insert, due, not_due, erase_all,
  wheel_entries_count, sizes_agree, slot_at, with_slot, add, payload, get_expired_at,
}
use zylib.Wheel.Slot.{
  count, holds, holds_all, length-slot_insert, holds-slot_insert, length-due, holds-due, count_set,
  size_set, count-append, count-erase_all,
}

pub record Tracked {T : Type 0} (w : Wheel T) : Type 0 where
  pub some_slots : 1 ≤ length w.slots
  pub sizes : length w.all_entries ≡ wheel_entries_count w.slots + length w.immediate_entries
  pub ids : (i : ℕ) → count i w.all_entries ≡ holds_all i w.slots + holds i w.immediate_entries

pos→ne : (d : ℕ) → 1 ≤ d → (d == 0) ≡ false
pos→ne d h = ground arith

pub assert_passes : (asserts test : Bool) → test ≡ true → assert asserts test ≡ done tt
assert_passes asserts test e = ground arith

module _ {T : Type 0} where
  pub Tracked-sizes_agree : (w : Wheel T) → Tracked w → sizes_agree w ≡ true
  unfolding sizes_agree
  Tracked-sizes_agree w t = (==_iff _ _).1 t.sizes

  -- A call that has passed its first assertion.
  pub passed :
      {B : Type 0} (asserts : Bool) (w : Wheel T) (f : Unit {0} → Outcome B)
      → Tracked w
      → and_then (assert asserts (sizes_agree w)) f ≡ f tt
  passed asserts w f t = rw (assert_passes asserts (sizes_agree w) (Tracked-sizes_agree w t))

  pub holds-append : (i : ℕ) (xs ys : List (Entry T)) → holds i (xs ++ ys) ≡ holds i xs + holds i ys
  holds-append i [] ys = omega arith
  holds-append i (x ∷ xs) ys = omega (arith, holds-append i xs ys)

  pub index_in : (n : ℕ) (w : Wheel T) → Tracked w → n % length w.slots < length w.slots
  index_in n w t = mod-lt n t.some_slots

  -- Another slot, and other books, that change by one another's measure.
  pub with_slot-Tracked :
      (w : Wheel T) (k : ℕ) (s : List (Entry T)) (imm : List (Entry T)) (all : List ℕ) (next : ℕ)
      → Tracked w
      → k < length w.slots
      → length all + length (slot_at w k) + length w.immediate_entries
        ≡ length w.all_entries + length s + length imm
      → ((i : ℕ)
          → count i all + holds i (slot_at w k) + holds i w.immediate_entries
            ≡ count i w.all_entries + holds i s + holds i imm)
      → Tracked
          (record (with_slot w k s) { immediate_entries = imm; all_entries = all; next_id = next })
  with_slot-Tracked w k s imm all next t h l c = record {
    some_slots = omega (arith, t.some_slots, length-set w.slots k s);
    sizes = omega (arith, t.sizes, size_set k s w.slots h);
    ids = λ i. omega (arith, t.ids i, count_set i k s w.slots h, c i);
  }

  -- What `add` makes: the entry, due at once or later, and the wheel with it.
  abbrev pub entry_now : Wheel T → T → ℕ → Entry T
  entry_now w v d = record { id = w.next_id; tick = w.current_tick; duration = d; value = v }

  abbrev pub entry_later : Wheel T → T → ℕ → Entry T
  entry_later w v d = record {
    id = w.next_id;
    tick = (d + w.current_tick) % 2 ^ 64;
    duration = d;
    value = v;
  }

  abbrev pub added_now : Wheel T → T → ℕ → Wheel T
  added_now w v d = record w {
    immediate_entries = w.immediate_entries ++ entry_now w v d ∷ [];
    all_entries = w.all_entries ++ w.next_id ∷ [];
    next_id = w.next_id + 1;
  }

  abbrev pub added_later : Wheel T → T → ℕ → Wheel T
  added_later w v d =
      let e = entry_later w v d in
      let index = e.tick % length w.slots in
      record (with_slot w index (slot_insert e (slot_at w index))) {
        all_entries = w.all_entries ++ w.next_id ∷ [];
        next_id = w.next_id + 1;
      }

  pub added_now-Tracked : (w : Wheel T) (v : T) (d : ℕ) → Tracked w → Tracked (added_now w v d)
  added_now-Tracked w v d t = record {
    some_slots = t.some_slots;
    sizes = omega (
      arith,
      t.sizes,
      length-append w.all_entries (w.next_id ∷ []),
      length-append w.immediate_entries (entry_now w v d ∷ []),
    );
    ids = λ i. omega (
      arith,
      t.ids i,
      count-append i w.all_entries (w.next_id ∷ []),
      holds-append i w.immediate_entries (entry_now w v d ∷ []),
    );
  }

  pub added_later-Tracked : (w : Wheel T) (v : T) (d : ℕ) → Tracked w → Tracked (added_later w v d)
  added_later-Tracked w v d t =
      let e = entry_later w v d in
      let index = e.tick % length w.slots in
      with_slot-Tracked w index (slot_insert e (slot_at w index)) w.immediate_entries
        (w.all_entries ++ w.next_id ∷ []) (w.next_id + 1) t (index_in _ w t)
        (omega (
          arith,
          length-append w.all_entries (w.next_id ∷ []),
          length-slot_insert e (slot_at w index),
        ))
        (λ i. omega (
          arith,
          count-append i w.all_entries (w.next_id ∷ []),
          holds-slot_insert i e (slot_at w index),
        ))

  pub add_later :
      (asserts : Bool) (w : Wheel T) (v : T) (d : ℕ)
      → Tracked w
      → 1 ≤ d
      → add asserts w v d ≡ done (added_later w v d, w.next_id)
  unfolding add
  add_later asserts w v d t h =
      passed asserts w _ t
      ∙ rw (pos→ne d h) (passed asserts (added_later w v d) _ (added_later-Tracked w v d t))

  -- `add` passes its assertions and keeps the books.
  pub add-Tracked :
      (asserts : Bool) (w : Wheel T) (v : T) (d : ℕ)
      → Tracked w
      → (r : Wheel T) × (add asserts w v d ≡ done (r, w.next_id)) × Tracked r
  unfolding add
  add-Tracked asserts w v d t = elim (Bool-cases (d == 0)) [
    | inl e ↦ (added_now w v d, passed asserts w _ t ∙ rw e, added_now-Tracked w v d t)
    | inr e ↦
        (added_later w v d, add_later asserts w v d t (ground arith), added_later-Tracked w v d t)
  ]

  -- The wheel that `get_expired_at` leaves.
  abbrev pub polled : Wheel T → ℕ → Wheel T
  polled w t =
      let index = w.current_tick % length w.slots in
      let s = slot_at w index in
      record (with_slot w index (not_due t s)) {
        immediate_entries = [];
        all_entries = erase_all (due t s) (erase_all w.immediate_entries w.all_entries);
      }

  polled-Tracked : (w : Wheel T) (t : ℕ) → Tracked w → Tracked (polled w t)
  polled-Tracked w t k =
      with_slot-Tracked w index (not_due t s) [] _ w.next_id k (index_in _ w k)
        (omega (arith, first.1, second.1, length-due t s))
        (λ i. omega (arith, first.0 i, second.0 i, holds-due i t s))
    where
      index : ℕ
      index = w.current_tick % length w.slots

      s : List (Entry T)
      s = slot_at w index

      first :
          ((i : ℕ)
            → count i (erase_all w.immediate_entries w.all_entries) + holds i w.immediate_entries
              ≡ count i w.all_entries)
          × (length (erase_all w.immediate_entries w.all_entries) + length w.immediate_entries
              ≡ length w.all_entries)
      first = count-erase_all w.immediate_entries w.all_entries (λ i. omega (arith, k.ids i))

      second :
          ((i : ℕ)
            → count i (erase_all (due t s) (erase_all w.immediate_entries w.all_entries))
                + holds i (due t s)
              ≡ count i (erase_all w.immediate_entries w.all_entries))
          × (length (erase_all (due t s) (erase_all w.immediate_entries w.all_entries))
                + length (due t s)
              ≡ length (erase_all w.immediate_entries w.all_entries))
      second = count-erase_all (due t s) (erase_all w.immediate_entries w.all_entries) (λ i. omega (
        arith,
        k.ids i,
        first.0 i,
        holds-due i t s,
        count_set i index [] w.slots (index_in _ w k),
      ))

  -- `get_expired` passes its assertions and keeps the books, whatever tick it is given.
  pub get_expired_at-Tracked :
      (asserts : Bool) (w : Wheel T) (t : ℕ)
      → Tracked w
      → (get_expired_at asserts w t
          ≡ done (
            polled w t,
            map payload w.immediate_entries
                ++ map payload (due t (slot_at w (w.current_tick % length w.slots))),
          ))
        × Tracked (polled w t)
  unfolding get_expired_at
  get_expired_at-Tracked asserts w t k = (
    passed asserts w _ k ∙ passed asserts (polled w t) _ (polled-Tracked w t k),
    polled-Tracked w t k,
  )
