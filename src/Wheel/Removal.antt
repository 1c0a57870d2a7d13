-- ===== src/Wheel/Removal.antt =====
-- zysoft/timer/timing_wheel.h: `cancel`, which takes an entry out of its slot.
use zylib.Prelude.{
  ℕ, ◌+◌, ◌%◌, ◌≤◌, ◌≡◌, refl, ap, ◌∙◌, Bool, true, false, not, ◌&&◌, none, some, List, [], ◌∷◌,
  ◌++◌, arith, ◌==◌, ==_iff, length, length-append,
}
use zylib.Wheel.{
  Entry, Wheel, done, aborted, undefined, assert, and_then, slot_erase, erase_id, sizes_agree,
  slot_at, with_slot, remove_from_slot, cancel_entry, cancel, lock,
}
use zylib.Wheel.Slot.{hit, count, holds, count_set, has_id-count, count-erase_id, length-erase_id}
use zylib.Wheel.Count.{Tracked, passed, with_slot-Tracked, index_in, holds-append}

-- The assertion on what `slot_remove_entry` returns.
pub not_last :
    (asserts last : Bool) → (asserts && last) ≡ false → assert asserts (not last) ≡ done tt
not_last false last a = refl
not_last true true a = cc
not_last true false a = refl

module _ {T : Type 0} where
  -- Erasing the first entry with an id: `false` beside the rest if nothing stands behind it.
  pub slot_erase-at :
      (i : ℕ) (front back : List (Entry T)) (e : Entry T)
      → e.id ≡ i
      → holds i front ≡ 0
      → slot_erase i (front ++ e ∷ back) ≡ some (front ++ back, not (length back == 0))
  unfolding slot_erase
  slot_erase-at i [] back e p h = rw ((==_iff e.id i).1 p)
  slot_erase-at i (x ∷ front) back e p h = rw (other, slot_erase-at i front back e p (omega arith))
    where
      other : (x.id == i) ≡ false
      other = ground arith

  slot_erase-none : (i : ℕ) (s : List (Entry T)) → holds i s ≡ 0 → slot_erase i s ≡ none
  unfolding slot_erase
  slot_erase-none i [] h = refl
  slot_erase-none i (x ∷ s) h = rw (other, slot_erase-none i s (omega arith))
    where
      other : (x.id == i) ≡ false
      other = ground arith

  -- An entry that stands in its slot, behind `front` and before `back`, and is the one that the
  -- handle leads to.
  pub record Stands (w : Wheel T) (hdl : ℕ) (front back : List (Entry T)) (e : Entry T)
      : Type 0 where
    pub led : lock w hdl ≡ some e
    pub place : slot_at w (e.tick % length w.slots) ≡ front ++ e ∷ back
    pub first : holds e.id front ≡ 0

  holds-at :
      (i : ℕ) (front back : List (Entry T)) (e : Entry T)
      → holds i (front ++ e ∷ back) ≡ holds i front + (hit i e.id + holds i back)
  holds-at i [] back e = omega arith
  holds-at i (x ∷ front) back e = omega (arith, holds-at i front back e)

  pub listed :
      (w : Wheel T) (hdl : ℕ) (front back : List (Entry T)) (e : Entry T)
      → Tracked w
      → Stands w hdl front back e
      → 1 ≤ count e.id w.all_entries
  listed w hdl front back e t s =
      let index = e.tick % length w.slots in
      let here : holds e.id (slot_at w index) ≡ holds e.id (front ++ e ∷ back) =
        ap (holds e.id) s.place in
      ground (
        arith,
        t.ids e.id,
        here,
        holds-at e.id front back e,
        count_set e.id index [] w.slots (index_in _ w t),
      )

  -- What `cancel_entry` does with what `slot_remove_entry` returns.
  cancel_entry-some :
      (asserts : Bool) (w : Wheel T) (e : Entry T) (s : List (Entry T)) (more : Bool)
      → Tracked w
      → 1 ≤ count e.id w.all_entries
      → slot_erase e.id (slot_at w (e.tick % length w.slots)) ≡ some (s, more)
      → let w' : Wheel T = record (with_slot w (e.tick % length w.slots) s) {
        all_entries = erase_id e.id w.all_entries;
      } in
        cancel_entry asserts w e
        ≡ and_then
            (assert asserts more)
            (λ _. and_then (assert asserts (sizes_agree w')) (λ _. done w'))
  unfolding cancel_entry remove_from_slot
  cancel_entry-some asserts w e s more t c p =
      passed asserts w _ t
      ∙ rw (has_id-count e.id w.all_entries c, p, remove_from_slot) (ground arith)

  cancel_entry-none :
      (asserts : Bool) (w : Wheel T) (e : Entry T)
      → Tracked w
      → 1 ≤ count e.id w.all_entries
      → slot_erase e.id (slot_at w (e.tick % length w.slots)) ≡ none
      → cancel_entry asserts w e ≡ undefined
  unfolding cancel_entry remove_from_slot
  cancel_entry-none asserts w e t c p =
      passed asserts w _ t ∙ rw (has_id-count e.id w.all_entries c, p, remove_from_slot)

  cancel-led :
      (asserts : Bool) (w : Wheel T) (hdl : ℕ) (e : Entry T)
      → lock w hdl ≡ some e
      → cancel asserts w hdl ≡ cancel_entry asserts w e
  unfolding cancel
  cancel-led asserts w hdl e l = rw (l, cancel)

  pub removed-Tracked :
      (w : Wheel T) (hdl : ℕ) (front back : List (Entry T)) (e : Entry T)
      → Tracked w
      → Stands w hdl front back e
      → Tracked (record (with_slot w (e.tick % length w.slots) (front ++ back)) {
        all_entries = erase_id e.id w.all_entries;
      })
  removed-Tracked w hdl front back e t s =
      let index = e.tick % length w.slots in
      let there = listed w hdl front back e t s in
      let size : length (slot_at w index) ≡ length (front ++ e ∷ back) = ap length s.place in
      with_slot-Tracked w index (front ++ back) w.immediate_entries (erase_id e.id w.all_entries)
        w.next_id t (index_in _ w t)
        (omega (
          arith,
          size,
          length-append front (e ∷ back),
          length-append front back,
          length-erase_id e.id w.all_entries there,
        ))
        (λ i. omega (
          arith,
          ap (holds i) s.place,
          holds-at i front back e,
          holds-append i front back,
          count-erase_id i e.id w.all_entries there,
        ))

  -- In a wheel whose books agree, and where the handle leads to the first entry with its id in its
  -- slot: with assertions, cancelling it aborts the program if it is the last entry of the slot.
  pub cancel-last_aborts :
      (w : Wheel T) (hdl : ℕ) (front : List (Entry T)) (e : Entry T)
      → Tracked w
      → Stands w hdl front [] e
      → cancel true w hdl ≡ aborted
  cancel-last_aborts w hdl front e t s =
      cancel-led true w hdl e s.led
      ∙ cancel_entry-some true w e (front ++ []) false t (listed w hdl front [] e t s)
          (rw s.place (slot_erase-at e.id front [] e refl s.first))

  -- In a wheel whose books agree, and where the handle leads to the first entry with its id in its
  -- slot: without assertions, or with an entry behind it, it is taken out of its slot and of the
  -- books, which still agree, and nothing else changes.
  pub cancel-removes :
      (asserts : Bool) (w : Wheel T) (hdl : ℕ) (front back : List (Entry T)) (e : Entry T)
      → Tracked w
      → Stands w hdl front back e
      → (asserts && (length back == 0)) ≡ false
      → let w' : Wheel T = record (with_slot w (e.tick % length w.slots) (front ++ back)) {
        all_entries = erase_id e.id w.all_entries;
      } in
        (cancel asserts w hdl ≡ done w') × Tracked w'
  cancel-removes asserts w hdl front back e t s a =
      let index = e.tick % length w.slots in
      let w' : Wheel T = record (with_slot w index (front ++ back)) {
        all_entries = erase_id e.id w.all_entries;
      } in
      let kept : Tracked w' = removed-Tracked w hdl front back e t s in
      (
        cancel-led asserts w hdl e s.led
            ∙ cancel_entry-some asserts w e (front ++ back) (not (length back == 0)) t
                (listed w hdl front back e t s)
                (rw s.place (slot_erase-at e.id front back e refl s.first))
            ∙ ap (λ o. and_then o (λ _. and_then (assert asserts (sizes_agree w')) (λ _. done w')))
                (not_last asserts (length back == 0) a)
            ∙ passed asserts w' (λ _. done w') kept,
        kept,
      )

  -- In a wheel whose books agree: cancelling an immediate entry erases `end()`, where no entry with its
  -- id is in the slot in which `cancel` looks for it.
  pub cancel-immediate :
      (asserts : Bool) (w : Wheel T) (hdl : ℕ) (e : Entry T)
      → Tracked w
      → lock w hdl ≡ some e
      → 1 ≤ holds e.id w.immediate_entries
      → holds e.id (slot_at w (e.tick % length w.slots)) ≡ 0
      → cancel asserts w hdl ≡ undefined
  cancel-immediate asserts w hdl e t l i h =
      cancel-led asserts w hdl e l
      ∙ cancel_entry-none asserts w e t (omega (arith, t.ids e.id))
          (slot_erase-none e.id (slot_at w (e.tick % length w.slots)) h)
