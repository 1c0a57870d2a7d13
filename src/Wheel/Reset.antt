-- ===== src/Wheel/Reset.antt =====
-- zysoft/timer/timing_wheel.h: `reset`, which has a timer wait for its whole duration again.
use zylib.Prelude.{
  ℕ, suc, ◌+◌, ◌%◌, ◌^◌, ◌≤◌, ◌<◌, ◌≡◌, refl, sym, ◌∙◌, inl, inr, Bool, true, false, ◌&&◌, some,
  List, [], ◌∷◌, ◌++◌, arith, ◌==◌, ==_iff, Bool-cases, length, length-set, get_or-set_self, All,
}
use mathlib.Core.Path.{subst}
use native.Mathlib.Nat.{mod-eq_of_lt}
use zylib.Wheel.{
  Entry, Wheel, slot_insert, erase_id, slot_at, with_slot, reset_entry, reset, done,
  remove_from_slot, lock, payload,
}
use zylib.Wheel.Slot.{
  length-slot_insert, holds-slot_insert, length-erase_id, count-erase_id, has_id-count,
}
use zylib.Wheel.Count.{Tracked, with_slot-Tracked, index_in, passed}
use zylib.Wheel.Removal.{Stands, not_last, listed, removed-Tracked, slot_erase-at}
use zylib.Wheel.Due.{slots_set, Valid, Waits}
use zylib.Wheel.Due.Ordered.{
  Ascending, All-insert, Ascending-insert, All-removed, In-insert_self, Ascending-removed,
  In-middle, In,
}
use zylib.Wheel.Due.Time.{round, rounds, Given, rounds-Given}

module _ {T : Type 0} where
  -- The entry with its new tick, and the wheel with it in its new place.
  abbrev pub again : Wheel T → Entry T → Entry T
  again w e = record e { tick = (e.duration + w.current_tick) % 2 ^ 64 }

  abbrev taken : Wheel T → List (Entry T) → List (Entry T) → Entry T → Wheel T
  taken w front back e = with_slot w (e.tick % length w.slots) (front ++ back)

  abbrev moved : Wheel T → List (Entry T) → List (Entry T) → Entry T → Wheel T
  moved w front back e =
      let w' = taken w front back e in
      let index = (again w e).tick % length w.slots in
      with_slot w' index (slot_insert (again w e) (slot_at w' index))

  taken-length :
      (w : Wheel T) (front back : List (Entry T)) (e : Entry T)
      → length (taken w front back e).slots ≡ length w.slots
  taken-length w front back e = length-set w.slots (e.tick % length w.slots) (front ++ back)

  index_in_taken :
      (n : ℕ) (w : Wheel T) (front back : List (Entry T)) (e : Entry T)
      → Tracked w
      → n % length w.slots < length (taken w front back e).slots
  index_in_taken n w front back e t = rw (taken-length w front back e) (index_in n w t)

  moved-Tracked :
      (w : Wheel T) (hdl : ℕ) (front back : List (Entry T)) (e : Entry T)
      → Tracked w
      → Stands w hdl front back e
      → Tracked (moved w front back e)
  moved-Tracked w hdl front back e t s =
      let w' : Wheel T = record (taken w front back e) {
        all_entries = erase_id e.id w.all_entries;
      } in
      let there = listed w hdl front back e t s in
      let index = (again w e).tick % length w.slots in
      with_slot-Tracked w' index (slot_insert (again w e) (slot_at w' index)) w.immediate_entries
        w.all_entries w.next_id (removed-Tracked w hdl front back e t s)
        (index_in_taken (again w e).tick w front back e t)
        (omega (
          arith,
          length-erase_id e.id w.all_entries there,
          length-slot_insert (again w e) (slot_at w' index),
        ))
        (λ i. omega (
          arith,
          count-erase_id i e.id w.all_entries there,
          holds-slot_insert i (again w e) (slot_at w' index),
        ))

  -- What holds of every slot holds after the entry has moved, if it holds of the two slots.
  moved-slots :
      (P : ℕ → List (Entry T) → Type 0) (w : Wheel T) (hdl : ℕ) (front back : List (Entry T))
      (e : Entry T)
      → Tracked w
      → Stands w hdl front back e
      → ((i : ℕ) → P i (slot_at w i))
      → ((i : ℕ) → P i (front ++ e ∷ back) → P i (front ++ back))
      → ((s : List (Entry T))
          → P ((again w e).tick % length w.slots) s
          → P ((again w e).tick % length w.slots) (slot_insert (again w e) s))
      → (i : ℕ) → P i (slot_at (moved w front back e) i)
  moved-slots P w hdl front back e t s all less more =
      slots_set P w'.slots index _ (index_in_taken (again w e).tick w front back e t)
        (λ j ne. left j) (more (slot_at w' index) (left index))
    where
      w' : Wheel T
      w' = taken w front back e

      index : ℕ
      index = (again w e).tick % length w.slots

      left : (j : ℕ) → P j (slot_at w' j)
      left =
          slots_set P w.slots (e.tick % length w.slots) (front ++ back) (index_in e.tick w t)
            (λ j ne. all j) (less _ (subst (λ x. P (e.tick % length w.slots) x) s.place (all _)))

  moved-Valid :
      (c : ℕ) (w : Wheel T) (hdl : ℕ) (front back : List (Entry T)) (e : Entry T)
      → Valid c w
      → Stands w hdl front back e
      → c ≤ (again w e).tick
      → Valid c (moved w front back e)
  moved-Valid c w hdl front back e k s h = record {
    tracked = moved-Tracked w hdl front back e k.tracked s;
    inside = λ i. rw (moved-length) (
        moved-slots (λ j x. All (λ y. y.tick % length w.slots ≡ j) x) w hdl front back e k.tracked s
          k.inside (λ j. All-removed (λ y. y.tick % length w.slots ≡ j) front back e)
          (λ x. All-insert (λ y. y.tick % length w.slots ≡ _) (again w e) x refl) i);
    ordered =
        moved-slots (λ j x. Ascending x) w hdl front back e k.tracked s k.ordered
          (λ j. Ascending-removed front back e) (λ x. Ascending-insert (again w e) x);
    soon =
        moved-slots (λ j x. All (λ y. c ≤ y.tick) x) w hdl front back e k.tracked s k.soon
          (λ j. All-removed (λ y. c ≤ y.tick) front back e)
          (λ x. All-insert (λ y. c ≤ y.tick) (again w e) x h);
  }
    where
      moved-length : length (moved w front back e).slots ≡ length w.slots
      moved-length = length-set _ _ _ ∙ taken-length w front back e

  moved-Waits :
      (w : Wheel T) (front back : List (Entry T)) (e : Entry T)
      → Tracked w
      → Waits (again w e) (moved w front back e)
  moved-Waits w front back e t =
      let w' = taken w front back e in
      let index = (again w e).tick % length w.slots in
      let s = slot_insert (again w e) (slot_at w' index) in
      rw
        (
          length-set w'.slots index s,
          taken-length w front back e,
          get_or-set_self w'.slots index s [] (index_in_taken (again w e).tick w front back e t),
        )
        (In-insert_self (again w e) (slot_at w' index))

  reset-led :
      (asserts : Bool) (w : Wheel T) (hdl : ℕ) (e : Entry T)
      → lock w hdl ≡ some e
      → (e.duration == 0) ≡ false
      → reset asserts w hdl ≡ reset_entry asserts w e
  unfolding reset
  reset-led asserts w hdl e l d = rw (l, d, reset)

  -- A timer that is due at the very tick that `reset` would give it is left as it is.
  reset_entry-stays :
      (asserts : Bool) (w : Wheel T) (hdl : ℕ) (front back : List (Entry T)) (e : Entry T)
      → Tracked w
      → Stands w hdl front back e
      → e.tick ≡ (again w e).tick
      → reset_entry asserts w e ≡ done w
  unfolding reset_entry
  reset_entry-stays asserts w hdl front back e t s h =
      passed asserts w _ t
      ∙ rw (has_id-count e.id w.all_entries (listed w hdl front back e t s), (==_iff _ _).1 h)

  -- Any other is put in the slot of its new tick, if asserts are compiled out or an entry stands
  -- behind it.
  reset_entry-moves :
      (asserts : Bool) (w : Wheel T) (hdl : ℕ) (front back : List (Entry T)) (e : Entry T)
      → Tracked w
      → Stands w hdl front back e
      → (e.tick == (again w e).tick) ≡ false
      → (asserts && (length back == 0)) ≡ false
      → reset_entry asserts w e ≡ done (moved w front back e)
  unfolding reset_entry remove_from_slot
  reset_entry-moves asserts w hdl front back e t s ne a =
      passed asserts w _ t
      ∙ rw
          (
            has_id-count e.id w.all_entries (listed w hdl front back e t s),
            ne,
            remove_from_slot,
            s.place,
            slot_erase-at e.id front back e refl s.first,
            not_last asserts (length back == 0) a,
          )
          (passed asserts (moved w front back e) (λ _. done (moved w front back e))
            (moved-Tracked w hdl front back e t s))

  -- What `reset` leaves: a valid wheel of the same tick, in which the entry waits for its new one.
  reset-lem :
      (w : Wheel T) (hdl : ℕ) (front back : List (Entry T)) (e : Entry T) (n : ℕ)
      → Valid (w.current_tick + 1) w
      → Stands w hdl front back e
      → (length back == 0) ≡ false
      → e.duration ≡ suc n
      → (again w e).tick ≡ w.current_tick + suc n
      → (r : Wheel T) × (reset true w hdl ≡ done r)
        × Valid (r.current_tick + 1) r
        × Waits (again w e) r
        × (r.current_tick ≡ w.current_tick)
  reset-lem w hdl front back e n k s more d t =
      let led = reset-led true w hdl e s.led (ground arith) in
      elim (Bool-cases (e.tick == (again w e).tick)) [
        | inl same ↦
            let p : e.tick ≡ (again w e).tick = (==_iff _ _).0 same in
            (
              w,
              led ∙ reset_entry-stays true w hdl front back e k.tracked s p,
              k,
              subst (λ x. In (record e { tick = x }) (slot_at w (x % length w.slots))) p
                  (subst (λ x. In e x) (sym s.place) (In-middle front back e)),
              refl,
            )
        | inr other ↦ (
          moved w front back e,
          led ∙ reset_entry-moves true w hdl front back e k.tracked s other more,
          moved-Valid (w.current_tick + 1) w hdl front back e k s (omega arith),
          moved-Waits w front back e k.tracked,
          refl,
        )
      ]

  -- In a polled wheel, where the handle leads to the first entry with its id in its slot and an entry
  -- stands behind it: a timer with the duration `n + 1` that is reset still waits after `n` rounds,
  -- and is put out by the next one, if the ticks do not wrap.
  pub reset-on_time :
      (w : Wheel T) (hdl : ℕ) (front back : List (Entry T)) (e : Entry T) (n : ℕ)
      → Valid (w.current_tick + 1) w
      → Stands w hdl front back e
      → (length back == 0) ≡ false
      → e.duration ≡ suc n
      → suc n + w.current_tick < 2 ^ 64
      → (again_waiting : Wheel T) × (waited : Wheel T) × (later : Wheel T) × (out : List (T × ℕ))
        × (reset true w hdl ≡ done again_waiting)
        × (rounds n again_waiting ≡ done waited)
        × Waits (again w e) waited
        × (round waited ≡ done (later, out))
        × Given (payload e) out
  reset-on_time w hdl front back e n k s more d h =
      let small : e.duration + w.current_tick < 2 ^ 64 = omega arith in
      let t : (again w e).tick ≡ w.current_tick + suc n = omega (arith, mod-eq_of_lt small) in
      let (r, is, valid, waits, same) = reset-lem w hdl front back e n k s more d t in
      let (waited, later, out, all, still, one, given) =
        rounds-Given n r (again w e) valid waits (omega arith) (omega arith) in
      (r, waited, later, out, is, all, still, one, given)
