-- ===== src/Wheel/Due.antt =====
-- zysoft/timer/timing_wheel.h: what waits in the slots, and when it is due.
pub mod Ordered
pub mod Time
use mathlib.Core.Path.{subst}
use native.Mathlib.Decide.{ℕ_discrete}
use zylib.Prelude.{
  ℕ, ◌+◌, ◌%◌, ◌^◌, ◌≤◌, ◌<◌, ◌≡◌, refl, sym, ap, ◌∙◌, ◌≢◌, true, List, [], arith, length, get_or,
  set, length-set, get_or-set_self, get_or-set_ne, All,
}
use zylib.Wheel.{
  Entry, Wheel, Outcome, done, slot_insert, due, not_due, slot_at, with_slot, tick_wheel, add,
  payload, get_expired,
}
use zylib.Wheel.Count.{
  Tracked, polled, get_expired_at-Tracked, entry_later, added_later, add_later, added_later-Tracked,
  index_in,
}
use zylib.Wheel.Due.Ordered.{
  In, All-map, All-map_both, Ascending, In-All, All-insert, Ascending-insert, In-insert_self,
  In-insert, due-le, not_due-gt, All-not_due, Ascending-not_due, In-due, In-due_of_le, In-not_due,
}

module _ {T : Type 0} where
  -- Every entry stands in the slot of its tick, the slots are in order, and no entry of a slot is
  -- due before the tick `c`.
  pub record Valid (c : ℕ) (w : Wheel T) : Type 0 where
    pub tracked : Tracked w
    pub inside : (i : ℕ) → All (λ e. e.tick % length w.slots ≡ i) (slot_at w i)
    pub ordered : (i : ℕ) → Ascending (slot_at w i)
    pub soon : (i : ℕ) → All (λ e. c ≤ e.tick) (slot_at w i)

  -- The entry waits in the slot of its tick.
  abbrev pub Waits : Entry T → Wheel T → Type 0
  Waits e w = In e (slot_at w (e.tick % length w.slots))

  -- What holds of every slot holds after one is replaced.
  pub slots_set :
      (P : ℕ → List (Entry T) → Type 0) (ss : List (List (Entry T))) (k : ℕ) (s : List (Entry T))
      → k < length ss
      → ((i : ℕ) → k ≢ i → P i (get_or ss i []))
      → P k s
      → (i : ℕ) → P i (get_or (set ss k s) i [])
  slots_set P ss k s h all p i = elim (ℕ_discrete k i) [
    | yes e ↦ subst (λ j. P j (get_or (set ss k s) j [])) e (rw (get_or-set_self ss k s [] h) p)
    | no ne ↦ rw (get_or-set_ne ss k i s [] ne) (all i ne)
  ]

  -- A timer that is added, with a time that does not wrap, is in its slot.
  pub added-Valid :
      (c : ℕ) (w : Wheel T) (v : T) (d : ℕ)
      → Valid c w
      → d + w.current_tick < 2 ^ 64
      → c ≤ d + w.current_tick
      → Valid c (added_later w v d)
  added-Valid c w v d k wrap h = record {
    tracked = added_later-Tracked w v d k.tracked;
    inside = λ i. rw (length-set w.slots index (slot_insert e (slot_at w index))) (
        slots_set (λ j s. All (λ x. x.tick % length w.slots ≡ j) s) w.slots index
          (slot_insert e (slot_at w index)) (index_in _ w k.tracked) (λ j ne. k.inside j)
          (All-insert (λ x. x.tick % length w.slots ≡ index) e (slot_at w index) refl
            (k.inside index))
          i);
    ordered =
        slots_set (λ j s. Ascending s) w.slots index (slot_insert e (slot_at w index))
          (index_in _ w k.tracked) (λ j ne. k.ordered j)
          (Ascending-insert e (slot_at w index) (k.ordered index));
    soon =
        slots_set (λ j s. All (λ x. c ≤ x.tick) s) w.slots index (slot_insert e (slot_at w index))
          (index_in _ w k.tracked) (λ j ne. k.soon j)
          (All-insert (λ x. c ≤ x.tick) e (slot_at w index) (omega arith) (k.soon index));
  }
    where
      e : Entry T
      e = entry_later w v d

      index : ℕ
      index = e.tick % length w.slots

  pub added-Waits :
      (w : Wheel T) (v : T) (d : ℕ) → Tracked w → Waits (entry_later w v d) (added_later w v d)
  added-Waits w v d t =
      let e = entry_later w v d in
      let index = e.tick % length w.slots in
      rw
        (
          length-set w.slots index (slot_insert e (slot_at w index)),
          get_or-set_self w.slots index (slot_insert e (slot_at w index)) [] (index_in _ w t),
        )
        (In-insert_self e (slot_at w index))

  -- One poll leaves a valid wheel in which nothing is due any more.
  pub polled-Valid :
      (w : Wheel T) → Valid w.current_tick w → Valid (w.current_tick + 1) (polled w w.current_tick)
  polled-Valid w k = record {
    tracked = (get_expired_at-Tracked true w w.current_tick k.tracked).1;
    inside = λ i. rw (length-set w.slots index (not_due w.current_tick s)) (
        slots_set (λ j s. All (λ x. x.tick % length w.slots ≡ j) s) w.slots index
          (not_due w.current_tick s) (index_in _ w k.tracked) (λ j ne. k.inside j)
          (All-not_due (λ x. x.tick % length w.slots ≡ index) w.current_tick s (k.inside index)) i);
    ordered =
        slots_set (λ j s. Ascending s) w.slots index (not_due w.current_tick s)
          (index_in _ w k.tracked) (λ j ne. k.ordered j)
          (Ascending-not_due w.current_tick s (k.ordered index));
    soon =
        slots_set (λ j s. All (λ x. w.current_tick + 1 ≤ x.tick) s) w.slots index
          (not_due w.current_tick s) (index_in _ w k.tracked)
          (λ j ne.
            All-map_both (λ x. x.tick % length w.slots ≡ j) (λ x. w.current_tick ≤ x.tick)
              (λ x. w.current_tick + 1 ≤ x.tick) (slot_at w j) (λ x m l. later x.tick j ne m l)
              (k.inside j) (k.soon j))
          (All-map (λ x. w.current_tick < x.tick) (λ x. w.current_tick + 1 ≤ x.tick)
            (not_due w.current_tick s) (λ x h. omega arith)
            (not_due-gt w.current_tick s (k.ordered index)));
  }
    where
      index : ℕ
      index = w.current_tick % length w.slots

      s : List (Entry T)
      s = slot_at w index

      later :
          (t j : ℕ)
          → index ≢ j
          → t % length w.slots ≡ j
          → w.current_tick ≤ t
          → w.current_tick + 1 ≤ t
      later t j ne m l = elim (ℕ_discrete w.current_tick t) [
        | yes e ↦ absurd (ne (ap (λ n. n % length w.slots) e ∙ m))
        | no d ↦ omega arith
      ]

  -- What is put out by a poll, and what stays.
  pub polled-Waits :
      (e : Entry T) (w : Wheel T)
      → Valid w.current_tick w
      → w.current_tick < e.tick
      → Waits e w
      → Waits e (polled w w.current_tick)
  polled-Waits e w k l i = rw (length-set w.slots index rest) (go (ℕ_discrete index place))
    where
      index : ℕ
      index = w.current_tick % length w.slots

      place : ℕ
      place = e.tick % length w.slots

      rest : List (Entry T)
      rest = not_due w.current_tick (slot_at w index)

      go : Dec (index ≡ place) → In e (get_or (set w.slots index rest) place [])
      go (yes p) =
          subst (λ j. In e (get_or (set w.slots index rest) j [])) p
            (rw (get_or-set_self w.slots index rest [] (index_in _ w k.tracked)) (
              In-not_due e w.current_tick (slot_at w index) l
                (subst (λ j. In e (slot_at w j)) (sym p) i)))
      go (no ne) = rw (get_or-set_ne w.slots index place rest [] ne) i

  pub due-here :
      (e : Entry T) (w : Wheel T)
      → Valid w.current_tick w
      → e.tick ≡ w.current_tick
      → Waits e w
      → In e (due w.current_tick (slot_at w (w.current_tick % length w.slots)))
  due-here e w k h i =
      In-due_of_le e w.current_tick (slot_at w (w.current_tick % length w.slots)) (k.ordered _)
        (omega arith) (subst (λ t. In e (slot_at w (t % length w.slots))) h i)
