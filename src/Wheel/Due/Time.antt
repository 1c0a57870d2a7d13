-- ===== src/Wheel/Due/Time.antt =====
-- zysoft/timer/timing_wheel.h: ticks, each followed by a poll.
use zylib.Prelude.{
  ℕ, zero, suc, ◌+◌, ◌%◌, ◌^◌, ◌≤◌, ◌<◌, ◌≡◌, refl, ap, ap₂, ◌∙◌, ◌⊎◌, inl, inr, true, false, List,
  [], ◌∷◌, ◌++◌, map, arith, leb, if◌then◌else◌, length, All,
}
use mathlib.Core.List.{Permᴰ}
use native.Mathlib.Nat.{mod-eq_of_lt}
use zylib.Wheel.{
  Entry, Wheel, Outcome, done, and_then, due, slot_at, tick_wheel, add, payload, get_expired,
}
use zylib.Wheel.Slot.{hit, holds}
use zylib.Wheel.Count.{polled, get_expired_at-Tracked, entry_later, added_later, add_later}
use zylib.Wheel.Due.{Valid, Waits, added-Valid, added-Waits, polled-Valid, polled-Waits, due-here}
use zylib.Wheel.Due.Ordered.{In, All-map_both, due-le}

module _ {T : Type 0} where
  -- A tick and the poll after it; `n` of them, whatever they put out.
  unfoldable pub round : Wheel T → Outcome (Wheel T × List (T × ℕ))
  unfolding tick_wheel get_expired
  round w = get_expired true (tick_wheel w)

  unfoldable pub rounds : ℕ → Wheel T → Outcome (Wheel T)
  rounds zero w = done w
  rounds (suc n) w = and_then (round w) (λ r. rounds n r.0)

  -- The value and duration are among those put out.
  abbrev pub Given : T × ℕ → List (T × ℕ) → Type 0
  Given p [] = ⊥
  Given p (q ∷ out) = (q ≡ p) ⊎ Given p out

  Given-append : (p : T × ℕ) (xs ys : List (T × ℕ)) → Given p ys → Given p (xs ++ ys)
  Given-append p [] ys g = g
  Given-append p (x ∷ xs) ys g = inr (Given-append p xs ys g)

  Given-map : (e : Entry T) (s : List (Entry T)) → In e s → Given (payload e) (map payload s)
  Given-map e [] i = absurd i
  Given-map e (x ∷ s) (inl p) = inl (ap payload p)
  Given-map e (x ∷ s) (inr i) = inr (Given-map e s i)

  All-due : (P : Entry T → Type 0) (t : ℕ) (s : List (Entry T)) → All P s → All P (due t s)
  unfolding due
  All-due P t [] h = tt
  All-due P t (x ∷ s) h = elim (leb x.tick t) as (λ b. All P (if b then x ∷ due t s else [])) [
    | true ↦ (h.0, All-due P t s h.1)
    | false ↦ tt
  ]

  get_expired-exact_lem :
      (w : Wheel T)
      → Valid w.current_tick w
      → let expired = due w.current_tick (slot_at w (w.current_tick % length w.slots)) in
        (get_expired true w
          ≡ done (polled w w.current_tick, map payload w.immediate_entries ++ map payload expired))
        × All (λ e. e.tick ≡ w.current_tick) expired
        × Valid (w.current_tick + 1) (polled w w.current_tick)
  unfolding get_expired
  get_expired-exact_lem w k =
      let s = slot_at w (w.current_tick % length w.slots) in
      (
        (get_expired_at-Tracked true w w.current_tick k.tracked).0,
        All-map_both (λ e. e.tick ≤ w.current_tick) (λ e. w.current_tick ≤ e.tick)
            (λ e. e.tick ≡ w.current_tick) (due w.current_tick s) (λ e a b. omega arith)
            (due-le w.current_tick s)
            (All-due (λ e. w.current_tick ≤ e.tick) w.current_tick s (k.soon _)),
        polled-Valid w k,
      )

  -- The set of immediate entries in another order.
  length-Perm : {xs ys : List (Entry T)} → Permᴰ xs ys → length xs ≡ length ys
  length-Perm Permᴰ.nil = refl
  length-Perm (Permᴰ.cons e p) = ap suc (length-Perm p)
  length-Perm (Permᴰ.swap e f) = refl
  length-Perm (Permᴰ.trans p q) = length-Perm p ∙ length-Perm q

  holds-Perm : (i : ℕ) {xs ys : List (Entry T)} → Permᴰ xs ys → holds i xs ≡ holds i ys
  holds-Perm i Permᴰ.nil = refl
  holds-Perm i (Permᴰ.cons e p) = ap₂ (λ a n. hit i (a.id) + n) e (holds-Perm i p)
  holds-Perm i (Permᴰ.swap e f) = omega (arith, ap (λ a. hit i (a.id)) e, ap (λ a. hit i (a.id)) f)
  holds-Perm i (Permᴰ.trans p q) = holds-Perm i p ∙ holds-Perm i q

  reordered-Valid :
      (c : ℕ) (w : Wheel T) (order : List (Entry T))
      → Valid c w
      → Permᴰ order w.immediate_entries
      → Valid c (record w { immediate_entries = order })
  reordered-Valid c w order k p = record {
    tracked = record {
      some_slots = k.tracked.some_slots;
      sizes = omega (arith, k.tracked.sizes, length-Perm p);
      ids = λ i. omega (arith, k.tracked.ids i, holds-Perm i p);
    };
    inside = k.inside;
    ordered = k.ordered;
    soon = k.soon;
  }

  -- In a valid wheel, whose immediate entries are iterated in any order: a poll puts them out in that order, and
  -- then entries of the slots that are due at this very tick, and leaves a valid wheel with nothing due.
  pub get_expired-exact :
      (w : Wheel T) (order : List (Entry T))
      → Valid w.current_tick w
      → Permᴰ order w.immediate_entries
      → let v : Wheel T = record w { immediate_entries = order } in
        let expired = due w.current_tick (slot_at w (w.current_tick % length w.slots)) in
        (get_expired true v
          ≡ done (polled v v.current_tick, map payload order ++ map payload expired))
        × All (λ e. e.tick ≡ w.current_tick) expired
        × Valid (w.current_tick + 1) (polled v v.current_tick)
  get_expired-exact w order k p =
      get_expired-exact_lem (record w { immediate_entries = order })
        (reordered-Valid w.current_tick w order k p)

  pub ticked-Valid :
      (w : Wheel T)
      → Valid (w.current_tick + 1) w
      → w.current_tick + 1 < 2 ^ 64
      → (tick_wheel w ≡ record w { current_tick = w.current_tick + 1 })
        × Valid (w.current_tick + 1) (record w { current_tick = w.current_tick + 1 })
  unfolding tick_wheel
  ticked-Valid w k h = (
    ground (arith, mod-eq_of_lt {n = w.current_tick + 1} {m = 2 ^ 64} h),
    record {
      tracked = record {
        some_slots = k.tracked.some_slots;
        sizes = k.tracked.sizes;
        ids = k.tracked.ids;
      };
      inside = k.inside;
      ordered = k.ordered;
      soon = k.soon;
    },
  )

  -- One round of a polled wheel.
  round_lem :
      (w : Wheel T)
      → Valid (w.current_tick + 1) w
      → w.current_tick + 1 < 2 ^ 64
      → let now : Wheel T = record w { current_tick = w.current_tick + 1 } in
        (round w
          ≡ done (
            polled now now.current_tick,
            map payload now.immediate_entries
                ++ map payload
                    (due now.current_tick (slot_at now (now.current_tick % length now.slots))),
          ))
        × Valid now.current_tick now
  unfolding round
  round_lem w k h =
      let (e, v) = ticked-Valid w k h in
      (ap (get_expired true) e ∙ (get_expired-exact_lem _ v).0, v)

  rounds_lem :
      (n : ℕ) (w : Wheel T) (e : Entry T)
      → Valid (w.current_tick + 1) w
      → Waits e w
      → e.tick ≡ w.current_tick + suc n
      → e.tick < 2 ^ 64
      → (w' : Wheel T) × (rounds n w ≡ done w')
        × Valid (w'.current_tick + 1) w'
        × Waits e w'
        × (e.tick ≡ w'.current_tick + 1)
  unfolding rounds
  rounds_lem zero w e k i t h = (w, refl, k, i, omega arith)
  rounds_lem (suc n) w e k i t h =
      let (one, v) = round_lem w k (omega arith) in
      let now : Wheel T = record w { current_tick = w.current_tick + 1 } in
      let (w', all, k', i', t') =
        rounds_lem n (polled now now.current_tick) e (polled-Valid now v)
          (polled-Waits e now v (omega arith) i) (omega arith) h in
      (w', rw (one, rounds) all, k', i', t')

  -- An entry that waits in a polled wheel, to be due `n + 1` ticks later, waits through `n` rounds,
  -- and the next one puts it out.
  pub rounds-Given :
      (n : ℕ) (w : Wheel T) (e : Entry T)
      → Valid (w.current_tick + 1) w
      → Waits e w
      → e.tick ≡ w.current_tick + suc n
      → e.tick < 2 ^ 64
      → (waited : Wheel T) × (later : Wheel T) × (out : List (T × ℕ)) × (rounds n w ≡ done waited)
        × Waits e waited
        × (round waited ≡ done (later, out))
        × Given (payload e) out
  rounds-Given n w e k i t h =
      let (waited, waits, k', i', t') = rounds_lem n w e k i t h in
      let (one, v) = round_lem waited k' (omega arith) in
      let now : Wheel T = record waited { current_tick = waited.current_tick + 1 } in
      (
        waited,
        polled now now.current_tick,
        _,
        waits,
        i',
        one,
        Given-append (payload e) (map payload now.immediate_entries) _
            (Given-map e _ (due-here e now v t' i')),
      )

  -- A timer added to a polled wheel with the duration `n + 1` still waits after `n` rounds, and is
  -- put out by the next one, if the ticks do not wrap.
  pub add-on_time :
      (w : Wheel T) (v : T) (n : ℕ)
      → Valid (w.current_tick + 1) w
      → suc n + w.current_tick < 2 ^ 64
      → (added : Wheel T) × (waited : Wheel T) × (later : Wheel T) × (out : List (T × ℕ)) × (add
            true w v
            (suc n)
          ≡ done (added, w.next_id))
        × (rounds n added ≡ done waited)
        × Waits (entry_later w v (suc n)) waited
        × (round waited ≡ done (later, out))
        × Given (v, suc n) out
  add-on_time w v n k h =
      let tick_is : (suc n + w.current_tick) % 2 ^ 64 ≡ w.current_tick + suc n =
        omega (arith, mod-eq_of_lt h) in
      let (waited, later, out, waits, i, one, given) =
        rounds-Given n (added_later w v (suc n)) (entry_later w v (suc n))
          (added-Valid (w.current_tick + 1) w v (suc n) k h (omega arith))
          (added-Waits w v (suc n) k.tracked) tick_is (omega arith) in
      (
        added_later w v (suc n),
        waited,
        later,
        out,
        add_later true w v (suc n) k.tracked (omega arith),
        waits,
        i,
        one,
        given,
      )
