-- ===== src/Wheel.antt =====
-- zysoft/src/zysoft/timer/timing_wheel.h, class timing_wheel<T, N>: timers in N slots by the tick at
-- which they are due. A shared_ptr to an entry is the entry's number `id`; a weak_ptr that the caller
-- holds is that number, and locks as long as a container of the wheel has the entry. A slot is a
-- multimap, here the list of its entries in the order of their keys, and a key is always the tick of
-- its entry. An unordered_set is the list of its elements in the order of its iteration, where `add` puts a new one
-- at the end.
-- The length of `slots` is N. The source aborts at a failed `assert` unless it is compiled with
-- NDEBUG: `asserts` says whether it does.
pub mod Slot
pub mod Count
pub mod Due
pub mod Removal
pub mod Reset
pub mod Init
mod Tests
use mathlib.Core.Option
use zylib.Prelude.{
  ℕ, ◌+◌, ◌%◌, ◌^◌, Bool, false, not, ◌&&◌, ◌||◌, Option, none, some, List, [], ◌∷◌, ◌++◌, map, ltb,
  leb, ◌==◌, if◌then◌else◌, length, get_or, set, replicate, concat,
}

pub record Entry (T : Type 0) : Type 0 where
  pub id : ℕ
  pub tick : ℕ
  pub duration : ℕ
  pub value : T

pub record Wheel (T : Type 0) : Type 0 where
  pub slots : List (List (Entry T))
  pub immediate_entries : List (Entry T)
  pub all_entries : List ℕ
  pub current_tick : ℕ
  pub next_id : ℕ

-- How a call ends.
pub data Outcome (A : Type 0) : Type 0 where
  done : A → Outcome A
  aborted : Outcome A
  undefined : Outcome A

abbrev pub and_then : {A B : Type 0} → Outcome A → (A → Outcome B) → Outcome B
and_then (done a) f = f a
and_then aborted f = aborted
and_then undefined f = undefined

-- `assert(test)`
abbrev pub assert : Bool → Bool → Outcome (Unit {0})
assert asserts test = if asserts && not test then aborted else done tt

-- std::unordered_set::erase
unfoldable pub erase_id : ℕ → List ℕ → List ℕ
erase_id i [] = []
erase_id i (j ∷ js) = if i == j then js else j ∷ erase_id i js

unfoldable pub has_id : ℕ → List ℕ → Bool
has_id i [] = false
has_id i (j ∷ js) = i == j || has_id i js

module _ {T : Type 0} where
  -- std::multimap::insert: behind the entries with the same key.
  unfoldable pub slot_insert : Entry T → List (Entry T) → List (Entry T)
  slot_insert e [] = e ∷ []
  slot_insert e (x ∷ s) = if ltb e.tick x.tick then e ∷ x ∷ s else x ∷ slot_insert e s

  -- The entries up to `upper_bound(t)`, and those from it on.
  unfoldable pub due : ℕ → List (Entry T) → List (Entry T)
  due t [] = []
  due t (x ∷ s) = if leb x.tick t then x ∷ due t s else []

  unfoldable pub not_due : ℕ → List (Entry T) → List (Entry T)
  not_due t [] = []
  not_due t (x ∷ s) = if leb x.tick t then not_due t s else x ∷ s

  unfoldable pub erase_all : List (Entry T) → List ℕ → List ℕ
  unfolding erase_id
  erase_all [] js = js
  erase_all (e ∷ es) js = erase_all es (erase_id e.id js)

  unfoldable pub find_entry : ℕ → List (Entry T) → Option (Entry T)
  find_entry i [] = none
  find_entry i (x ∷ s) = if x.id == i then some x else find_entry i s

  -- What a search through the key's equal_range and the erasure leave, with whether the iterator
  -- behind the erased entry is not `end()`; `none` if no such entry is there, when the source
  -- erases `end()`.
  unfoldable pub slot_erase : ℕ → List (Entry T) → Option (List (Entry T) × Bool)
  slot_erase i [] = none
  slot_erase i (x ∷ s) =
      if x.id == i
      then some (s, not (length s == 0))
      else Option.map (λ r. (x ∷ r.0, r.1)) (slot_erase i s)

  unfoldable pub wheel_entries_count : List (List (Entry T)) → ℕ
  wheel_entries_count [] = 0
  wheel_entries_count (s ∷ ss) = length s + wheel_entries_count ss

  -- The condition of the assertion that opens and closes most functions.
  unfoldable pub sizes_agree : Wheel T → Bool
  unfolding wheel_entries_count
  sizes_agree w = length w.all_entries == wheel_entries_count w.slots + length w.immediate_entries

  -- The slot at an index, and the wheel with another slot there.
  abbrev pub slot_at : Wheel T → ℕ → List (Entry T)
  slot_at w i = get_or w.slots i []

  abbrev pub with_slot : Wheel T → ℕ → List (Entry T) → Wheel T
  with_slot w i s = record w { slots = set w.slots i s }

  -- The entry that a weak_ptr leads to, if some container still has it.
  unfoldable pub lock : Wheel T → ℕ → Option (Entry T)
  unfolding find_entry
  lock w i = find_entry i (w.immediate_entries ++ concat w.slots)

-- The constructor; N is positive by the static_assert.
unfoldable pub new_wheel : (T : Type 0) → ℕ → Wheel T
new_wheel T n = record {
  slots = replicate n [];
  immediate_entries = [];
  all_entries = [];
  current_tick = 0;
  next_id = 0;
}

module _ {T : Type 0} where
  unfoldable pub tick_wheel : Wheel T → Wheel T
  tick_wheel w = record w { current_tick = (w.current_tick + 1) % 2 ^ 64 }

  -- `add`: the wheel and the handle of the new entry.
  unfoldable pub add : Bool → Wheel T → T → ℕ → Outcome (Wheel T × ℕ)
  unfolding slot_insert sizes_agree
  add asserts w v d = and_then (assert asserts (sizes_agree w)) λ _.
      if d == 0
      then done (
        record w {
          immediate_entries =
              w.immediate_entries
              ++ record { id = w.next_id; tick = w.current_tick; duration = d; value = v } ∷ [];
          all_entries = w.all_entries ++ w.next_id ∷ [];
          next_id = w.next_id + 1;
        },
        w.next_id,
      )
      else (let new_tick = (d + w.current_tick) % 2 ^ 64 in
          let index = new_tick % length w.slots in
          let e : Entry T = record { id = w.next_id; tick = new_tick; duration = d; value = v } in
          let w' = record (with_slot w index (slot_insert e (slot_at w index))) {
            all_entries = w.all_entries ++ w.next_id ∷ [];
            next_id = w.next_id + 1;
          } in
          and_then (assert asserts (sizes_agree w')) λ _. done (w', w.next_id))

  abbrev pub payload : Entry T → T × ℕ
  payload e = (e.value, e.duration)

  -- `get_expired(t, expired)`: the wheel and what is appended to `expired`.
  unfoldable pub get_expired_at : Bool → Wheel T → ℕ → Outcome (Wheel T × List (T × ℕ))
  unfolding due not_due erase_all sizes_agree
  get_expired_at asserts w t = and_then (assert asserts (sizes_agree w)) λ _.
      let index = w.current_tick % length w.slots in
      let s = slot_at w index in
      let w' = record (with_slot w index (not_due t s)) {
        immediate_entries = [];
        all_entries = erase_all (due t s) (erase_all w.immediate_entries w.all_entries);
      } in
      and_then (assert asserts (sizes_agree w'))
        λ _. done (w', map payload w.immediate_entries ++ map payload (due t s))

  -- `get_expired(out)`
  unfoldable pub get_expired : Bool → Wheel T → Outcome (Wheel T × List (T × ℕ))
  unfolding get_expired_at
  get_expired asserts w = get_expired_at asserts w w.current_tick

  -- The part of `cancel` and of `reset` that takes an entry out of its slot: `slot_remove_entry` and
  -- the assertion of its result.
  unfoldable pub remove_from_slot : Bool → Wheel T → Entry T → Outcome (Wheel T)
  remove_from_slot asserts w e =
      let index = e.tick % length w.slots in
      elim (slot_erase e.id (slot_at w index)) [
        | none ↦ undefined
        | some (s, not_end) ↦ and_then (assert asserts not_end) λ _. done (with_slot w index s)
      ]

  unfoldable pub cancel_entry : Bool → Wheel T → Entry T → Outcome (Wheel T)
  cancel_entry asserts w e = and_then (assert asserts (sizes_agree w)) λ _.
      and_then
        (if has_id e.id w.all_entries
          then and_then (remove_from_slot asserts w e)
              (λ w'. done (record w' { all_entries = erase_id e.id w'.all_entries }))
          else done w)
        λ w'. and_then (assert asserts (sizes_agree w')) λ _. done w'

  -- `cancel`
  unfoldable pub cancel : Bool → Wheel T → ℕ → Outcome (Wheel T)
  cancel asserts w hdl = elim (lock w hdl) [ none ↦ done w | some e ↦ cancel_entry asserts w e ]

  unfoldable pub reset_entry : Bool → Wheel T → Entry T → Outcome (Wheel T)
  reset_entry asserts w e = and_then (assert asserts (sizes_agree w)) λ _.
      let again = (e.duration + w.current_tick) % 2 ^ 64 in
      if has_id e.id w.all_entries
      then (if e.tick == again
          then done w
          else and_then (remove_from_slot asserts w e) λ w'.
            let index = again % length w.slots in
            let w'' =
              with_slot w' index (slot_insert (record e { tick = again }) (slot_at w' index)) in
            and_then (assert asserts (sizes_agree w'')) λ _. done w'')
      else done w

  -- `reset`
  unfoldable pub reset : Bool → Wheel T → ℕ → Outcome (Wheel T)
  reset asserts w hdl = elim (lock w hdl) [
    | none ↦ done w
    | some e ↦ if e.duration == 0 then done w else reset_entry asserts w e
  ]

  unfoldable pub clear : Bool → Wheel T → Outcome (Wheel T)
  unfolding sizes_agree
  clear asserts w = and_then (assert asserts (sizes_agree w)) λ _. done (record w {
    slots = map (λ s. []) w.slots;
    immediate_entries = [];
    all_entries = [];
    current_tick = 0;
  })

  unfoldable pub size : Bool → Wheel T → Outcome ℕ
  unfolding sizes_agree
  size asserts w = and_then (assert asserts (sizes_agree w)) λ _. done (length w.all_entries)
