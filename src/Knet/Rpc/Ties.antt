-- ===== src/Knet/Rpc/Ties.antt =====
-- knet/RPCManager.cpp with knet/TimerManager.cpp: each timer is the one of the slot of its call.
use zylib.Prelude.{
  ℕ, ◌+◌, ◌≤◌, ◌≡◌, refl, inl, inr, Bool, true, false, Option, none, some, List, [], ◌∷◌, ◌++◌,
  arith, ◌==◌, if◌then◌else◌, ==_iff, Bool-cases,
}
use mathlib.Core.Option
use mathlib.Core.Path.{subst}
use zylib.Knet.Rpc.{Rpc, Slot, take_at, insert_slot, cancel_timer}
use zylib.Knet.Rpc.Measures.{same, timed, waiting, total, total-append, Takes, take_at-Takes}

-- Whether a slot's handle is this one.
abbrev pub owns : Option ℕ → ℕ → ℕ
owns none h = 0
owns (some g) h = same g h

-- The slots of a call with a handle, the timers of a call with it, and all timers with it.
abbrev pub held : ℕ → ℕ → List (ℕ × Slot) → ℕ
held k h = total (λ j s. if j == k then owns s.timer_hdl h else 0)

abbrev pub armed : ℕ → ℕ → List (ℕ × ℕ) → ℕ
armed k h = total (λ g j. if j == k then same g h else 0)

abbrev pub handles : ℕ → List (ℕ × ℕ) → ℕ
handles h = total (λ g j. same g h)

-- Every timer has its call's slot, which has its handle, and the handles differ.
pub record Tied (slots : List (ℕ × Slot)) (timers : List (ℕ × ℕ)) (next : ℕ) : Type 0 where
  pub linked : (k h : ℕ) → armed k h timers ≤ held k h slots
  pub single : (h : ℕ) → handles h timers ≤ 1
  pub fresh : (h : ℕ) → next ≤ h → handles h timers ≡ 0

owns-le : (o : Option ℕ) (h : ℕ) → owns o h ≤ 1
owns-le none h = omega arith
owns-le (some g) h = ground arith

held-le : (k h : ℕ) (slots : List (ℕ × Slot)) → held k h slots ≤ waiting k slots
held-le k h [] = omega arith
held-le k h ((j, s) ∷ slots) = ground (arith, held-le k h slots, owns-le s.timer_hdl h)

armed-le : (k h : ℕ) (timers : List (ℕ × ℕ)) → armed k h timers ≤ handles h timers
armed-le k h [] = omega arith
armed-le k h ((g, j) ∷ timers) = ground (arith, armed-le k h timers)

-- A call with a timer has one with some handle.
timed-armed :
    (k : ℕ) (timers : List (ℕ × ℕ)) → 1 ≤ timed k timers → (h : ℕ) × (1 ≤ armed k h timers)
timed-armed k [] l = absurd (omega arith)
timed-armed k ((g, j) ∷ timers) l = elim (Bool-cases (j == k)) [
  | inl e ↦ (g, ground arith)
  | inr e ↦ let (h, m) = timed-armed k timers (ground arith) in (h, omega (arith, m))
]

-- So it has a slot.
pub timed-waiting :
    (k next : ℕ) (slots : List (ℕ × Slot)) (timers : List (ℕ × ℕ))
    → Tied slots timers next
    → 1 ≤ timed k timers
    → 1 ≤ waiting k slots
timed-waiting k next slots timers t l =
    let (h, m) = timed-armed k timers l in omega (arith, m, t.linked k h, held-le k h slots)

-- What is not found is not there.
take_at-none :
    {A : Type 0} (k : ℕ) (xs : List (ℕ × A)) → take_at k xs ≡ none → total (λ j a. same j k) xs ≡ 0
unfolding take_at
take_at-none k [] e = refl
take_at-none {A = A} k ((j, a) ∷ xs) e = not_here (j == k) (take_at k xs) refl (take_at-none k xs) e
  where
    not_here :
        (here : Bool) (o : Option (A × List (ℕ × A)))
        → (j == k) ≡ here
        → (o ≡ none → total (λ i b. same i k) xs ≡ 0)
        → (let found : Option (A × List (ℕ × A)) =
              if here then some (a, xs) else Option.map (λ r. (r.0, (j, a) ∷ r.1)) o in
            found ≡ none)
        → same j k + total (λ i b. same i k) xs ≡ 0
    not_here true o p rest e = cc
    not_here false none p rest e = ground (arith, rest refl)
    not_here false (some r) p rest e = cc

-- A timer is taken out.
pub taken-Tied :
    (hdl key next : ℕ) (slots : List (ℕ × Slot)) (timers rest : List (ℕ × ℕ))
    → ((m : ℕ → ℕ → ℕ) → Takes m hdl timers (some (key, rest)))
    → Tied slots timers next
    → Tied slots rest next
taken-Tied hdl key next slots timers rest e t = record {
  linked = λ k h. omega (arith, t.linked k h, e (λ g j. if j == k then same g h else 0));
  single = λ h. omega (arith, t.single h, e (λ g j. same g h));
  fresh = λ h l. omega (arith, t.fresh h l, e (λ g j. same g h));
}

-- The slot of a call with this handle is taken out.
abbrev pub Leaves : ℕ → Option ℕ → List (ℕ × Slot) → List (ℕ × Slot) → Type 0
Leaves key hdl rest slots =
    (k h : ℕ) → held k h rest + (if key == k then owns hdl h else 0) ≡ held k h slots

-- A slot is taken out, and its timer too, if it has one still.
released-Tied :
    (key next : ℕ) (hdl : Option ℕ) (slots rest : List (ℕ × Slot)) (timers left : List (ℕ × ℕ))
    → Leaves key hdl rest slots
    → Tied slots timers next
    → ((k h : ℕ) → armed k h left ≤ armed k h timers)
    → ((h : ℕ) → handles h left + owns hdl h ≤ 1)
    → ((h : ℕ) → handles h left ≤ handles h timers)
    → Tied rest left next
released-Tied key next hdl slots rest timers left e t a o l = record {
  linked = λ k h. ground (arith, t.linked k h, e k h, a k h, o h, armed-le k h left, owns-le hdl h);
  single = λ h. omega (arith, t.single h, l h);
  fresh = λ h m. omega (arith, t.fresh h m, l h);
}

-- A handle that is taken, or has no timer, has none beside it.
alone : (g h n : ℕ) → n ≤ 1 → (g ≡ h → n ≡ 0) → n + same g h ≤ 1
alone g h n l z = elim (Bool-cases (g == h)) [
  | inl b ↦ let none_there : n ≡ 0 = z ((==_iff g h).0 b) in ground arith
  | inr b ↦ ground arith
]

-- CancelTimer after a slot has been taken out.
pub cancelled-Tied :
    (q : Rpc) (hdl : Option ℕ) (key : ℕ) (slots rest : List (ℕ × Slot))
    → Leaves key hdl rest slots
    → Tied slots q.timers q.next_timer
    → Tied rest (cancel_timer q hdl).timers (cancel_timer q hdl).next_timer
unfolding cancel_timer
cancelled-Tied q none key slots rest e t =
    released-Tied key q.next_timer none slots rest q.timers q.timers e t (λ k h. omega arith)
      (λ h. omega (arith, t.single h)) (λ h. omega arith)
cancelled-Tied q (some g) key slots rest e t =
    go (take_at g q.timers) refl (λ m. take_at-Takes m g q.timers)
  where
    go :
        (o : Option (ℕ × List (ℕ × ℕ)))
        → take_at g q.timers ≡ o
        → ((m : ℕ → ℕ → ℕ) → Takes m g q.timers o)
        → let c : Rpc = elim o [ none ↦ q | some (k, left) ↦ record q { timers = left } ] in
          Tied rest c.timers c.next_timer
    go none p f =
        released-Tied key q.next_timer (some g) slots rest q.timers q.timers e t
          (λ k h. omega arith) (λ h. alone g h (handles h q.timers) (t.single h) (none_left h))
          (λ h. omega arith)
      where
        none_left : (h : ℕ) → g ≡ h → handles h q.timers ≡ 0
        none_left h i = subst (λ x. handles x q.timers ≡ 0) i (take_at-none g q.timers p)
    go (some (k, left)) p f =
        released-Tied key q.next_timer (some g) slots rest q.timers left e t
          (λ i h. omega (arith, f (λ x j. if j == i then same x h else 0)))
          (λ h. omega (arith, f (λ x j. same x h), t.single h))
          (λ h. omega (arith, f (λ x j. same x h)))

-- A new call, without a timer and with one.
pub held-insert_slot :
    (k h key : ℕ) (s : Slot) (slots : List (ℕ × Slot))
    → held k h slots ≤ held k h (insert_slot key s slots)
unfolding insert_slot
held-insert_slot k h key s slots =
    elim (take_at key slots)
      as (λ o.
        held k h slots ≤ held k h (elim o [ none ↦ slots ++ (key, s) ∷ [] | some r ↦ slots ])) [
          | none ↦ omega (
            arith,
            total-append (λ j x. if j == k then owns x.timer_hdl h else 0) slots ((key, s) ∷ []),
          )
          | some r ↦ omega arith
        ]

new_slot :
    (key : ℕ) (s : Slot) (slots : List (ℕ × Slot))
    → waiting key slots ≡ 0
    → insert_slot key s slots ≡ slots ++ (key, s) ∷ []
unfolding insert_slot
new_slot key s slots z = go (take_at key slots) (take_at-Takes (λ j x. same j key) key slots)
  where
    go :
        (o : Option (Slot × List (ℕ × Slot)))
        → Takes (λ j x. same j key) key slots o
        → elim o [ none ↦ slots ++ (key, s) ∷ [] | some r ↦ slots ] ≡ slots ++ (key, s) ∷ []
    go none f = refl
    go (some (x, rest)) f = absurd (one (same key key) (ground arith) (omega arith))
      where
        one : (n : ℕ) → n ≡ 1 → n ≡ 0 → ⊥
        one n a b = omega arith

pub called-Tied :
    (key next : ℕ) (success : Bool) (slots : List (ℕ × Slot)) (timers : List (ℕ × ℕ))
    → waiting key slots ≡ 0
    → Tied slots timers next
    → Tied
        (insert_slot key
          (record { success_cb = success; timeout_cb = true; timer_hdl = some next })
          slots)
        (timers ++ (next, key) ∷ [])
        (next + 1)
called-Tied key next success slots timers z t = rw (new_slot key slot slots z) (record {
  linked = λ k h. omega (
    arith,
    t.linked k h,
    total-append (λ g j. if j == k then same g h else 0) timers ((next, key) ∷ []),
    total-append (λ j s. if j == k then owns s.timer_hdl h else 0) slots ((key, slot) ∷ []),
  );
  single = λ h.
      ground
        (arith, t.single h, t.fresh h, total-append (λ g j. same g h) timers ((next, key) ∷ []));
  fresh =
      λ h l. ground (arith, t.fresh h, total-append (λ g j. same g h) timers ((next, key) ∷ []));
})
  where
    slot : Slot
    slot = record { success_cb = success; timeout_cb = true; timer_hdl = some next }
