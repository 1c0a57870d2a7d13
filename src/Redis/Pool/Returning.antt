-- ===== src/Redis/Pool/Returning.antt =====
-- How a connection comes back.
use mathlib.Core.Option
use zylib.Prelude.{
  ℕ, ◌+◌, ◌≡◌, refl, Bool, true, false, ◌&&◌, Option, none, some, List, [], ◌∷◌, ◌++◌, arith, ◌==◌,
  if◌then◌else◌, length, length-append,
}
use zylib.Redis.Pool.{Slot, Pool, take_slot, release_conn}
use zylib.Redis.Pool.Lending.{owned, used, hit, owned-append, used-append, used-le-owned, Valid}

-- Taking out the slot of a connection.
abbrev Takes : ℕ → List Slot → Option (Slot × List Slot) → Type 0
Takes conn slots none = owned conn slots ≡ 0
Takes conn slots (some (s, rest)) =
    (s.conn ≡ conn)
    × (length rest + 1 ≡ length slots)
    × ((c : ℕ) → owned c rest + hit s.conn c ≡ owned c slots)
    × ((c : ℕ) → used c rest + (if s.conn == c && s.is_using then 1 else 0) ≡ used c slots)

take_slot-Takes : (conn : ℕ) (slots : List Slot) → Takes conn slots (take_slot conn slots)
unfolding take_slot
take_slot-Takes conn [] = refl
take_slot-Takes conn (s ∷ slots) =
    takes_cons (s.conn == conn) (take_slot conn slots) refl (take_slot-Takes conn slots)
  where
    takes_cons :
        (here : Bool) (o : Option (Slot × List Slot))
        → (s.conn == conn) ≡ here
        → Takes conn slots o
        → Takes conn
            (s ∷ slots)
            (if here then some (s, slots) else Option.map (λ r. (r.0, s ∷ r.1)) o)
    takes_cons true o e h = (ground arith, omega arith, λ c. omega arith, λ c. omega arith)
    takes_cons false none e h = ground arith
    takes_cons false (some (t, rest)) e h =
        (h.0, omega (arith, h.1), λ c. omega (arith, h.2 c), λ c. omega (arith, h.3 c))

-- A lent connection comes back: it is free again, at the end of the list, every other connection is
-- lent or free as before, and the pool stays valid.
pub release_conn-Valid :
    (p : Pool) (conn : ℕ)
    → Valid p
    → used conn p.slots ≡ 1
    → (q : Pool) × (release_conn p conn ≡ some q)
      × Valid q
      × ((c : ℕ) → used c q.slots + hit conn c ≡ used c p.slots)
      × ((c : ℕ) → owned c q.slots ≡ owned c p.slots)
unfolding release_conn
release_conn-Valid p conn v u = found (take_slot conn p.slots) refl (take_slot-Takes conn p.slots)
  where
    found :
        (o : Option (Slot × List Slot))
        → take_slot conn p.slots ≡ o
        → Takes conn p.slots o
        → (q : Pool) × (release_conn p conn ≡ some q)
          × Valid q
          × ((c : ℕ) → used c q.slots + hit conn c ≡ used c p.slots)
          × ((c : ℕ) → owned c q.slots ≡ owned c p.slots)
    found none e t = absurd (omega (arith, used-le-owned conn p.slots, t, u))
    found (some (s, rest)) e t =
        let back : List Slot = record s { is_using = false } ∷ [] in
        (
          record p { slots = rest ++ back },
          rw (e, release_conn, in_use s rest t.0 t.2 t.3),
          record {
            apart = λ c. omega (arith, owned-append c rest back, t.2 c, v.apart c);
            bounded = omega (arith, length-append rest back, t.1, v.bounded);
          },
          λ c. ground (arith, used-append c rest back, t.3 c, t.0, in_use s rest t.0 t.2 t.3),
          λ c. omega (arith, owned-append c rest back, t.2 c),
        )
      where
        in_use :
            (s : Slot) (rest : List Slot)
            → s.conn ≡ conn
            → ((c : ℕ) → owned c rest + hit s.conn c ≡ owned c p.slots)
            → ((c : ℕ)
                → used c rest + (if s.conn == c && s.is_using then 1 else 0) ≡ used c p.slots)
            → s.is_using ≡ true
        in_use s rest e o h = ground (arith, o conn, h conn, v.apart conn, used-le-owned conn rest)

-- Releasing a connection that is not lent, or is not the pool's, fails an assertion.
pub release_conn-unlent : (p : Pool) (conn : ℕ) → used conn p.slots ≡ 0 → release_conn p conn ≡ none
unfolding release_conn
release_conn-unlent p conn u = found (take_slot conn p.slots) refl (take_slot-Takes conn p.slots)
  where
    found :
        (o : Option (Slot × List Slot))
        → take_slot conn p.slots ≡ o
        → Takes conn p.slots o
        → release_conn p conn ≡ none
    found none e t = rw (e, release_conn)
    found (some (s, rest)) e t = rw (e, release_conn, free)
      where
        free : s.is_using ≡ false
        free = ground (arith, t.3 conn, t.0)
