-- ===== src/Redis/Arrays/Typed.antt =====
-- rediscpp/Buffer.cpp: which operations a BufferArray has by its type, and that it is a stack.
use zylib.Prelude.{
  ℕ, zero, suc, ◌≡◌, refl, ap, ◌∙◌, Bool, true, false, not, ◌&&◌, Option, none, some, List, arith,
  ltb, ◌==◌,
}
use mathlib.Core.Option
use zylib.Redis.Commands.{Result, returns, throws}
use zylib.Redis.Arrays.{
  kind_buffer, kind_array, BufferArray, buffer_array, Vector, empty_vector, item, is_buffer,
  is_array, check_type, vector_of, with_vector, set_buffer, get_buffer, append_item, push_back,
  push_back_buffer, last_item, pop_vector, pop_back, get_item, at, vector_size, size, is_empty,
  init_array,
}

abbrev pub does_return : {A : Type 0} → Result A → Bool
does_return (returns a) = true
does_return (throws e) = false

-- An access that is defined returns.
abbrev pub is_returned : {A : Type 0} → Option (Result A) → Bool
is_returned none = false
is_returned (some r) = does_return r

is_returned-get_item :
    (v : Vector) (idx : ℕ)
    → is_returned (Option.map returns (get_item v idx)) ≡ ltb idx (vector_size v)
unfolding get_item vector_size
is_returned-get_item empty_vector idx = ground arith
is_returned-get_item (item a v) zero = ground arith
is_returned-get_item (item a v) (suc idx) = is_returned-get_item v idx ∙ ground arith

-- setBuffer and getBuffer return exactly for a buffer, push_back of a BufferArray, size and empty exactly for an
-- array, pop_back exactly for an array that is not empty, and the index exactly for one with more items
-- than that. push_back of a Buffer returns for neither.
pub returns_by_type :
    (a cell : BufferArray) (b : List ℕ) (idx : ℕ)
    → (does_return (set_buffer b a) ≡ is_buffer a)
      × (does_return (get_buffer a) ≡ is_buffer a)
      × (does_return (push_back cell a) ≡ is_array a)
      × (does_return (size a) ≡ is_array a)
      × (does_return (is_empty a) ≡ is_array a)
      × (is_returned (pop_back a) ≡ is_array a && not (vector_size (vector_of a) == 0))
      × (is_returned (at idx a) ≡ is_array a && ltb idx (vector_size (vector_of a)))
      × (does_return (push_back_buffer b a) ≡ false)
unfolding set_buffer get_buffer push_back pop_back at size is_empty push_back_buffer is_buffer
    is_array check_type init_array vector_of pop_vector vector_size
returns_by_type (buffer_array kind_buffer c v) cell b idx =
    (refl, refl, refl, refl, refl, refl, refl, refl)
returns_by_type (buffer_array kind_array c empty_vector) cell b idx =
    (refl, refl, refl, refl, refl, refl, is_returned-get_item empty_vector idx, refl)
returns_by_type (buffer_array kind_array c (item i v)) cell b idx =
    (refl, refl, refl, refl, refl, ground arith, is_returned-get_item (item i v) idx, refl)

last_item-append_item :
    (a cell : BufferArray) (v : Vector) → last_item a (append_item v cell) ≡ (cell, item a v)
unfolding last_item append_item
last_item-append_item a cell empty_vector = refl
last_item-append_item a cell (item b v) = rw (last_item-append_item b cell v) refl

pop_vector-append_item :
    (v : Vector) (cell : BufferArray) → pop_vector (append_item v cell) ≡ some (cell, v)
unfolding pop_vector append_item last_item
pop_vector-append_item empty_vector cell = refl
pop_vector-append_item (item a v) cell = ap some (last_item-append_item a cell v)

get_item-append_item :
    (v : Vector) (cell : BufferArray) → get_item (append_item v cell) (vector_size v) ≡ some cell
unfolding get_item append_item vector_size
get_item-append_item empty_vector cell = refl
get_item-append_item (item a v) cell = get_item-append_item v cell

-- What push_back has put to an array is at the index that was its size, and pop_back gives it and the array of
-- before.
pub pop_back-push_back :
    (a cell : BufferArray) (n : ℕ)
    → size a ≡ returns n
    → (r : BufferArray) × (push_back cell a ≡ returns r)
      × (at n r ≡ some (returns cell))
      × (pop_back r ≡ some (returns (cell, a)))
unfolding push_back pop_back at size check_type with_vector vector_of
pop_back-push_back (buffer_array kind_buffer c v) cell n h = absurd cc
pop_back-push_back (buffer_array kind_array c v) cell n h =
    let e : vector_size v ≡ n = cc in
    (_, refl, rw (← e, get_item-append_item v cell) refl, rw (pop_vector-append_item v cell) refl)
