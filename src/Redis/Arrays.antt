-- ===== src/Redis/Arrays.antt =====
-- rediscpp/Buffer.cpp: a BufferArray, which is a buffer or an array of BufferArrays by its type. It has
-- the fields for both, and checkType throws where an operation is not for its type. A `none` around a
-- Result is undefined behaviour: back() of an empty vector, or an index that is out of range.
pub mod Typed
mod Tests
use zylib.Prelude.{
  ℕ, zero, suc, Bool, true, false, not, Option, none, some, List, [], ◌∷◌, map, ◌==◌,
}
use mathlib.Core.Option
use Prim.Native.Char.{code}
use Prim.Native.String.{String}
use zylib.Redis.Commands.{Error, reply_error_exception, Result, returns, throws}

pub data Kind : Type 0 where
  kind_buffer kind_array : Kind

mutual
  -- m_type, m_buffer and m_array
  pub data BufferArray : Type 0 where
    buffer_array : Kind → List ℕ → Vector → BufferArray

  pub data Vector : Type 0 where
    empty_vector : Vector
    item : BufferArray → Vector → Vector

-- The text of an exception as its bytes.
abbrev pub codes : String → List ℕ
codes String.[] = []
codes (String.◌∷◌ c s) = code c ∷ codes s

unfoldable pub init_buffer : BufferArray
init_buffer = buffer_array kind_buffer [] empty_vector

unfoldable pub init_array : BufferArray
init_array = buffer_array kind_array [] empty_vector

unfoldable pub is_buffer : BufferArray → Bool
is_buffer (buffer_array kind_buffer b v) = true
is_buffer (buffer_array kind_array b v) = false

unfoldable pub is_array : BufferArray → Bool
is_array (buffer_array kind_buffer b v) = false
is_array (buffer_array kind_array b v) = true

unfoldable pub check_type : Kind → BufferArray → Result Unit
check_type kind_buffer (buffer_array kind_buffer b v) = returns _
check_type kind_array (buffer_array kind_array b v) = returns _
check_type kind_buffer (buffer_array kind_array b v) =
    throws (reply_error_exception (codes "BufferArray is not BUFFER!"))
check_type kind_array (buffer_array kind_buffer b v) =
    throws (reply_error_exception (codes "BufferArray is not ARRAY!"))

-- What an operation does behind checkType.
infixl 5 ◌>>=◌ ◌>>◌
abbrev pub ◌>>=◌ : {A B : Type 0} → Result A → (A → Result B) → Result B
returns a >>= f = f a
throws e >>= f = throws e

abbrev pub ◌>>◌ : {A B : Type 0} → Result A → Result B → Result B
m >> k = m >>= λ _. k

unfoldable pub buffer_of : BufferArray → List ℕ
buffer_of (buffer_array kind b v) = b

unfoldable pub vector_of : BufferArray → Vector
vector_of (buffer_array kind b v) = v

unfoldable pub with_buffer : List ℕ → BufferArray → BufferArray
with_buffer b (buffer_array kind c v) = buffer_array kind b v

unfoldable pub with_vector : Vector → BufferArray → BufferArray
with_vector v (buffer_array kind b w) = buffer_array kind b v

unfoldable pub set_buffer : List ℕ → BufferArray → Result BufferArray
set_buffer b a = check_type kind_buffer a >> returns (with_buffer b a)

unfoldable pub get_buffer : BufferArray → Result (List ℕ)
get_buffer a = check_type kind_buffer a >> returns (buffer_of a)

unfoldable pub append_item : Vector → BufferArray → Vector
append_item empty_vector a = item a empty_vector
append_item (item b v) a = item b (append_item v a)

-- push_back(BufferArray)
unfoldable pub push_back : BufferArray → BufferArray → Result BufferArray
push_back cell a =
    check_type kind_array a >> returns (with_vector (append_item (vector_of a) cell) a)

-- push_back(Buffer)
unfoldable pub push_back_buffer : List ℕ → BufferArray → Result BufferArray
push_back_buffer b a = do
  check_type kind_array a
  cell ← set_buffer b init_array
  returns (with_vector (append_item (vector_of a) cell) a)

-- The last item and those before it.
unfoldable pub last_item : BufferArray → Vector → BufferArray × Vector
last_item a empty_vector = (a, empty_vector)
last_item a (item b v) = let (last, front) = last_item b v in (last, item a front)

unfoldable pub pop_vector : Vector → Option (BufferArray × Vector)
pop_vector empty_vector = none
pop_vector (item a v) = some (last_item a v)

-- An access to the vector behind checkType, where it is defined.
abbrev pub accessed : {A : Type 0} → Result Unit → Option A → Option (Result A)
accessed (returns u) found = Option.map returns found
accessed (throws e) found = some (throws e)

unfoldable pub pop_back : BufferArray → Option (Result (BufferArray × BufferArray))
pop_back a =
    accessed (check_type kind_array a)
      (Option.map (λ r. (r.0, with_vector r.1 a)) (pop_vector (vector_of a)))

unfoldable pub get_item : Vector → ℕ → Option BufferArray
get_item empty_vector i = none
get_item (item a v) zero = some a
get_item (item a v) (suc i) = get_item v i

-- operator[]
unfoldable pub at : ℕ → BufferArray → Option (Result BufferArray)
at idx a = accessed (check_type kind_array a) (get_item (vector_of a) idx)

unfoldable pub vector_size : Vector → ℕ
vector_size empty_vector = 0
vector_size (item a v) = suc (vector_size v)

unfoldable pub size : BufferArray → Result ℕ
size a = check_type kind_array a >> returns (vector_size (vector_of a))

unfoldable pub is_empty : BufferArray → Result Bool
is_empty a = check_type kind_array a >> returns (vector_size (vector_of a) == 0)
