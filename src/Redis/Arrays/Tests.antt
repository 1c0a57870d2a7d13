-- ===== src/Redis/Arrays/Tests.antt =====
-- rediscpp/Buffer.cpp: operations at concrete inputs.
use zylib.Prelude.{◌≡◌, refl, false, not, ◌&&◌, none, [], ◌∷◌, ltb, ◌==◌}
use zylib.Redis.Commands.{throws, reply_error_exception}
use zylib.Redis.Arrays.{
  init_buffer, init_array, is_buffer, is_array, set_buffer, get_buffer, push_back, push_back_buffer,
  pop_back, at, size, is_empty, codes, check_type, vector_of, vector_size, pop_vector, BufferArray,
  buffer_array, kind_array, item, empty_vector,
}
use zylib.Redis.Arrays.Typed.{does_return, returns_by_type, is_returned}

push_back_buffer_throws :
    push_back_buffer (7 ∷ []) init_array
    ≡ throws (reply_error_exception (codes "BufferArray is not BUFFER!"))
unfolding push_back_buffer init_array check_type set_buffer
push_back_buffer_throws = refl

-- An array with one item.
abbrev one_item : BufferArray
one_item = buffer_array kind_array [] (item init_buffer empty_vector)

returns_by_type_example :
    (does_return (set_buffer (7 ∷ []) one_item) ≡ is_buffer one_item)
    × (does_return (get_buffer one_item) ≡ is_buffer one_item)
    × (does_return (push_back init_buffer one_item) ≡ is_array one_item)
    × (does_return (size one_item) ≡ is_array one_item)
    × (does_return (is_empty one_item) ≡ is_array one_item)
    × (is_returned (pop_back one_item)
        ≡ is_array one_item && not (vector_size (vector_of one_item) == 0))
    × (is_returned (at 0 one_item) ≡ is_array one_item && ltb 0 (vector_size (vector_of one_item)))
    × (does_return (push_back_buffer (7 ∷ []) one_item) ≡ false)
returns_by_type_example = returns_by_type one_item init_buffer (7 ∷ []) 0

pop_back_empty : pop_back init_array ≡ none
unfolding pop_back init_array check_type vector_of pop_vector
pop_back_empty = refl
