-- ===== src/Redis/Scripts/Converting.antt =====
-- rediscpp/Script.cpp: what luaToRedis makes of a reply, of any depth.
use zylib.Prelude.{ℕ, ◌≡◌, refl, sym, ap, ◌∙◌, Option, none, some, List, []}
use zylib.Redis.Commands.{Result, returns, throws, reply_error_exception}
use zylib.Redis.Arrays.{
  BufferArray, buffer_array, Vector, empty_vector, item, kind_buffer, kind_array, init_buffer,
  init_array, set_buffer, push_back, append_item, check_type, with_buffer, with_vector, vector_of,
  ◌>>=◌,
}
use zylib.Redis.Scripts.{
  Reply, nil, error, status, string, integer, array, other, Elements, no_elements, element,
  to_string_signed, lua_to_redis, push_elements,
}

abbrev buffer : List ℕ → BufferArray
buffer b = buffer_array kind_buffer b empty_vector

-- The buffers of a reply, in the same arrays.
mutual
  pub image : Reply → BufferArray
  image nil = buffer []
  image (error s) = buffer []
  image (status s) = buffer s
  image (string s) = buffer s
  image (integer n) = buffer (to_string_signed n)
  image (array es) = buffer_array kind_array [] (images es)
  image other = buffer []

  pub images : Elements → Vector
  images no_elements = empty_vector
  images (element r es) = item (image r) (images es)

or_else : Option (List ℕ) → Option (List ℕ) → Option (List ℕ)
or_else none o = o
or_else (some s) o = some s

-- The text of the first error in a reply.
mutual
  unfolding or_else

  pub first_error : Reply → Option (List ℕ)
  first_error (error s) = some s
  first_error (array es) = first_error_of es
  first_error nil = none
  first_error (status s) = none
  first_error (string s) = none
  first_error (integer n) = none
  first_error other = none

  pub first_error_of : Elements → Option (List ℕ)
  first_error_of no_elements = none
  first_error_of (element r es) = or_else (first_error r) (first_error_of es)

abbrev pub unless : Option (List ℕ) → BufferArray → Result BufferArray
unless none a = returns a
unless (some s) a = throws (reply_error_exception s)

append_vector : Vector → Vector → Vector
append_vector empty_vector w = w
append_vector (item a v) w = item a (append_vector v w)

append_vector-item :
    (v : Vector) (a : BufferArray) (w : Vector)
    → append_vector (append_item v a) w ≡ append_vector v (item a w)
unfolding append_vector append_item
append_vector-item empty_vector a w = refl
append_vector-item (item b v) a w = ap (item b) (append_vector-item v a w)

append_vector-empty : (v : Vector) → append_vector v empty_vector ≡ v
unfolding append_vector
append_vector-empty empty_vector = refl
append_vector-empty (item b v) = ap (item b) (append_vector-empty v)

-- One round of the loop.
push_one :
    (b s : Option (List ℕ)) (a : BufferArray) (v : Vector) (es : Elements)
    → ((w : Vector)
        → push_elements es (buffer_array kind_array [] w)
          ≡ unless s (buffer_array kind_array [] (append_vector w (images es))))
    → (unless b a >>= λ cell.
        push_back cell (buffer_array kind_array [] v) >>= λ next. push_elements es next)
      ≡ unless (or_else b s) (buffer_array kind_array [] (append_vector v (item a (images es))))
unfolding or_else push_back check_type with_vector vector_of
push_one (some e) s a v es ih = refl
push_one none s a v es ih =
    ih (append_item v a)
    ∙ ap (λ w. unless s (buffer_array kind_array [] w)) (append_vector-item v a (images es))

mutual
  unfolding image images first_error first_error_of lua_to_redis push_elements set_buffer
      init_buffer init_array check_type with_buffer append_vector

  image_lem : (r : Reply) → lua_to_redis r ≡ unless (first_error r) (image r)
  image_lem nil = refl
  image_lem (error s) = refl
  image_lem (status s) = refl
  image_lem (string s) = refl
  image_lem (integer n) = refl
  image_lem (array es) = images_lem es empty_vector
  image_lem other = refl

  images_lem :
      (es : Elements) (v : Vector)
      → push_elements es (buffer_array kind_array [] v)
        ≡ unless (first_error_of es) (buffer_array kind_array [] (append_vector v (images es)))
  images_lem no_elements v =
      ap (λ w. returns (buffer_array kind_array [] w)) (sym (append_vector-empty v))
  images_lem (element r es) v =
      ap
        (λ m. m >>= λ cell.
          push_back cell (buffer_array kind_array [] v) >>= λ next. push_elements es next)
        (image_lem r)
      ∙ push_one (first_error r) (first_error_of es) (image r) v es (images_lem es)

-- A reply with no error in it, at any depth, is converted to its buffers in the same arrays, and no check of
-- a type fails. Any other throws a ReplyErrorException with the text of the first error.
pub lua_to_redis-image : (r : Reply) → lua_to_redis r ≡ unless (first_error r) (image r)
lua_to_redis-image r = image_lem r
