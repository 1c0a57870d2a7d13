-- ===== src/Redis/Scripts/Tests.antt =====
-- rediscpp/Script.cpp: scripts at concrete inputs.
use zylib.Prelude.{
  ℕ, ◌≡◌, refl, ◌&&◌, Option, some, List, [], ◌∷◌, arith, ltb, leb, if◌then◌else◌, length, take,
}
use zylib.Redis.Commands.{throws, exception}
use zylib.Redis.Scripts.{
  Reply, integer, array, string, element, no_elements, to_string_signed, to_string, decimal,
  lua_to_redis, eval_arguments, eval_text, evalsha_text, eval_internal, evalsha_args,
  argument_count,
}
use zylib.Redis.Scripts.Converting.{image, first_error, unless, lua_to_redis-image}
use zylib.Redis.Scripts.Requesting.{read_eval, read_eval-eval_arguments, evalsha_args-split}

minus_twelve : to_string_signed 0xfffffffffffffff4 ≡ 45 ∷ (49 ∷ (50 ∷ []))
unfolding to_string_signed to_string decimal
minus_twelve = refl

abbrev reply : Reply
reply =
    array
      (element (integer 12) (element (array (element (string (7 ∷ [])) no_elements)) no_elements))

lua_to_redis-image_example : lua_to_redis reply ≡ unless (first_error reply) (image reply)
lua_to_redis-image_example = lua_to_redis-image reply

read_eval-eval_arguments_example :
    let args = eval_arguments eval_text (7 ∷ []) ((0 ∷ []) ∷ ((32 ∷ []) ∷ [])) ((9 ∷ []) ∷ []) in
    (argument_count args ≡ length args)
    × (read_eval (take (argument_count args) args)
        ≡ some (eval_text, 7 ∷ [], (0 ∷ []) ∷ ((32 ∷ []) ∷ []), (9 ∷ []) ∷ []))
read_eval-eval_arguments_example =
    read_eval-eval_arguments eval_text (7 ∷ []) ((0 ∷ []) ∷ ((32 ∷ []) ∷ [])) ((9 ∷ []) ∷ [])
      (omega arith)

abbrev answering : ℕ → List (List ℕ) → Option Reply
answering count args = some (integer count)

evalsha_args-split_example : evalsha_args answering (7 ∷ []) 1 ((8 ∷ []) ∷ ((9 ∷ []) ∷ [])) ≡ (
    if ltb 1 0x80000000 && leb 1 2
    then eval_internal answering evalsha_text (7 ∷ []) ((8 ∷ []) ∷ []) ((9 ∷ []) ∷ [])
    else throws exception)
evalsha_args-split_example =
    evalsha_args-split answering (7 ∷ []) 1 ((8 ∷ []) ∷ ((9 ∷ []) ∷ [])) (omega arith)
