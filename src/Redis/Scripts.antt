-- ===== src/Redis/Scripts.antt =====
-- rediscpp/Script.cpp and Script.h: scripts. A connection takes the count and the arguments of redisCommandArgv, or
-- the script of SCRIPT LOAD, and gives a reply, where `none` is a null pointer. The text of an error has no
-- zero byte, and an integer is the bit pattern of a long long.
pub mod Converting
pub mod Requesting
mod Tests
use zylib.Prelude.{
  ℕ, zero, suc, ◌+◌, ◌-◌, ◌/◌, ◌%◌, ◌^◌, true, false, ◌&&◌, Option, none, some, List, [], ◌∷◌, ◌++◌,
  map, ltb, if◌then◌else◌, length, resize, memcpy_at,
}
use zylib.Redis.Commands.{
  Result, returns, throws, connection_exception, reply_error_exception, reply_type_exception,
  exception,
}
use zylib.Redis.Arrays.{BufferArray, init_buffer, init_array, set_buffer, push_back, ◌>>=◌}

-- redisReply, of any depth. The last is any other type.
mutual
  pub data Reply : Type 0 where
    nil : Reply
    error : List ℕ → Reply
    status : List ℕ → Reply
    string : List ℕ → Reply
    integer : ℕ → Reply
    array : Elements → Reply
    other : Reply

  pub data Elements : Type 0 where
    no_elements : Elements
    element : Reply → Elements → Elements

-- std::to_string, with fuel for the digits: 2 ^ 64 has 20.
unfoldable pub decimal : ℕ → ℕ → List ℕ
decimal zero n = []
decimal (suc fuel) n = elim (ltb n 10) [
  | true ↦ (48 + n) ∷ []
  | false ↦ decimal fuel (n / 10) ++ (48 + n % 10) ∷ []
]

unfoldable pub to_string : ℕ → List ℕ
to_string n = decimal 20 n

unfoldable pub to_string_signed : ℕ → List ℕ
to_string_signed n =
    if ltb n 0x8000000000000000 then to_string n else 45 ∷ to_string (0x10000000000000000 - n)

unfoldable mutual
  -- luaToRedis
  pub lua_to_redis : Reply → Result BufferArray
  lua_to_redis nil = returns init_buffer
  lua_to_redis (error s) = throws (reply_error_exception s)
  lua_to_redis (status s) = set_buffer s init_buffer
  lua_to_redis (string s) = set_buffer s init_buffer
  lua_to_redis (integer n) = set_buffer (to_string_signed n) init_buffer
  lua_to_redis (array es) = push_elements es init_array
  lua_to_redis other = returns init_buffer

  -- Its loop over the elements.
  pub push_elements : Elements → BufferArray → Result BufferArray
  push_elements no_elements ret = returns ret
  push_elements (element r es) ret = do
    cell ← lua_to_redis r
    next ← push_back cell ret
    push_elements es next

-- A new vector, filled by memcpy.
unfoldable pub to_argument : List ℕ → List ℕ
to_argument bytes = memcpy_at 0 bytes (resize (length bytes) 0 [])

-- The arguments that evalInternal makes.
unfoldable pub eval_arguments : List ℕ → List ℕ → List (List ℕ) → List (List ℕ) → List (List ℕ)
eval_arguments eval_cmd cmd keys values =
    to_argument eval_cmd
    ∷ (to_argument cmd
        ∷ (to_argument (to_string (length keys))
            ∷ (map to_argument keys ++ map to_argument values)))

-- The count that redisCommandArgv is given, `static_cast<int>(argv.size())`: the bit pattern of an int.
unfoldable pub argument_count : List (List ℕ) → ℕ
argument_count args = length args % 2 ^ 32

unfoldable pub eval_reply : Option Reply → Result BufferArray
eval_reply none = throws connection_exception
eval_reply (some (error s)) = throws (reply_error_exception s)
eval_reply (some r) = lua_to_redis r

abbrev pub eval_text : List ℕ
eval_text = b'E' ∷ (b'V' ∷ (b'A' ∷ (b'L' ∷ [])))

abbrev pub evalsha_text : List ℕ
evalsha_text = b'E' ∷ (b'V' ∷ (b'A' ∷ (b'L' ∷ (b'S' ∷ (b'H' ∷ (b'A' ∷ []))))))

-- mergeKeys. key_num is the bit pattern of an int, and the test that compares it has no negative one before it.
unfoldable pub merge_keys :
    ℕ → List (List ℕ) → List (List ℕ) → List (List ℕ) → List (List ℕ) × List (List ℕ)
merge_keys key_num keys values [] = (keys, values)
merge_keys key_num keys values (arg ∷ args) =
    if ltb (length keys) key_num && ltb key_num 0x80000000
    then merge_keys key_num (keys ++ arg ∷ []) values args
    else merge_keys key_num keys (values ++ arg ∷ []) args

-- size_t(key_num)
abbrev pub size_of_int : ℕ → ℕ
size_of_int n = if ltb n 0x80000000 then n else n + 0xffffffff00000000

module _ (conn : ℕ → List (List ℕ) → Option Reply) where
  unfoldable pub eval_internal :
      List ℕ → List ℕ → List (List ℕ) → List (List ℕ) → Result BufferArray
  eval_internal eval_cmd cmd keys values =
      let args = eval_arguments eval_cmd cmd keys values in
      eval_reply (conn (argument_count args) args)

  unfoldable pub eval : List ℕ → List (List ℕ) → List (List ℕ) → Result BufferArray
  eval cmd keys values = eval_internal eval_text cmd keys values

  unfoldable pub evalsha : List ℕ → List (List ℕ) → List (List ℕ) → Result BufferArray
  evalsha cmd keys values = eval_internal evalsha_text cmd keys values

  -- EVALSHA with a number of keys and any arguments.
  unfoldable pub evalsha_args : List ℕ → ℕ → List (List ℕ) → Result BufferArray
  evalsha_args cmd key_num args =
      if ltb (length args) (size_of_int key_num)
      then throws exception
      else let (keys, values) = merge_keys key_num [] [] args in
        eval_internal evalsha_text cmd keys values

-- LOAD, over SCRIPT LOAD.
unfoldable pub load_reply : Option Reply → Result (List ℕ)
load_reply none = throws connection_exception
load_reply (some (error s)) = throws (reply_error_exception s)
load_reply (some (string s)) = returns s
load_reply (some r) = throws reply_type_exception

unfoldable pub load : (List ℕ → Option Reply) → List ℕ → Result (List ℕ)
load conn cmd = load_reply (conn cmd)
