-- ===== src/Redis/Commands.antt =====
-- rediscpp: the commands, over hiredis. A connection is a function from a request to its reply, where
-- `none` is a null pointer; of the elements of an array only `str` is read. The text of an error or of a status has no zero byte. An integer is the bit pattern
-- of a long long. An exception is a value, whose fixed text is left out.
pub mod Strings
pub mod Hashes
pub mod Lists
pub mod Sets
pub mod Zsets
pub mod Keys
pub mod Reading
mod Tests
use zylib.Prelude.{
  ℕ, ◌%◌, Bool, true, false, ◌&&◌, Option, none, some, List, [], ◌∷◌, ◌==◌, if◌then◌else◌, length,
}

-- The name that a format starts with.
pub data Verb : Type 0 where
  cmd_set cmd_get cmd_getrange cmd_getset cmd_setex cmd_setnx cmd_setrange cmd_strlen : Verb
  cmd_psetex cmd_incr cmd_incrby cmd_incrbyfloat cmd_hgetall cmd_hincrby cmd_hset cmd_hget : Verb
  cmd_hdel cmd_hlen cmd_llen cmd_lpop cmd_rpop cmd_lrange cmd_lpush cmd_rpush : Verb
  cmd_ltrim cmd_lindex cmd_sadd cmd_sismember cmd_scard cmd_srandmember cmd_zadd cmd_zrange : Verb
  cmd_zrevrange cmd_keys cmd_ping : Verb

-- %b, %lld or %d, and the word WITHSCORES of a format.
pub data Arg : Type 0 where
  bytes : List ℕ → Arg
  number : ℕ → Arg
  withscores : Arg

-- A format with its arguments, or a text that is the format.
pub data Request : Type 0 where
  command : Verb → List Arg → Request
  text : List ℕ → Request

-- redisReply
pub data Reply : Type 0 where
  nil : Reply
  error : List ℕ → Reply
  status : List ℕ → Reply
  string : List ℕ → Reply
  integer : ℕ → Reply
  array : List (List ℕ) → Reply

abbrev pub Conn : Type 0
Conn = Request → Option Reply

-- ConnectionException, ReplyErrorException, ReplyTypeException, and Exception itself.
pub data Error : Type 0 where
  connection_exception : Error
  reply_error_exception : List ℕ → Error
  reply_type_exception : Error
  exception : Error

pub data Result (A : Type 0) : Type 0 where
  returns : A → Result A
  throws : Error → Result A

abbrev pub ok_text : List ℕ
ok_text = 79 ∷ 75 ∷ []

abbrev same_text : List ℕ → List ℕ → Bool
same_text [] [] = true
same_text [] (y ∷ ys) = false
same_text (x ∷ xs) [] = false
same_text (x ∷ xs) (y ∷ ys) = x == y && same_text xs ys

-- A status OK, as for SET.
unfoldable pub expect_ok : Option Reply → Result Unit
expect_ok none = throws connection_exception
expect_ok (some (error s)) = throws (reply_error_exception s)
expect_ok (some (status s)) = if same_text s ok_text then returns _ else throws reply_type_exception
expect_ok (some r) = throws reply_type_exception

-- A string, or an empty buffer for nil, as for GET.
unfoldable pub expect_string_or_nil : Option Reply → Result (List ℕ)
expect_string_or_nil none = throws connection_exception
expect_string_or_nil (some nil) = returns []
expect_string_or_nil (some (error s)) = throws (reply_error_exception s)
expect_string_or_nil (some (string s)) = returns s
expect_string_or_nil (some r) = throws reply_type_exception

-- A string, as for SETRANGE.
unfoldable pub expect_string : Option Reply → Result (List ℕ)
expect_string none = throws connection_exception
expect_string (some (error s)) = throws (reply_error_exception s)
expect_string (some (string s)) = returns s
expect_string (some r) = throws reply_type_exception

-- An integer, as for STRLEN, and whether it is 1, as for SETNX.
unfoldable pub expect_integer : Option Reply → Result ℕ
expect_integer none = throws connection_exception
expect_integer (some (error s)) = throws (reply_error_exception s)
expect_integer (some (integer n)) = returns n
expect_integer (some r) = throws reply_type_exception

unfoldable pub expect_one : Option Reply → Result Bool
expect_one none = throws connection_exception
expect_one (some (error s)) = throws (reply_error_exception s)
expect_one (some (integer n)) = returns (n == 1)
expect_one (some r) = throws reply_type_exception

-- A status, as for PING.
unfoldable pub expect_status : Option Reply → Result (List ℕ)
expect_status none = throws connection_exception
expect_status (some (error s)) = throws (reply_error_exception s)
expect_status (some (status s)) = returns s
expect_status (some r) = throws reply_type_exception

-- A C string is read up to its first zero byte.
abbrev pub c_str : List ℕ → List ℕ
c_str [] = []
c_str (b ∷ bs) = if b == 0 then [] else b ∷ c_str bs

-- A string that is given back as a C string, as for PING with an argument.
unfoldable pub expect_c_string : Option Reply → Result (List ℕ)
expect_c_string none = throws connection_exception
expect_c_string (some (error s)) = throws (reply_error_exception s)
expect_c_string (some (string s)) = returns (c_str s)
expect_c_string (some r) = throws reply_type_exception

-- replyArrayToPair behind its first test, which is of the number of elements.
unfoldable pub to_pairs : List (List ℕ) → Result (List (List ℕ × List ℕ))
to_pairs [] = returns []
to_pairs (key ∷ []) = throws exception
to_pairs (key ∷ (value ∷ elements)) = elim (to_pairs elements) [
  | returns ps ↦ returns ((key, value) ∷ ps)
  | throws e ↦ throws e
]

unfoldable pub array_to_pair : List (List ℕ) → Result (List (List ℕ × List ℕ))
array_to_pair elements = if length elements % 2 == 0 then to_pairs elements else throws exception

-- An array of pairs, or none for nil, as for HGETALL.
unfoldable pub expect_pairs : Option Reply → Result (List (List ℕ × List ℕ))
expect_pairs none = throws connection_exception
expect_pairs (some nil) = returns []
expect_pairs (some (error s)) = throws (reply_error_exception s)
expect_pairs (some (array elements)) = array_to_pair elements
expect_pairs (some r) = throws reply_type_exception

-- An array, as for KEYS, and for nil an empty one, as for LRANGE.
unfoldable pub expect_array : Option Reply → Result (List (List ℕ))
expect_array none = throws connection_exception
expect_array (some (error s)) = throws (reply_error_exception s)
expect_array (some (array elements)) = returns elements
expect_array (some r) = throws reply_type_exception

unfoldable pub expect_array_or_nil : Option Reply → Result (List (List ℕ))
expect_array_or_nil none = throws connection_exception
expect_array_or_nil (some nil) = returns []
expect_array_or_nil (some (error s)) = throws (reply_error_exception s)
expect_array_or_nil (some (array elements)) = returns elements
expect_array_or_nil (some r) = throws reply_type_exception

-- The same for ZRANGE, which throws a ReplyTypeException for an error.
unfoldable pub expect_zrange : Option Reply → Result (List (List ℕ))
expect_zrange none = throws connection_exception
expect_zrange (some nil) = returns []
expect_zrange (some (error s)) = throws reply_type_exception
expect_zrange (some (array elements)) = returns elements
expect_zrange (some r) = throws reply_type_exception
