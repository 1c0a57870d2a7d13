-- ===== src/Redis/Commands/Strings.antt =====
-- String of rediscpp/String.cpp: each command sends its request and reads the reply.
use zylib.Prelude.{ℕ, Bool, List, [], ◌∷◌}
use zylib.Redis.Commands.{
  Conn, Result, command, bytes, number, cmd_set, cmd_get, cmd_getrange, cmd_getset, cmd_setex,
  cmd_setnx, cmd_setrange, cmd_strlen, cmd_psetex, cmd_incr, cmd_incrby, cmd_incrbyfloat,
  expect_integer, expect_ok, expect_one, expect_string, expect_string_or_nil,
}

unfoldable pub set : Conn → List ℕ → List ℕ → Result Unit
set conn key value = expect_ok (conn (command cmd_set (bytes key ∷ bytes value ∷ [])))

unfoldable pub get : Conn → List ℕ → Result (List ℕ)
get conn key = expect_string_or_nil (conn (command cmd_get (bytes key ∷ [])))

unfoldable pub getrange : Conn → List ℕ → ℕ → ℕ → Result Unit
getrange conn key start end =
    expect_ok (conn (command cmd_getrange (bytes key ∷ number start ∷ number end ∷ [])))

unfoldable pub getset : Conn → List ℕ → List ℕ → Result (List ℕ)
getset conn key value =
    expect_string_or_nil (conn (command cmd_getset (bytes key ∷ bytes value ∷ [])))

unfoldable pub setex : Conn → List ℕ → ℕ → List ℕ → Result (List ℕ)
setex conn key timeout value =
    expect_string_or_nil (conn (command cmd_setex (bytes key ∷ number timeout ∷ bytes value ∷ [])))

unfoldable pub setnx : Conn → List ℕ → List ℕ → Result Bool
setnx conn key value = expect_one (conn (command cmd_setnx (bytes key ∷ bytes value ∷ [])))

unfoldable pub setrange : Conn → List ℕ → ℕ → List ℕ → Result (List ℕ)
setrange conn key offset value =
    expect_string (conn (command cmd_setrange (bytes key ∷ number offset ∷ bytes value ∷ [])))

unfoldable pub strlen : Conn → List ℕ → Result ℕ
strlen conn key = expect_integer (conn (command cmd_strlen (bytes key ∷ [])))

unfoldable pub psetex : Conn → List ℕ → ℕ → List ℕ → Result Unit
psetex conn key timeout value =
    expect_ok (conn (command cmd_psetex (bytes key ∷ number timeout ∷ bytes value ∷ [])))

unfoldable pub incr : Conn → List ℕ → Result ℕ
incr conn key = expect_integer (conn (command cmd_incr (bytes key ∷ [])))

unfoldable pub incrby : Conn → List ℕ → ℕ → Result ℕ
incrby conn key increment =
    expect_integer (conn (command cmd_incrby (bytes key ∷ number increment ∷ [])))

unfoldable pub incrbyfloat : Conn → List ℕ → List ℕ → Result (List ℕ)
incrbyfloat conn key value =
    expect_string (conn (command cmd_incrbyfloat (bytes key ∷ bytes value ∷ [])))
