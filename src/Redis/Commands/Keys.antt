-- ===== src/Redis/Commands/Keys.antt =====
-- rediscpp/Utile.cpp: DEL, KEYS and PING. DEL makes its command as a text.
use zylib.Prelude.{ℕ, List, [], ◌∷◌, ◌++◌}
use zylib.Redis.Commands.{
  Conn, Result, returns, command, text, bytes, cmd_keys, cmd_ping, expect_integer, expect_array,
  expect_status, expect_c_string, c_str,
}

abbrev pub space : ℕ
space = 32

-- What the stream of DEL gets for its keys.
abbrev pub spaced : List (List ℕ) → List ℕ
spaced [] = []
spaced (key ∷ keys) = space ∷ (key ++ spaced keys)

-- "DEL " and the keys.
abbrev pub del_text : List (List ℕ) → List ℕ
del_text keys = 68 ∷ 69 ∷ 76 ∷ space ∷ spaced keys

-- DEL of several keys, and of one.
unfoldable pub del : Conn → List (List ℕ) → Result ℕ
del conn [] = returns 0
del conn (key ∷ keys) = expect_integer (conn (text (c_str (del_text (key ∷ keys)))))

unfoldable pub del_one : Conn → List ℕ → Result ℕ
del_one conn key = del conn (key ∷ [])

unfoldable pub keys_of : Conn → List ℕ → Result (List (List ℕ))
keys_of conn key = expect_array (conn (command cmd_keys (bytes key ∷ [])))

unfoldable pub ping : Conn → Result (List ℕ)
ping conn = expect_status (conn (command cmd_ping []))

unfoldable pub ping_with : Conn → List ℕ → Result (List ℕ)
ping_with conn str = expect_c_string (conn (command cmd_ping (bytes (c_str str) ∷ [])))
