-- ===== src/Redis/Commands/Sets.antt =====
-- Set of rediscpp/Set.cpp: each command sends its request and reads the reply.
use zylib.Prelude.{ℕ, Bool, List, [], ◌∷◌}
use zylib.Redis.Commands.{
  Conn, Result, command, bytes, number, cmd_sadd, cmd_sismember, cmd_scard, cmd_srandmember,
  expect_array_or_nil, expect_integer, expect_one,
}

unfoldable pub sadd : Conn → List ℕ → List ℕ → Result ℕ
sadd conn key value = expect_integer (conn (command cmd_sadd (bytes key ∷ bytes value ∷ [])))

unfoldable pub sismember : Conn → List ℕ → List ℕ → Result Bool
sismember conn key value = expect_one (conn (command cmd_sismember (bytes key ∷ bytes value ∷ [])))

unfoldable pub scard : Conn → List ℕ → Result ℕ
scard conn key = expect_integer (conn (command cmd_scard (bytes key ∷ [])))

unfoldable pub srandmember : Conn → List ℕ → ℕ → Result (List (List ℕ))
srandmember conn key len =
    expect_array_or_nil (conn (command cmd_srandmember (bytes key ∷ number len ∷ [])))
