-- ===== src/Redis/Commands/Hashes.antt =====
-- Hash of rediscpp/Hash.cpp: each command sends its request and reads the reply.
use zylib.Prelude.{ℕ, List, [], ◌∷◌}
use zylib.Redis.Commands.{
  Conn, Result, command, bytes, number, cmd_hgetall, cmd_hincrby, cmd_hset, cmd_hget, cmd_hdel,
  cmd_hlen, expect_integer, expect_pairs, expect_string_or_nil,
}

unfoldable pub hgetall : Conn → List ℕ → Result (List (List ℕ × List ℕ))
hgetall conn key = expect_pairs (conn (command cmd_hgetall (bytes key ∷ [])))

unfoldable pub hincrby : Conn → List ℕ → List ℕ → ℕ → Result ℕ
hincrby conn key mkey increment =
    expect_integer (conn (command cmd_hincrby (bytes key ∷ bytes mkey ∷ number increment ∷ [])))

unfoldable pub hset : Conn → List ℕ → List ℕ → List ℕ → Result ℕ
hset conn key mkey value =
    expect_integer (conn (command cmd_hset (bytes key ∷ bytes mkey ∷ bytes value ∷ [])))

unfoldable pub hget : Conn → List ℕ → List ℕ → Result (List ℕ)
hget conn key mkey = expect_string_or_nil (conn (command cmd_hget (bytes key ∷ bytes mkey ∷ [])))

unfoldable pub hdel : Conn → List ℕ → List ℕ → Result ℕ
hdel conn key mkey = expect_integer (conn (command cmd_hdel (bytes key ∷ bytes mkey ∷ [])))

unfoldable pub hlen : Conn → List ℕ → Result ℕ
hlen conn key = expect_integer (conn (command cmd_hlen (bytes key ∷ [])))
