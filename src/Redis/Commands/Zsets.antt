-- ===== src/Redis/Commands/Zsets.antt =====
-- Zset of rediscpp/Zset.cpp: each command sends its request and reads the reply.
use zylib.Prelude.{ℕ, List, [], ◌∷◌}
use zylib.Redis.Commands.{
  Conn, Result, command, bytes, number, withscores, cmd_zadd, cmd_zrange, cmd_zrevrange,
  expect_array_or_nil, expect_integer, expect_pairs, expect_zrange,
}

unfoldable pub zadd : Conn → List ℕ → ℕ → List ℕ → Result ℕ
zadd conn key score value =
    expect_integer (conn (command cmd_zadd (bytes key ∷ number score ∷ bytes value ∷ [])))

unfoldable pub zrange : Conn → List ℕ → ℕ → ℕ → Result (List (List ℕ))
zrange conn key start end =
    expect_zrange (conn (command cmd_zrange (bytes key ∷ number start ∷ number end ∷ [])))

unfoldable pub zrange_withscores : Conn → List ℕ → ℕ → ℕ → Result (List (List ℕ × List ℕ))
zrange_withscores conn key start end =
    expect_pairs
      (conn (command cmd_zrange (bytes key ∷ number start ∷ number end ∷ withscores ∷ [])))

unfoldable pub zrevrange : Conn → List ℕ → ℕ → ℕ → Result (List (List ℕ))
zrevrange conn key start end =
    expect_array_or_nil (conn (command cmd_zrevrange (bytes key ∷ number start ∷ number end ∷ [])))

unfoldable pub zrevrange_withscores : Conn → List ℕ → ℕ → ℕ → Result (List (List ℕ × List ℕ))
zrevrange_withscores conn key start end =
    expect_pairs
      (conn (command cmd_zrevrange (bytes key ∷ number start ∷ number end ∷ withscores ∷ [])))
