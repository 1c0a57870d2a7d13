-- ===== src/Redis/Commands/Lists.antt =====
-- List of rediscpp/List.cpp: each command sends its request and reads the reply.
use zylib.Prelude.{ℕ, List, [], ◌∷◌}
use zylib.Redis.Commands.{
  Conn, Result, command, bytes, number, cmd_llen, cmd_lpop, cmd_rpop, cmd_lrange, cmd_lpush,
  cmd_rpush, cmd_ltrim, cmd_lindex, expect_array_or_nil, expect_integer, expect_ok,
  expect_string_or_nil,
}

unfoldable pub llen : Conn → List ℕ → Result ℕ
llen conn key = expect_integer (conn (command cmd_llen (bytes key ∷ [])))

unfoldable pub lpop : Conn → List ℕ → Result (List ℕ)
lpop conn key = expect_string_or_nil (conn (command cmd_lpop (bytes key ∷ [])))

unfoldable pub rpop : Conn → List ℕ → Result (List ℕ)
rpop conn key = expect_string_or_nil (conn (command cmd_rpop (bytes key ∷ [])))

unfoldable pub lrange : Conn → List ℕ → ℕ → ℕ → Result (List (List ℕ))
lrange conn key start stop =
    expect_array_or_nil (conn (command cmd_lrange (bytes key ∷ number start ∷ number stop ∷ [])))

unfoldable pub lpush : Conn → List ℕ → List ℕ → Result ℕ
lpush conn key val = expect_integer (conn (command cmd_lpush (bytes key ∷ bytes val ∷ [])))

unfoldable pub rpush : Conn → List ℕ → List ℕ → Result ℕ
rpush conn key val = expect_integer (conn (command cmd_rpush (bytes key ∷ bytes val ∷ [])))

unfoldable pub ltrim : Conn → List ℕ → ℕ → ℕ → Result Unit
ltrim conn key start stop =
    expect_ok (conn (command cmd_ltrim (bytes key ∷ number start ∷ number stop ∷ [])))

unfoldable pub lindex : Conn → List ℕ → ℕ → Result (List ℕ)
lindex conn key index =
    expect_string_or_nil (conn (command cmd_lindex (bytes key ∷ number index ∷ [])))
