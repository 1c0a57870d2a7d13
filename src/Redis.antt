-- ===== src/Redis.antt =====
-- rediscpp: the client of a Redis server.
pub mod Pool
pub mod Scripts
pub mod Arrays
pub mod Commands
