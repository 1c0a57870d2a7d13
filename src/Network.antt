-- ===== src/Network.antt =====
-- zysoft/src/network: the byte buffer, the framing of messages and the channel of one connection.
pub mod Buffer
pub mod Decoder
pub mod Channel
