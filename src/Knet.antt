-- ===== src/Knet.antt =====
-- knet: remote calls over a message queue.
pub mod Codec
pub mod Rpc
