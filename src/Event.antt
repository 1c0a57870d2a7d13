-- ===== src/Event.antt =====
-- eventserver: a server over libevent with one loop thread.
pub mod Session
pub mod Server
