-- ===== src/Nel.antt =====
-- nel: the sockets and the connections of a service.
pub mod Connection
pub mod NetClient
pub mod Network
pub mod TSock
