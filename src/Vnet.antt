-- ===== src/Vnet.antt =====
-- network/vnetwork: a client and a server over boost::asio that exchange messages with a head.
pub mod Message
pub mod Session
pub mod Server
pub mod Client
pub mod Delivery
mod Tests
