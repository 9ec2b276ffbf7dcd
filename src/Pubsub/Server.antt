-- ===== src/Pubsub/Server.antt =====
-- The server of Tema-2-PCom: server_funs.cpp and the loop of server.cpp.
pub mod State
pub mod Sessions
pub mod Topics
pub mod Loop
pub mod Reconnection
pub mod Disconnection
pub mod Delivery
pub mod Subscriptions
pub mod Invariant
pub mod Preservation
pub mod Rounds
pub mod Main
pub mod Forward
pub mod Limits
pub mod Examples
