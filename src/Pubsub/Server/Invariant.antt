-- ===== src/Pubsub/Server/Invariant.antt =====
-- The invariant of the server's variables, and that the handlers of its loop keep it.
mod Defs
mod Clients
mod Topics
mod Sockets
pub use Defs.*
pub use Clients.*
pub use Topics.*
pub use Sockets.*
