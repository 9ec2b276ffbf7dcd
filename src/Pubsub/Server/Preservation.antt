-- ===== src/Pubsub/Server/Preservation.antt =====
-- The loop of server.cpp keeps the invariant and throws nothing, whatever its clients do within the
-- lengths that the subscriber respects.
mod Defs
mod Frames
mod Datagram
mod Connection
mod Requests
pub use Defs.*
pub use Frames.*
pub use Datagram.*
pub use Connection.*
pub use Requests.*
