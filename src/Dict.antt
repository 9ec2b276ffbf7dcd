-- ===== src/Dict.antt =====
-- `std::map<std::string, V>`, the container of the server's clients and topics.
mod Defs
mod Laws
mod Order
unfoldable pub use Defs.*
pub use Laws.*
pub use Order.*
