-- ===== src/Router.antt =====
-- The router of Tema-1-PCom: the routing table, checksums and headers, ICMP, ARP with the packets
-- that wait for it, and one packet of the loop.
pub mod Route
pub mod Checksum
pub mod Headers
pub mod Icmp
pub mod Queue
pub mod Files
pub mod Outcome
pub mod Arp
pub mod Loop
pub mod Receive
pub mod Main
mod Examples
