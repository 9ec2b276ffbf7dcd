-- ===== src/Router/Loop/Hops.antt =====
-- Two routers that a packet passes one after the other.
use teme_pcom_anul_2_sem.Prelude.{ℕ, ◌-◌, ◌≡◌, ◌≢◌, Bool, false, List, arith, bytes_at, some}
use teme_pcom_anul_2_sem.Router.Route.{RtableEntry}
use teme_pcom_anul_2_sem.Router.Checksum.{ip_checksum}
use teme_pcom_anul_2_sem.Router.Headers.{
  Packet, Links, ethertype_ip, eth_hdr_setter, iphdr_bytes, eth_hdr, ip_hdr,
}
use teme_pcom_anul_2_sem.Router.Icmp.{header_offset, icmp_handler}
use teme_pcom_anul_2_sem.Router.Icmp.Replies.{IsLinks}
use teme_pcom_anul_2_sem.Router.Queue.{Cells}
use teme_pcom_anul_2_sem.Router.Outcome.{Outcome, done, best_route}
use teme_pcom_anul_2_sem.Router.Arp.{ArpEntry, search_arp}
use teme_pcom_anul_2_sem.Router.Loop.{Router, step}
use teme_pcom_anul_2_sem.Router.Loop.Frames.{IsMac}

-- Only a packet for the router itself is an echo request that it answers.
pub not_echo :
    (links : Links) (m : Packet)
    → (ip_hdr m).daddr ≢ links.ip_of m.interface
    → (icmp_handler links m).0 ≡ false
unfolding icmp_handler
not_echo links m n = ground (arith, n)

-- What leaves the second of two routers, with the hardware addresses of that one's route.
pub record IsTwiceForwarded (links : Links) (m : Packet) (route : RtableEntry) (mac : List ℕ)
    (out : Packet) : Type 0 where
  pub len : out.len ≡ m.len
  pub interface : out.interface ≡ route.interface
  pub ether : eth_hdr out ≡ eth_hdr_setter mac (links.mac_of route.interface) ethertype_ip
  pub ttl : (ip_hdr out).ttl ≡ (ip_hdr m).ttl - 2
  pub saddr : (ip_hdr out).saddr ≡ (ip_hdr m).saddr
  pub daddr : (ip_hdr out).daddr ≡ (ip_hdr m).daddr
  pub check : ip_checksum header_offset (iphdr_bytes (ip_hdr out)) ≡ 0
  pub data' : bytes_at 34 (m.len - 34) out.payload ≡ bytes_at 34 (m.len - 34) m.payload

-- A router with its system, its memory, its tables and its state, which knows a route to an
-- address and the hardware address of the next hop there.
pub record Hop (dest_ip : ℕ) : Type 0 where
  pub links : Links
  pub sizes : IsLinks links
  pub malloc : Cells → ℕ
  pub rounds : ℕ
  pub fuel : ℕ
  pub saved : ℕ
  pub rtable : List RtableEntry
  pub state : Router
  pub route : RtableEntry
  pub existing : ArpEntry
  pub routed : best_route rounds rtable dest_ip ≡ done (some route)
  pub known : search_arp state.arp_table route.next_hop ≡ done (some existing)
  pub mac : IsMac existing.mac

-- A round of a router at a hop.
abbrev pub hop : {dest_ip : ℕ} → Hop dest_ip → Bool → Packet → Outcome Router
hop a moves m = step a.links a.malloc a.rounds a.fuel a.saved a.rtable moves m a.state
