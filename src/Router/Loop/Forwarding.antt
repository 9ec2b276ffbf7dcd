-- ===== src/Router/Loop/Forwarding.antt =====
-- A packet that the router passes on.
use teme_pcom_anul_2_sem.Prelude.{
  ℕ, ◌-◌, ◌≡◌, ◌≤◌, refl, ap, ◌∙◌, Bool, false, List, [], ◌∷◌, arith, length, drop, bytes_at,
  IsBytes, take-IsBytes, drop-IsBytes, some,
}
use teme_pcom_anul_2_sem.Router.Route.{RtableEntry}
use teme_pcom_anul_2_sem.Router.Checksum.{ip_checksum}
use teme_pcom_anul_2_sem.Router.Headers.{
  Packet, Links, max_len, ethertype_ip, ether_header_bytes, eth_hdr_setter, iphdr_of, iphdr_bytes,
  eth_hdr, ip_hdr,
}
use teme_pcom_anul_2_sem.Router.Headers.Layout.{IsIphdr, iphdr_of-iphdr_bytes, iphdr_of-IsIphdr}
use teme_pcom_anul_2_sem.Router.Headers.Packets.{
  IsEtherHeader, length-ether_header_bytes, ether_of-ip_then_ether, ip_of-ip_then_ether,
  drop-ip_then_ether, length-ip_then_ether,
}
use teme_pcom_anul_2_sem.Router.Icmp.{header_offset, icmp_handler, is_garbage, incremental_checksum}
use teme_pcom_anul_2_sem.Router.Icmp.Headers.{
  incremental_checksum-IsIphdr, incremental_checksum-same,
}
use teme_pcom_anul_2_sem.Router.Icmp.Replies.{IsLinks}
use teme_pcom_anul_2_sem.Router.Queue.{Cells}
use teme_pcom_anul_2_sem.Router.Outcome.{done, best_route}
use teme_pcom_anul_2_sem.Router.Arp.{ArpEntry, search_arp}
use teme_pcom_anul_2_sem.Router.Loop.{Router, send, updated, resolved, forward, step}

-- What leaves the router: the addresses of the next hop and of the interface, one hop less to
-- live, a checksum that still holds, and the data as it was.
pub record IsForwarded (links : Links) (m : Packet) (route : RtableEntry) (mac : List ℕ)
    (out : Packet) : Type 0 where
  pub len : out.len ≡ m.len
  pub interface : out.interface ≡ route.interface
  pub size : length out.payload ≡ length m.payload
  pub ether : eth_hdr out ≡ eth_hdr_setter mac (links.mac_of route.interface) ethertype_ip
  pub ttl : (ip_hdr out).ttl ≡ (ip_hdr m).ttl - 1
  pub saddr : (ip_hdr out).saddr ≡ (ip_hdr m).saddr
  pub daddr : (ip_hdr out).daddr ≡ (ip_hdr m).daddr
  pub check : ip_checksum header_offset (iphdr_bytes (ip_hdr out)) ≡ 0
  pub data' : drop 34 out.payload ≡ drop 34 m.payload

-- A packet that is not an echo for the router, with a header that holds and a hop left.
pub record IsPassing (links : Links) (m : Packet) : Type 0 where
  pub full : length m.payload ≡ max_len
  pub bytes : IsBytes m.payload
  pub type : (eth_hdr m).ether_type ≡ ethertype_ip
  pub no_echo : (icmp_handler links m).0 ≡ false
  pub valid : ip_checksum header_offset (iphdr_bytes (ip_hdr m)) ≡ 0
  pub alive : 2 ≤ (ip_hdr m).ttl

pub ip_hdr-IsIphdr : (m : Packet) → IsBytes m.payload → IsIphdr (ip_hdr m)
ip_hdr-IsIphdr m w =
    iphdr_of-IsIphdr (bytes_at 14 20 m.payload)
      (take-IsBytes 20 (drop 14 m.payload) (drop-IsBytes 14 m.payload w))

is_garbage-IsPassing :
    (links : Links) (m : Packet) → IsPassing links m → (is_garbage links m).0 ≡ false
unfolding is_garbage
is_garbage-IsPassing links m w = ground (arith, w.valid, w.alive)

module _ (links : Links) (ws : IsLinks links) (m : Packet) (w : IsPassing links m)
    (route : RtableEntry) where
  abbrev new_ip : List ℕ
  new_ip = iphdr_bytes (incremental_checksum (ip_hdr m))

  pub ip_lem :
      (out : Packet)
      → bytes_at 14 20 out.payload ≡ new_ip
      → ip_hdr out ≡ incremental_checksum (ip_hdr m)
  ip_lem out e =
      ap iphdr_of e
      ∙ iphdr_of-iphdr_bytes (incremental_checksum (ip_hdr m))
          (incremental_checksum-IsIphdr (ip_hdr m) (ip_hdr-IsIphdr m w.bytes))

  pub same_addresses :
      ((incremental_checksum (ip_hdr m)).saddr ≡ (ip_hdr m).saddr)
      × ((incremental_checksum (ip_hdr m)).daddr ≡ (ip_hdr m).daddr)
  unfolding incremental_checksum
  same_addresses = (refl, refl)

  pub resolved-IsForwarded :
      (e : ArpEntry)
      → length e.mac ≡ 6
      → IsForwarded links m route e.mac (resolved links (updated m) route e)
  resolved-IsForwarded e h =
      let out = resolved links (updated m) route e in
      let eth = eth_hdr_setter e.mac (links.mac_of route.interface) ethertype_ip in
      let f : IsEtherHeader eth = record {
        ether_dhost = h;
        ether_shost = ws.mac_of route.interface;
        ether_type = omega arith;
      } in
      let b = ether_header_bytes eth in
      let he = length-ether_header_bytes eth f in
      let whole : 34 ≤ length m.payload = omega (arith, w.full) in
      let ip = ip_lem out (ip_of-ip_then_ether m b new_ip he refl whole) in
      let same =
        incremental_checksum-same (ip_hdr m) (ip_hdr-IsIphdr m w.bytes) (omega (arith, w.alive)) in
      record {
        len = refl;
        interface = refl;
        size = length-ip_then_ether m b new_ip he refl whole;
        ether = ether_of-ip_then_ether m b new_ip he refl whole eth f refl;
        ttl = ap (λ h. h.ttl) ip ∙ same.0;
        saddr = ap (λ h. h.saddr) ip ∙ same_addresses.0;
        daddr = ap (λ h. h.daddr) ip ∙ same_addresses.1;
        check = ap (λ h. ip_checksum header_offset (iphdr_bytes h)) ip ∙ same.1 ∙ w.valid;
        data' = drop-ip_then_ether m b new_ip he refl whole;
      }

module _ (links : Links) (ws : IsLinks links) (malloc : Cells → ℕ) (rounds fuel saved : ℕ)
    (rtable : List RtableEntry) (m : Packet) (w : IsPassing links m) (route : RtableEntry)
    (routed : best_route rounds rtable (ip_hdr m).daddr ≡ done (some route)) where
  pub step-forward :
      (moves : Bool) (s : Router)
      → step links malloc rounds fuel saved rtable moves m s
        ≡ forward links malloc rounds fuel saved rtable m route s
  unfolding step
  step-forward moves s = rw (w.type, w.no_echo, is_garbage-IsPassing links m w, routed) refl

  pub step-known :
      (moves : Bool) (s : Router) (e : ArpEntry)
      → search_arp s.arp_table route.next_hop ≡ done (some e)
      → step links malloc rounds fuel saved rtable moves m s
        ≡ done (send (resolved links (updated m) route e ∷ []) s)
  unfolding forward
  step-known moves s e known = step-forward moves s ∙ rw known refl

  -- With addresses of the right sizes from the system, a packet with a payload of MAX_LEN bytes of
  -- type IP that is no echo request for the router, with a header checksum that holds, a TTL of at
  -- least 2, a route, and an ARP entry with six bytes for its next hop, is sent on the interface
  -- of the route with the hardware address of the entry as its target and that of the interface as
  -- its source, the TTL one less, a checksum that holds, the same addresses and the same bytes
  -- behind the header; nothing else of the router changes.
  pub step-forwards :
      (moves : Bool) (s : Router) (e : ArpEntry)
      → search_arp s.arp_table route.next_hop ≡ done (some e)
      → length e.mac ≡ 6
      → (out : Packet) × (step links malloc rounds fuel saved rtable moves m s
          ≡ done (send (out ∷ []) s))
        × IsForwarded links m route e.mac out
  step-forwards moves s e known h = (
    resolved links (updated m) route e,
    step-known moves s e known,
    resolved-IsForwarded links ws m w route e h,
  )
