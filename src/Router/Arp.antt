-- ===== src/Router/Arp.antt =====
-- Tema-1-PCom/arp.c: the ARP table, the requests and replies, and the packets that wait for the
-- hardware address of their next hop.
pub mod Delivery
pub mod Stuck
pub mod Exchange
use teme_pcom_anul_2_sem.Prelude.{
  ℕ, zero, suc, ◌+◌, Bool, true, false, not, ◌&&◌, Option, none, some, List, [], ◌∷◌, ◌++◌, ◌==◌,
  if◌then◌else◌, length, replicate,
}
use teme_pcom_anul_2_sem.Router.Route.{RtableEntry}
use teme_pcom_anul_2_sem.Router.Headers.{
  Packet, Links, blank, ArpHeader, ethertype_ip, ethertype_arp, ether_header_bytes, eth_hdr_setter,
  arp_header_bytes, ip_hdr, arp_hdr, put,
}
use teme_pcom_anul_2_sem.Router.Queue.{Cells, Que, queue_empty, queue_enq, queue_deq}
use teme_pcom_anul_2_sem.Router.Outcome.{Outcome, done, fault, endless, ◌>>=◌, or_fault, best_route}

abbrev pub arpop_request : ℕ
arpop_request = 1

abbrev pub arpop_reply : ℕ
arpop_reply = 2

-- `arp_hdr_setter`
abbrev pub arp_hdr_setter : ℕ → List ℕ → ℕ → List ℕ → ℕ → ArpHeader
arp_hdr_setter arp_op dest_mac dest_ip source_mac source_ip = record {
  htype = 1;
  ptype = ethertype_ip;
  hlen = 6;
  plen = 4;
  op = arp_op;
  sha = source_mac;
  spa = source_ip;
  tha = dest_mac;
  tpa = dest_ip;
}

-- `arp_requester`: the request that is sent.
unfoldable pub arp_requester : Links → RtableEntry → Packet
arp_requester links route =
    let request = blank (14 + 28) route.interface in
    let source_mac = links.mac_of route.interface in
    let ether = eth_hdr_setter (replicate 6 0xff) source_mac ethertype_arp in
    let source_ip = links.ip_of route.interface in
    let arp = arp_hdr_setter arpop_request (replicate 6 0) route.next_hop source_mac source_ip in
    put (put request 0 (ether_header_bytes ether)) 14 (arp_header_bytes arp)

-- `arp_replier`: the reply that is sent.
unfoldable pub arp_replier : Links → Packet → Packet
arp_replier links base =
    let base_arp = arp_hdr base in
    let reply = blank (14 + 28) base.interface in
    let source_mac = links.mac_of base.interface in
    let ether = eth_hdr_setter base_arp.sha source_mac ethertype_arp in
    let arp = arp_hdr_setter arpop_reply base_arp.sha base_arp.spa source_mac base_arp.tpa in
    put (put reply 0 (ether_header_bytes ether)) 14 (arp_header_bytes arp)

-- `struct arp_entry`
pub record ArpEntry : Type 0 where
  pub ip : ℕ
  pub mac : List ℕ

-- `arp_table` with `arp_len` entries and room for `arp_max_len`. After a `realloc` that moves the
-- table the pointer of the caller is no longer `live`: the new one stays in add_arp_entry.
pub record ArpTable : Type 0 where
  pub entries : List ArpEntry
  pub arp_max_len : ℕ
  pub live : Bool

abbrev pub search_entries : List ArpEntry → ℕ → Option ArpEntry
search_entries [] ip = none
search_entries (e ∷ entries) ip = if e.ip == ip then some e else search_entries entries ip

-- `search_arp`; a table without entries is not read.
abbrev pub search_arp : ArpTable → ℕ → Outcome (Option ArpEntry)
search_arp table ip =
    if table.live
    then done (search_entries table.entries ip)
    else if length table.entries == 0
    then done none
    else fault

-- `add_arp_entry`; `moves` tells whether `realloc` moves the table.
unfoldable pub add_arp_entry : Bool → ArpTable → ℕ → List ℕ → Outcome ArpTable
add_arp_entry moves table ip mac =
    let full = length table.entries == table.arp_max_len in
    let entries = table.entries ++ (record { ip = ip; mac = mac } ∷ []) in
    if table.live
    then done (record {
      entries = entries;
      arp_max_len = if full then table.arp_max_len + 1 else table.arp_max_len;
      live = not (full && moves);
    })
    else fault

-- The packets in memory, the latest write at an address first.
abbrev pub Packets : Type 0
Packets = List (ℕ × Packet)

abbrev pub packet_at : Packets → ℕ → Option Packet
packet_at [] p = none
packet_at (w ∷ packets) p = if p == w.0 then some w.1 else packet_at packets p

-- The queue of the addresses of packets, these packets, and what has been sent.
pub record Waiting : Type 0 where
  pub queue : Que × Cells
  pub packets : Packets
  pub sent : List Packet

module _ (links : Links) (malloc : Cells → ℕ) (rounds : ℕ) (rtable : List RtableEntry)
    (table : ArpTable) where
  -- A packet with the hardware addresses of its next hop.
  abbrev pub addressed : Packet → RtableEntry → ArpEntry → Packet
  addressed crt route existing = put crt 0 (existing.mac ++ links.mac_of route.interface)

  -- The end of the body: the packet is sent, or put back.
  abbrev pub dispatch :
      Waiting → ℕ × (Que × Cells) → Packet → RtableEntry → Option ArpEntry → Outcome Waiting
  dispatch s taken crt route (some e) =
      let out = addressed crt route e in
      done (record {
        queue = taken.1;
        packets = (taken.0, out) ∷ s.packets;
        sent = s.sent ++ (out ∷ []);
      })
  dispatch s taken crt route none = do
    queue ← or_fault (queue_enq malloc taken.1.0 taken.0 taken.1.1)
    done (record { queue = queue; packets = s.packets; sent = s.sent })

  -- The body of the loop of `search_queue`. A route that is NULL is a fault.
  unfoldable pub search_round : Waiting → Outcome Waiting
  search_round s = do
    taken ← or_fault (queue_deq s.queue.0 s.queue.1)
    crt ← or_fault (packet_at s.packets taken.0)
    found ← best_route rounds rtable (ip_hdr crt).daddr
    route ← or_fault found
    existing ← search_arp table route.next_hop
    dispatch s taken crt route existing

  -- `search_queue`; the queue `aux` stays empty, so that its loop has nothing to do.
  unfoldable pub search_queue : ℕ → Waiting → Outcome Waiting
  search_queue zero s = endless
  search_queue (suc fuel) s = elim (queue_empty s.queue.0) [
    | true ↦ done s
    | false ↦ search_round s >>= search_queue fuel
  ]

-- `arp_handler`
unfoldable pub arp_handler :
    Links
    → (Cells → ℕ)
    → Bool
    → ℕ
    → ℕ
    → List RtableEntry
    → Packet
    → ArpTable
    → Waiting
    → Outcome (ArpTable × Waiting)
arp_handler links malloc moves rounds fuel rtable pkt table s =
    let arp = arp_hdr pkt in
    if arp.op == arpop_request
    then done (table, record s { sent = s.sent ++ (arp_replier links pkt ∷ []) })
    else if arp.op == arpop_reply && arp.tpa == links.ip_of pkt.interface
    then (do
      larger ← add_arp_entry moves table arp.spa arp.sha
      rest ← search_queue links malloc rounds rtable larger fuel s
      done (larger, rest))
    else done (table, s)
