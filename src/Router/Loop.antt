-- ===== src/Router/Loop.antt =====
-- The loop of Tema-1-PCom/router.c: one packet as a step from one state of the router to the next.
pub mod Forwarding
pub mod Replying
pub mod Saved
pub mod Resolution
pub mod Losses
pub mod Frames
pub mod Outgoing
pub mod Invariant
pub mod Sound
pub mod Rounds
pub mod Moved
pub mod Hops
use teme_pcom_anul_2_sem.Prelude.{
  ℕ, Bool, true, false, Option, none, some, List, [], ◌∷◌, ◌++◌, ◌==◌, if◌then◌else◌,
}
use teme_pcom_anul_2_sem.Router.Route.{RtableEntry}
use teme_pcom_anul_2_sem.Router.Headers.{
  Packet, Links, ethertype_ip, ethertype_arp, ether_header_bytes, eth_hdr_setter, iphdr_bytes,
  eth_hdr, ip_hdr, put,
}
use teme_pcom_anul_2_sem.Router.Icmp.{
  icmp_dest_unreach, send_icmp, icmp_handler, is_garbage, incremental_checksum,
}
use teme_pcom_anul_2_sem.Router.Queue.{Cells, queue_create, queue_enq}
use teme_pcom_anul_2_sem.Router.Outcome.{Outcome, done, fault, ◌>>=◌, or_fault, best_route}
use teme_pcom_anul_2_sem.Router.Arp.{
  ArpTable, ArpEntry, search_arp, arp_requester, arp_handler, Waiting,
}

-- The variables of `main` that outlive a round.
pub record Router : Type 0 where
  pub arp_table : ArpTable
  pub waiting : Waiting

-- `ARP_MAX_SIZE`
abbrev pub arp_max_size : ℕ
arp_max_size = 20

-- The state before the loop.
abbrev pub start : Router
start = record {
  arp_table = record { entries = []; arp_max_len = arp_max_size; live = true };
  waiting = record { queue = (queue_create, []); packets = []; sent = [] };
}

-- What is given to `send_packet`; write_all of Router/Main writes it.
abbrev pub send : List Packet → Router → Router
send out s = record s { waiting = record s.waiting { sent = s.waiting.sent ++ out } }

-- A packet whose TTL and checksum are updated in place.
abbrev pub updated : Packet → Packet
updated m = put m 14 (iphdr_bytes (incremental_checksum (ip_hdr m)))

-- A packet for the next hop, whose address is known.
abbrev pub resolved : Links → Packet → RtableEntry → ArpEntry → Packet
resolved links m route e =
    let ether = eth_hdr_setter e.mac (links.mac_of route.interface) ethertype_ip in
    record (put m 0 (ether_header_bytes ether)) { interface = route.interface }

-- `malloc` is the allocation of cells, `rounds` and `fuel` bound the search of the routing table
-- and of the queue, and `saved` is the address of the variable `saved` of the loop, whose place in
-- the frame is the same in every round.
module _ (links : Links) (malloc : Cells → ℕ) (rounds fuel : ℕ) (saved : ℕ)
    (rtable : List RtableEntry) where
  -- A packet whose next hop has no ARP entry: the request is sent and the packet waits.
  abbrev pub enqueue_saved : Packet → RtableEntry → Router → Outcome Router
  enqueue_saved m route s = do
    let w = (send (arp_requester links route ∷ []) s).waiting
    queue ← or_fault (queue_enq malloc w.queue.0 saved w.queue.1)
    done (record s {
      waiting = record {
        queue = queue;
        packets = (saved, record m { interface = route.interface }) ∷ w.packets;
        sent = w.sent;
      };
    })

  -- From the update of the TTL on.
  unfoldable pub forward : Packet → RtableEntry → Router → Outcome Router
  forward m route s = do
    entry ← search_arp s.arp_table route.next_hop
    elim entry [
      | none ↦ enqueue_saved (updated m) route s
      | some e ↦ done (send (resolved links (updated m) route e ∷ []) s)
    ]

  -- The branch for a packet of type IP.
  unfoldable pub handle_ip : Packet → Router → Outcome Router
  unfolding forward
  handle_ip m s =
      let icmp = icmp_handler links m in
      let garbage = is_garbage links m in
      if icmp.0 then done (send icmp.1 s) else if garbage.0 then done (send garbage.1 s) else (do
        found ← best_route rounds rtable (ip_hdr m).daddr
        elim found [
          | none ↦ done (send (send_icmp links m icmp_dest_unreach ∷ []) s)
          | some route ↦ forward m route s
        ])

  -- One round, with a packet that `get_packet` has received, up to the writes of what it sends.
  unfoldable pub step : Bool → Packet → Router → Outcome Router
  unfolding handle_ip
  step moves m s =
      if (eth_hdr m).ether_type == ethertype_ip
      then handle_ip m s
      else if (eth_hdr m).ether_type == ethertype_arp
      then (do
        r ← arp_handler links malloc moves rounds fuel rtable m s.arp_table s.waiting
        done (record { arp_table = r.0; waiting = r.1 }))
      else done s
