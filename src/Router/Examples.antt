-- ===== src/Router/Examples.antt =====
-- The router of Tema-1-PCom at concrete packets.
mod Runs
use teme_pcom_anul_2_sem.Prelude.{
  none, ℕ, ◌-◌, ◌^◌, ◌≡◌, ◌<◌, refl, Bool, true, false, ◌&&◌, ltb, inr, ◌%◌, List, [], ◌∷◌,
  replicate, arith, some, IsBytes,
}
use teme_pcom_anul_2_sem.Router.Route.{RtableEntry, get_best_route}
use teme_pcom_anul_2_sem.Router.Checksum.{ip_checksum}
use teme_pcom_anul_2_sem.Router.Checksum.Sums.{sum16, ip_checksum-sum16}
use teme_pcom_anul_2_sem.Router.Headers.{Packet, Links, ip_hdr, arp_hdr, eth_hdr, iphdr_bytes}
use teme_pcom_anul_2_sem.Router.Icmp.{icmp_handler, header_offset, incremental_checksum}
use teme_pcom_anul_2_sem.Router.Icmp.Headers.{incremental_checksum-same}
use teme_pcom_anul_2_sem.Router.Icmp.Replies.{IsLinks, IsReply}
use teme_pcom_anul_2_sem.Router.Queue.Fifo.{Holds}
use teme_pcom_anul_2_sem.Router.Queue.Fresh.{behind, behind-unused}
use teme_pcom_anul_2_sem.Router.Outcome.{done, endless, best_route}
use teme_pcom_anul_2_sem.Router.Arp.{ArpEntry, search_arp, arp_requester}
use teme_pcom_anul_2_sem.Router.Arp.Exchange.{IsArpReply, answer, arp_replier-arp_requester}
use teme_pcom_anul_2_sem.Router.Loop.{Router, start, send, step}
use teme_pcom_anul_2_sem.Router.Loop.Forwarding.{
  IsPassing, IsForwarded, ip_hdr-IsIphdr, step-forwards,
}
use teme_pcom_anul_2_sem.Router.Loop.Replying.{unreachable, step-replies}
use teme_pcom_anul_2_sem.Router.Loop.Resolution.{step-resolves}
use teme_pcom_anul_2_sem.Router.Loop.Losses.{step-hangs, step-loses}

abbrev pub links : Links
links = record { mac_of = λ i. 2 ∷ 0 ∷ 0 ∷ 0 ∷ 0 ∷ 7 ∷ []; ip_of = λ i. 16777226 }

pub links-IsLinks : IsLinks links
links-IsLinks = record { mac_of = λ i. refl; ip_of = λ i. omega arith }

abbrev pub neighbour : Links
neighbour = record { mac_of = λ i. 2 ∷ 0 ∷ 0 ∷ 0 ∷ 0 ∷ 9 ∷ []; ip_of = λ i. 16777482 }

pub neighbour-IsLinks : IsLinks neighbour
neighbour-IsLinks = record { mac_of = λ i. refl; ip_of = λ i. omega arith }

abbrev pub all_bytes : List ℕ → Bool
all_bytes [] = true
all_bytes (b ∷ bs) = ltb b 256 && all_bytes bs

pub all_bytes-IsBytes : (bs : List ℕ) → all_bytes bs ≡ true → IsBytes bs
all_bytes-IsBytes [] h = tt
all_bytes-IsBytes (b ∷ bs) h = (ground (arith, h), all_bytes-IsBytes bs (ground (arith, h)))

-- A packet from 192.168.1.2 to 10.1.2.3.
abbrev pub passing : Packet
passing = record {
  len = 34;
  payload =
      2
      ∷ 0
      ∷ 0
      ∷ 0
      ∷ 0
      ∷ 7
      ∷ 2
      ∷ 0
      ∷ 0
      ∷ 0
      ∷ 0
      ∷ 3
      ∷ 8
      ∷ 0
      ∷ 0x45
      ∷ 0
      ∷ 0
      ∷ 20
      ∷ 0
      ∷ 1
      ∷ 0
      ∷ 0
      ∷ 64
      ∷ 17
      ∷ 173
      ∷ 42
      ∷ 192
      ∷ 168
      ∷ 1
      ∷ 2
      ∷ 10
      ∷ 1
      ∷ 2
      ∷ 3
      ∷ replicate 1566 0;
  interface = 0;
}

abbrev pub route : RtableEntry
route = record { prefix = 50462986; next_hop = 16777482; mask = 2 ^ 32 - 1; interface = 1 }

abbrev pub table : List RtableEntry
table = record { prefix = 2 ^ 32 - 1; next_hop = 1; mask = 2 ^ 32 - 1; interface = 0 } ∷ route ∷ []

pub routed : best_route 3 table (ip_hdr passing).daddr ≡ done (some route)
unfolding get_best_route
routed = refl

pub passing-IsPassing : IsPassing links passing
unfolding icmp_handler ip_checksum
passing-IsPassing = record {
  full = refl;
  bytes = all_bytes-IsBytes passing.payload refl;
  type = refl;
  no_echo = refl;
  valid = refl;
  alive = omega arith;
}

abbrev pub later : Packet
later = record passing { len = 60 }

pub later-IsPassing : IsPassing links later
unfolding icmp_handler
later-IsPassing =
    let w = passing-IsPassing in
    record {
      full = w.full;
      bytes = w.bytes;
      type = w.type;
      no_echo = w.no_echo;
      valid = w.valid;
      alive = w.alive;
    }

pub next_hop_fits : route.next_hop < 2 ^ 32
next_hop_fits = omega arith

-- The answer of the next hop to the request for it.
abbrev pub reply : Packet
reply = answer links links-IsLinks route next_hop_fits neighbour neighbour-IsLinks 0

abbrev pub other_route : RtableEntry
other_route = record route { next_hop = 5 }

other_hop_fits : other_route.next_hop < 2 ^ 32
other_hop_fits = omega arith

abbrev other_reply : Packet
other_reply = answer links links-IsLinks other_route other_hop_fits neighbour neighbour-IsLinks 0

abbrev pub known_hop : ArpEntry
known_hop = record { ip = 16777482; mac = 2 ∷ 0 ∷ 0 ∷ 0 ∷ 0 ∷ 9 ∷ [] }

abbrev pub resolved_start : Router
resolved_start = record start {
  arp_table = record { entries = known_hop ∷ []; arp_max_len = 20; live = true };
}

step-forwards_example :
    (out : Packet) × (step links behind 3 5 100 table false passing resolved_start
      ≡ done (send (out ∷ []) resolved_start))
    × IsForwarded links passing route known_hop.mac out
step-forwards_example =
    step-forwards links links-IsLinks behind 3 5 100 table passing passing-IsPassing route routed
      false resolved_start known_hop refl refl

step-resolves_example :
    (s1 s2 : Router) × (out : Packet) × (step links behind 3 5 100 table false passing start
      ≡ done s1)
    × (step links behind 3 5 100 table false reply s1 ≡ done s2)
    × (s2.waiting.sent ≡ arp_requester links route ∷ out ∷ [])
    × IsForwarded links passing route (arp_hdr reply).sha out
    × Holds s2.waiting.queue []
    × (search_arp s2.arp_table route.next_hop
        ≡ done (some (record { ip = route.next_hop; mac = (arp_hdr reply).sha })))
step-resolves_example =
    step-resolves links links-IsLinks behind behind-unused 3 5 100 table passing passing-IsPassing
      route routed false false start reply refl refl refl (omega arith) (omega arith)
      (arp_replier-arp_requester links links-IsLinks route next_hop_fits neighbour neighbour-IsLinks
        0).0

step-hangs_example :
    (s1 : Router) × (step links behind 3 5 100 table false passing start ≡ done s1)
    × ((second : Bool) → step links behind 3 5 100 table second other_reply s1 ≡ endless)
step-hangs_example =
    step-hangs links links-IsLinks behind behind-unused 3 5 100 table passing passing-IsPassing
      route routed false start 0 other_reply 5 refl refl refl (omega arith)
      (arp_replier-arp_requester links links-IsLinks other_route other_hop_fits neighbour
        neighbour-IsLinks 0).0
      (omega arith)

step-loses_example :
    (s1 s2 s3 : Router) × (out : Packet) × (step links behind 3 5 100 table false passing start
      ≡ done s1)
    × (step links behind 3 5 100 table false later s1 ≡ done s2)
    × (step links behind 3 5 100 table false reply s2 ≡ done s3)
    × (s3.waiting.sent ≡ arp_requester links route ∷ arp_requester links route ∷ out ∷ out ∷ [])
    × IsForwarded links later route (arp_hdr reply).sha out
    × Holds s3.waiting.queue []
step-loses_example =
    step-loses links links-IsLinks behind behind-unused 3 5 100 table passing later
      passing-IsPassing later-IsPassing route route routed routed false start reply refl refl refl
      refl (omega arith) (omega arith)
      (arp_replier-arp_requester links links-IsLinks route next_hop_fits neighbour neighbour-IsLinks
        0).0

abbrev header : List ℕ
header =
    0x45 ∷ 0 ∷ 0 ∷ 20 ∷ 0 ∷ 1 ∷ 0 ∷ 0 ∷ 64 ∷ 17 ∷ 0 ∷ 0 ∷ 192 ∷ 168 ∷ 1 ∷ 2 ∷ 10 ∷ 1 ∷ 2 ∷ 3 ∷ []

ip_checksum-sum16_example : ip_checksum 2 header ≡ (65535 - sum16 header % 65535) % 65535
ip_checksum-sum16_example =
    ip_checksum-sum16 header (all_bytes-IsBytes header refl) (omega arith) 2 (inr refl)

incremental_checksum-same_example :
    ((incremental_checksum (ip_hdr passing)).ttl ≡ (ip_hdr passing).ttl - 1)
    × (ip_checksum header_offset (iphdr_bytes (incremental_checksum (ip_hdr passing)))
        ≡ ip_checksum header_offset (iphdr_bytes (ip_hdr passing)))
incremental_checksum-same_example =
    incremental_checksum-same (ip_hdr passing) (ip_hdr-IsIphdr passing passing-IsPassing.bytes)
      (omega arith)

-- A table without a route for the packet.
abbrev other_table : List RtableEntry
other_table = record { prefix = 2 ^ 32 - 1; next_hop = 1; mask = 2 ^ 32 - 1; interface = 0 } ∷ []

unrouted : best_route 3 other_table (ip_hdr passing).daddr ≡ done none
unfolding get_best_route
unrouted = refl

step-replies_example :
    (answered : Packet) × (step links behind 3 5 100 other_table false passing start
      ≡ done (send (answered ∷ []) start))
    × IsReply links passing 3 answered
step-replies_example =
    step-replies links links-IsLinks behind 3 5 100 other_table false start passing 3 refl
      passing-IsPassing.bytes refl
      (unreachable passing-IsPassing.no_echo passing-IsPassing.valid (omega arith) unrouted)

arp_replier-arp_requester_example :
    IsArpReply links reply route.next_hop
    × ((arp_hdr reply).sha ≡ neighbour.mac_of 0)
    × ((eth_hdr reply).ether_dhost ≡ links.mac_of route.interface)
arp_replier-arp_requester_example =
    arp_replier-arp_requester links links-IsLinks route next_hop_fits neighbour neighbour-IsLinks 0
