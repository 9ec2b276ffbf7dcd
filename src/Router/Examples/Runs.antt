-- ===== src/Router/Examples/Runs.antt =====
-- The loop of the router over several packets, and two routers one after the other.
use teme_pcom_anul_2_sem.Prelude.{
  ℕ, ◌-◌, ◌^◌, ◌≡◌, refl, Bool, true, false, List, Option, [], ◌∷◌, replicate, take, arith, some,
  none, IsBytes, inl, inr, take-IsBytes, length-take, write_at,
}
use teme_pcom_anul_2_sem.Router.Route.{RtableEntry, get_best_route}
use teme_pcom_anul_2_sem.Router.Headers.{Packet, ip_hdr}
use teme_pcom_anul_2_sem.Router.Queue.Fresh.{behind, behind-unused}
use teme_pcom_anul_2_sem.Router.Outcome.{done, fault, best_route, Ends, Whenever-all}
use teme_pcom_anul_2_sem.Router.Arp.{arp_requester, arp_replier}
use teme_pcom_anul_2_sem.Router.Arp.Exchange.{arp_replier-arp_requester}
use teme_pcom_anul_2_sem.Router.Loop.{Router, start, send, step}
use teme_pcom_anul_2_sem.Router.Loop.Frames.{IsFrame, IsMac}
use teme_pcom_anul_2_sem.Router.Loop.Sound.{IsSound, IsReceived}
use teme_pcom_anul_2_sem.Router.Loop.Rounds.{Disturbs}
use teme_pcom_anul_2_sem.Router.Loop.Outgoing.{IsOutgoing, IsWired}
use teme_pcom_anul_2_sem.Router.Main.Writing.{Survives, round-IsSound}
use teme_pcom_anul_2_sem.Router.Main.Received.{GivesBytes}
use teme_pcom_anul_2_sem.Router.Loop.Moved.{step-dangles}
use teme_pcom_anul_2_sem.Router.Loop.Hops.{Hop, hop, IsTwiceForwarded}
use teme_pcom_anul_2_sem.Router.Main.{Round, main_loop, m_after, round}
use teme_pcom_anul_2_sem.Router.Main.Soundness.{
  Arrivals, IsAnswered, IsDisturbed, StaysSound, start-IsSound, main_loop-IsSound,
}
use teme_pcom_anul_2_sem.Router.Receive.{packet_received, get_packet, send_packet}
use teme_pcom_anul_2_sem.Router.Receive.First.{IsFirst}
use teme_pcom_anul_2_sem.Router.Receive.Wire.{get_packet-send_packet, hop-get_packet-hop}
use teme_pcom_anul_2_sem.Router.Examples.{
  links, links-IsLinks, neighbour, neighbour-IsLinks, all_bytes-IsBytes, passing, passing-IsPassing,
  later, route, other_route, table, routed, next_hop_fits, reply, known_hop, resolved_start,
}

links-IsBytes : (i : ℕ) → IsBytes (links.mac_of i)
links-IsBytes i = all_bytes-IsBytes (links.mac_of i) refl

passing-IsFrame : IsFrame passing
passing-IsFrame = record { size = refl; bytes = passing-IsPassing.bytes; fits = omega arith }

passing-IsOutgoing : IsOutgoing passing
passing-IsOutgoing = record { frame = passing-IsFrame; inside = omega arith }

passing-IsReceived : IsReceived 3 table passing
passing-IsReceived = record { outgoing = passing-IsOutgoing; searched = λ ip. (some route, routed) }

later-IsFrame : IsFrame later
later-IsFrame = record { size = refl; bytes = passing-IsPassing.bytes; fits = omega arith }

reply-IsFrame : IsFrame reply
unfolding arp_replier arp_requester
reply-IsFrame = record {
  size = refl;
  bytes = all_bytes-IsBytes reply.payload refl;
  fits = omega arith;
}

table-IsWired : IsWired table
table-IsWired = (omega arith, (omega arith, tt))

-- A round in which the first interface has the first bytes of a packet.
abbrev arriving : Packet → Bool → Round
arriving m moves = record {
  answers = some [] ∷ some (3 ∷ []) ∷ [];
  read = λ fd. some (take m.len m.payload);
  moves = moves;
  write = λ fd bytes. true;
}

abbrev last_round : Round
last_round = record {
  answers = none ∷ [];
  read = λ fd. none;
  moves = false;
  write = λ fd bytes. false;
}

-- A packet, the ARP reply for its next hop, and a `select` that fails.
abbrev three_rounds : List Round
three_rounds = arriving passing false ∷ arriving reply true ∷ last_round ∷ []

arriving-GivesBytes : (m : Packet) (moves : Bool) → IsFrame m → GivesBytes (arriving m moves).read
arriving-GivesBytes m moves f fd bytes e =
    ground (arith, take-IsBytes m.len m.payload f.bytes, length-take m.len m.payload, f.fits, e)

three_rounds-Arrivals : Arrivals 0 three_rounds
three_rounds-Arrivals = (
  inl refl,
  arriving-GivesBytes passing false passing-IsFrame,
  (
    inr (omega arith),
    arriving-GivesBytes reply true reply-IsFrame,
    (inl refl, (λ fd bytes e. ground (arith, e)), tt),
  ),
)

Survives-all : (P : Router → Type 0) → ((s : Router) → P s) → (o : Option Router) → Survives P o
Survives-all P h none = tt
Survives-all P h (some s) = h s

-- What the first round receives, over a frame of 60 bytes.
abbrev first_received : Packet
first_received = record later {
  len = 34;
  payload = write_at 0 (take 34 passing.payload) later.payload;
  interface = 0;
}

abbrev IsAnsweredAfter : Router → Type 0
IsAnsweredAfter =
    IsAnswered links behind 3 5 100 table (3 ∷ 4 ∷ 5 ∷ []) (arriving reply true ∷ last_round ∷ [])
      (m_after links behind 3 5 100 table first_received start)

IsAnsweredAfter_lem : (s : Router) → IsAnsweredAfter s
unfolding round get_packet get_best_route m_after arp_replier arp_requester
IsAnsweredAfter_lem s = (
  (λ ip. (none, refl)),
  Whenever-all (Survives (λ t. Unit)) _ (Survives-all (λ t. Unit) (λ t. tt)),
)

three_rounds-IsAnswered :
    IsAnswered links behind 3 5 100 table (3 ∷ 4 ∷ 5 ∷ []) three_rounds later start
unfolding get_packet get_best_route
three_rounds-IsAnswered = (
  (λ ip. (some route, refl)),
  Whenever-all (Survives IsAnsweredAfter) _ (Survives-all IsAnsweredAfter IsAnsweredAfter_lem),
)

round-IsSound_example :
    Ends
      (Disturbs passing start)
      (Survives (IsSound 3 table 100 1))
      (round links behind 3 5 100 table (3 ∷ 4 ∷ 5 ∷ []) (arriving passing true) passing start)
round-IsSound_example =
    round-IsSound links links-IsLinks links-IsBytes behind behind-unused 3 5 100 table
      (3 ∷ 4 ∷ 5 ∷ []) 0 (arriving passing true) passing start refl (start-IsSound 3 100 table)
      passing-IsReceived table-IsWired (inr (omega arith)) (omega arith)

main_loop-IsSound_example :
    Ends
      (IsDisturbed links behind 3 5 100 table (3 ∷ 4 ∷ 5 ∷ []) three_rounds later start)
      (StaysSound 3 table 100)
      (main_loop links behind 3 5 100 table (3 ∷ 4 ∷ 5 ∷ []) three_rounds later start)
main_loop-IsSound_example =
    main_loop-IsSound links links-IsLinks links-IsBytes behind behind-unused 3 5 100 table
      (omega arith) (3 ∷ 4 ∷ 5 ∷ []) refl table-IsWired three_rounds later later-IsFrame
      three_rounds-Arrivals three_rounds-IsAnswered

-- A table in which there is no room.
abbrev full_start : Router
full_start = record start {
  arp_table = record { entries = replicate 20 known_hop; arp_max_len = 20; live = true };
}

step-dangles_example :
    (s1 : Router) × (step links behind 3 5 100 table true reply full_start ≡ done s1)
    × ((moves : Bool) → step links behind 3 5 100 table moves passing s1 ≡ fault)
step-dangles_example =
    step-dangles links links-IsLinks behind 3 5 100 table full_start reply route.next_hop refl refl
      refl (omega arith)
      (arp_replier-arp_requester links links-IsLinks route next_hop_fits neighbour neighbour-IsLinks
        0).0
      passing route passing-IsPassing routed

known_hop-IsMac : IsMac known_hop.mac
known_hop-IsMac = record { six = refl; bytes = all_bytes-IsBytes known_hop.mac refl }

abbrev first_hop : Hop (ip_hdr passing).daddr
first_hop = record {
  links = links;
  sizes = links-IsLinks;
  malloc = behind;
  rounds = 3;
  fuel = 5;
  saved = 100;
  rtable = table;
  state = resolved_start;
  route = route;
  existing = known_hop;
  routed = routed;
  known = refl;
  mac = known_hop-IsMac;
}

-- The second router has another route for the packet.
abbrev other_table : List RtableEntry
other_table =
    record { prefix = 2 ^ 32 - 1; next_hop = 1; mask = 2 ^ 32 - 1; interface = 0 }
    ∷ other_route
    ∷ []

other_routed : best_route 3 other_table (ip_hdr passing).daddr ≡ done (some other_route)
unfolding get_best_route
other_routed = refl

abbrev second_hop : Hop (ip_hdr passing).daddr
second_hop = record {
  links = neighbour;
  sizes = neighbour-IsLinks;
  malloc = behind;
  rounds = 3;
  fuel = 5;
  saved = 100;
  rtable = other_table;
  state = record start {
    arp_table = record {
      entries = record { ip = 5; mac = known_hop.mac } ∷ [];
      arp_max_len = 20;
      live = true;
    };
  };
  route = other_route;
  existing = record { ip = 5; mac = known_hop.mac };
  routed = other_routed;
  known = refl;
  mac = known_hop-IsMac;
}

-- The second interface of three is the first that is readable.
second-IsFirst : IsFirst (3 ∷ 4 ∷ 5 ∷ []) (5 ∷ 4 ∷ []) 1 4
second-IsFirst = record { interface = refl; below = omega arith; loud = refl; quiet = (refl, tt) }

get_packet-send_packet_example :
    (bytes : List ℕ) × (m : Packet) × (send_packet (8 ∷ []) passing ≡ some (8, bytes))
    × (get_packet (λ d. some bytes) (3 ∷ 4 ∷ 5 ∷ []) (some (5 ∷ 4 ∷ []) ∷ []) later
        ≡ packet_received m)
    × IsFrame m
    × (m.interface ≡ 1)
    × (m.len ≡ 34)
    × (take 34 m.payload ≡ take 34 passing.payload)
get_packet-send_packet_example =
    get_packet-send_packet (8 ∷ []) (3 ∷ 4 ∷ 5 ∷ []) (5 ∷ 4 ∷ []) [] passing later 8 1 4 refl
      second-IsFirst passing-IsFrame later-IsFrame

hop-get_packet-hop_example :
    (out arrived out' : Packet) × (bytes : List ℕ) × (hop first_hop false passing
      ≡ done (send (out ∷ []) resolved_start))
    × (send_packet (8 ∷ 9 ∷ []) out ≡ some (9, bytes))
    × (get_packet (λ d. some bytes) (3 ∷ 4 ∷ 5 ∷ []) (some (5 ∷ 4 ∷ []) ∷ []) later
        ≡ packet_received arrived)
    × (hop second_hop false arrived ≡ done (send (out' ∷ []) second_hop.state))
    × IsTwiceForwarded neighbour passing other_route known_hop.mac out'
hop-get_packet-hop_example =
    hop-get_packet-hop passing later first_hop second_hop false false (8 ∷ 9 ∷ []) (3 ∷ 4 ∷ 5 ∷ [])
      (5 ∷ 4 ∷ []) [] 9 1 4 passing-IsPassing passing-IsFrame later-IsFrame links-IsBytes
      (omega arith) (omega arith) refl second-IsFirst (omega arith)
