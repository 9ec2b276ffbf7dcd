-- ===== src/Router/Receive/Wire.antt =====
-- A packet that one router writes to a wire and another reads from it.
use teme_pcom_anul_2_sem.Prelude.{
  ℕ, ◌+◌, ◌-◌, ◌*◌, ◌≡◌, ◌≢◌, ◌≤◌, refl, sym, ap, ap₂, subst, ◌∙◌, Bool, Option, some, List, [],
  ◌∷◌, arith, length, take, drop, take-take, get_or, get_or-take, get_elem?, bytes_at, length-take,
  IsBytes, take-IsBytes,
}
use teme_pcom_anul_2_sem.Router.Route.{RtableEntry}
use teme_pcom_anul_2_sem.Router.Checksum.{ip_checksum}
use teme_pcom_anul_2_sem.Router.Headers.{
  Packet, Links, ethertype_ip, iphdr_of, iphdr_bytes, eth_hdr, ip_hdr,
}
use teme_pcom_anul_2_sem.Router.Headers.Layout.{drop-take}
use teme_pcom_anul_2_sem.Router.Icmp.{header_offset}
use teme_pcom_anul_2_sem.Router.Outcome.{done, best_route}
use teme_pcom_anul_2_sem.Router.Loop.{send, updated, resolved}
use teme_pcom_anul_2_sem.Router.Loop.Frames.{IsFrame, updated-IsFrame, resolved-IsFrame}
use teme_pcom_anul_2_sem.Router.Loop.Forwarding.{
  IsPassing, IsForwarded, step-known, resolved-IsForwarded,
}
use teme_pcom_anul_2_sem.Router.Loop.Hops.{Hop, hop, IsTwiceForwarded, not_echo}
use teme_pcom_anul_2_sem.Router.Receive.{packet_received, get_packet, send_packet}
use teme_pcom_anul_2_sem.Router.Receive.First.{IsFirst, get_packet-first}

send_packet_lem :
    (ports : List ℕ) (out : Packet) (port : ℕ)
    → get_elem? ports out.interface ≡ some port
    → send_packet ports out ≡ some (port, take out.len out.payload)
unfolding send_packet
send_packet_lem ports out port h = rw (send_packet, h) refl

-- Of a frame, send_packet hands as many bytes as its length says to write, for the descriptor of
-- its interface; if read gives these bytes to a router whose first readable interface is i and
-- whose last interface has the greatest descriptor, get_packet returns at its first select,
-- whatever frame the buffer held, with a frame of the same length and the same bytes within it,
-- and i as its interface.
pub get_packet-send_packet :
    (ports interfaces readable : List ℕ) (answers : List (Option (List ℕ))) (out buffer : Packet)
    (port i fd : ℕ)
    → get_elem? ports out.interface ≡ some port
    → IsFirst interfaces readable i fd
    → IsFrame out
    → IsFrame buffer
    → (bytes : List ℕ) × (m : Packet) × (send_packet ports out ≡ some (port, bytes))
      × (get_packet (λ d. some bytes) interfaces (some readable ∷ answers) buffer
          ≡ packet_received m)
      × IsFrame m
      × (m.interface ≡ i)
      × (m.len ≡ out.len)
      × (take out.len m.payload ≡ take out.len out.payload)
get_packet-send_packet ports interfaces readable answers out buffer port i fd plugged h f g =
    let bytes = take out.len out.payload in
    let size : length bytes ≡ out.len =
      omega (arith, length-take out.len out.payload, f.size, f.fits) in
    let got =
      get_packet-first (λ d. some bytes) interfaces readable bytes answers buffer i fd h refl
        (omega (arith, size, f.fits)) (take-IsBytes out.len out.payload f.bytes) g in
    let m = got.0 in
    let len : m.len ≡ out.len =
      omega (arith, length-take m.len m.payload, ap length got.4, got.2.size, got.2.fits, size) in
    (
      bytes,
      m,
      send_packet_lem ports out port plugged,
      got.1,
      got.2,
      got.3,
      len,
      subst (λ k. take k m.payload ≡ bytes) len got.4,
    )

-- Two payloads with the same bytes up to a length.
module _ (p q : List ℕ) (len : ℕ) (same : take len p ≡ take len q) where
  take_same : (n : ℕ) → n ≤ len → take n p ≡ take n q
  take_same n h = sym (take-take n len p h) ∙ ap (take n) same ∙ take-take n len q h

  bytes_at_same : (m n : ℕ) → m + n ≤ len → bytes_at m n p ≡ bytes_at m n q
  bytes_at_same m n h = sym (drop-take m n p) ∙ ap (drop m) (take_same (m + n) h) ∙ drop-take m n q

  get_or_same : (i : ℕ) → i + 1 ≤ len → get_or p i 0 ≡ get_or q i 0
  get_or_same i h =
      sym (get_or-take (i + 1) p i 0 (omega arith))
      ∙ ap (λ r. get_or r i 0) (take_same (i + 1) h)
      ∙ get_or-take (i + 1) q i 0 (omega arith)

-- What one router sends and another reads, on an interface whose address is not the target, is a
-- packet that is passed on in turn.
module _ (links links' : Links) (m out arrived : Packet) (route : RtableEntry) (mac : List ℕ)
    (f : IsForwarded links m route mac out) (frame : IsFrame arrived)
    (same : take out.len arrived.payload ≡ take out.len out.payload) (whole : 34 ≤ m.len) where
  ip_hdr-arrived : ip_hdr arrived ≡ ip_hdr out
  ip_hdr-arrived =
      ap iphdr_of
        (bytes_at_same arrived.payload out.payload out.len same 14 20 (omega (arith, f.len, whole)))

  type_lem : (eth_hdr arrived).ether_type ≡ ethertype_ip
  type_lem =
      ap₂ (λ x y. x * 256 + y)
        (get_or_same arrived.payload out.payload out.len same 12 (omega (arith, f.len, whole)))
        (get_or_same arrived.payload out.payload out.len same 13 (omega (arith, f.len, whole)))
      ∙ ap (λ h. h.ether_type) f.ether

  arrived-IsPassing :
      3 ≤ (ip_hdr m).ttl
      → (ip_hdr m).daddr ≢ links'.ip_of arrived.interface
      → IsPassing links' arrived
  arrived-IsPassing alive away = record {
    full = frame.size;
    bytes = frame.bytes;
    type = type_lem;
    no_echo =
        not_echo links' arrived
          (λ e. away (sym f.daddr ∙ ap (λ h. h.daddr) (sym ip_hdr-arrived) ∙ e));
    valid = ap (λ h. ip_checksum header_offset (iphdr_bytes h)) ip_hdr-arrived ∙ f.check;
    alive = omega (arith, ap (λ h. h.ttl) ip_hdr-arrived, f.ttl, alive);
  }

  -- And what the other sends has passed both.
  twice_lem :
      (route' : RtableEntry) (mac' : List ℕ) (out' : Packet)
      → IsForwarded links' arrived route' mac' out'
      → arrived.len ≡ out.len
      → IsTwiceForwarded links' m route' mac' out'
  twice_lem route' mac' out' g len = record {
    len = g.len ∙ len ∙ f.len;
    interface = g.interface;
    ether = g.ether;
    ttl = omega (arith, g.ttl, ap (λ h. h.ttl) ip_hdr-arrived, f.ttl);
    saddr = g.saddr ∙ ap (λ h. h.saddr) ip_hdr-arrived ∙ f.saddr;
    daddr = g.daddr ∙ ap (λ h. h.daddr) ip_hdr-arrived ∙ f.daddr;
    check = g.check;
    data' =
        ap (take (m.len - 34)) g.data'
        ∙ bytes_at_same arrived.payload out.payload out.len same 34 (m.len - 34)
            (omega (arith, f.len, whole))
        ∙ ap (take (m.len - 34)) f.data';
  }

-- With addresses of the right sizes from both systems, and of bytes from the first, a frame of at
-- least 34 bytes that a router is to pass on, with a TTL of at least 3, a route, a known next hop
-- with a hardware address of six bytes and a descriptor for the interface of the route, is sent
-- once; if what send_packet writes is what read gives a second router, for which the interface is
-- the first that is readable, the last interface has the greatest descriptor and the address of
-- the interface is not the target, get_packet receives it over any frame in the buffer, and the
-- second router, if it has a route to the target and knows the next hop there, sends it once more,
-- on the interface of the second route, from that interface to the next hop there, with its
-- length, the TTL two less than at the first, a checksum that holds, the same addresses and the
-- same bytes behind the header; nothing else of the two routers changes.
pub hop-get_packet-hop :
    (m buffer : Packet) (a b : Hop (ip_hdr m).daddr) (first second : Bool)
    (ports interfaces readable : List ℕ) (answers : List (Option (List ℕ))) (port i fd : ℕ)
    → IsPassing a.links m
    → IsFrame m
    → IsFrame buffer
    → ((i : ℕ) → IsBytes (a.links.mac_of i))
    → 3 ≤ (ip_hdr m).ttl
    → 34 ≤ m.len
    → get_elem? ports a.route.interface ≡ some port
    → IsFirst interfaces readable i fd
    → (ip_hdr m).daddr ≢ b.links.ip_of i
    → (out arrived out' : Packet) × (bytes : List ℕ) × (hop a first m
        ≡ done (send (out ∷ []) a.state))
      × (send_packet ports out ≡ some (port, bytes))
      × (get_packet (λ d. some bytes) interfaces (some readable ∷ answers) buffer
          ≡ packet_received arrived)
      × (hop b second arrived ≡ done (send (out' ∷ []) b.state))
      × IsTwiceForwarded b.links m b.route b.existing.mac out'
hop-get_packet-hop m buffer a b first second ports interfaces readable answers port i fd w frame
      ready macs alive whole plugged h away =
    let out = resolved a.links (updated m) a.route a.existing in
    let f = resolved-IsForwarded a.links a.sizes m w a.route a.existing a.mac.six in
    let sent =
      resolved-IsFrame a.links a.sizes macs (updated m) a.route a.existing (updated-IsFrame m frame)
        a.mac in
    let read =
      get_packet-send_packet ports interfaces readable answers out buffer port i fd plugged h sent
        ready in
    let arrived = read.1 in
    let away' : (ip_hdr m).daddr ≢ b.links.ip_of arrived.interface =
      subst (λ k. (ip_hdr m).daddr ≢ b.links.ip_of k) (sym read.5) away in
    let w' =
      arrived-IsPassing a.links b.links m out arrived a.route a.existing.mac f read.4 read.7 whole
        alive away' in
    let out' = resolved b.links (updated arrived) b.route b.existing in
    let g = resolved-IsForwarded b.links b.sizes arrived w' b.route b.existing b.mac.six in
    let ip =
      ip_hdr-arrived a.links b.links m out arrived a.route a.existing.mac f read.4 read.7 whole in
    let routed : best_route b.rounds b.rtable (ip_hdr arrived).daddr ≡ done (some b.route) =
      ap (λ h. best_route b.rounds b.rtable h.daddr) ip
      ∙ ap (best_route b.rounds b.rtable) f.daddr
      ∙ b.routed in
    (
      out,
      arrived,
      out',
      read.0,
      step-known a.links a.sizes a.malloc a.rounds a.fuel a.saved a.rtable m w a.route a.routed
          first a.state a.existing a.known,
      read.2,
      read.3,
      step-known b.links b.sizes b.malloc b.rounds b.fuel b.saved b.rtable arrived w' b.route routed
          second b.state b.existing b.known,
      twice_lem a.links b.links m out arrived a.route a.existing.mac f read.4 read.7 whole b.route
          b.existing.mac out' g read.6,
    )
