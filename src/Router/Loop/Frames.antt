-- ===== src/Router/Loop/Frames.antt =====
-- The packets that Tema-1-PCom receives and sends: what stands in their buffers.
use teme_pcom_anul_2_sem.Prelude.{
  ℕ, ◌+◌, ◌≡◌, ◌≤◌, ◌<◌, refl, ap, ◌∙◌, List, ◌∷◌, ◌++◌, arith, length, drop, replicate,
  length-append, length-take, length-drop, length-replicate, bytes_at, IsBytes, take-IsBytes,
  drop-IsBytes, replicate-IsBytes, append-IsBytes, be_bytes-IsBytes, le_bytes-IsBytes,
  write_at-IsBytes, length-write_at, bytes_at-write_at, be_bytes, le_bytes, All,
}
use teme_pcom_anul_2_sem.Router.Route.{RtableEntry}
use teme_pcom_anul_2_sem.Router.Headers.{
  Packet, Links, max_len, blank, ether_header_bytes, eth_hdr_setter, ethertype_ip, ethertype_arp,
  Iphdr, iphdr_of, iphdr_bytes, Icmphdr, icmphdr_bytes, arp_header_bytes, ip_hdr, arp_hdr, put,
}
use teme_pcom_anul_2_sem.Router.Headers.Layout.{IsIphdr, iphdr_of-IsIphdr, iphdr_of-iphdr_bytes}
use teme_pcom_anul_2_sem.Router.Headers.Packets.{length-arp_header_bytes}
use teme_pcom_anul_2_sem.Router.Icmp.{
  send_icmp, icmp_handler, is_garbage, incremental_checksum, icmp_hdr_setter, ip_hdr_setter,
  icmp_echoreply, icmp_time_exceeded,
}
use teme_pcom_anul_2_sem.Router.Icmp.Headers.{
  iphdr_bytes-IsBytes, incremental_checksum-IsIphdr, ip_hdr_setter-valid,
}
use teme_pcom_anul_2_sem.Router.Icmp.Replies.{IsLinks}
use teme_pcom_anul_2_sem.Router.Arp.{
  ArpEntry, arpop_request, arpop_reply, arp_requester, arp_replier, arp_hdr_setter,
}
use teme_pcom_anul_2_sem.Router.Loop.{updated, resolved}

-- The payload has the size of its array and consists of bytes, and the length does not point
-- behind it.
pub record IsFrame (m : Packet) : Type 0 where
  pub size : length m.payload ≡ max_len
  pub bytes : IsBytes m.payload
  pub fits : m.len ≤ max_len

pub record IsMac (mac : List ℕ) : Type 0 where
  pub six : length mac ≡ 6
  pub bytes : IsBytes mac

pub put-IsFrame :
    (m : Packet) (i : ℕ) (bs : List ℕ)
    → IsFrame m
    → IsBytes bs
    → i + length bs ≤ max_len
    → IsFrame (put m i bs)
put-IsFrame m i bs f w h = record {
  size = length-write_at i bs m.payload (omega (arith, h, f.size)) ∙ f.size;
  bytes = write_at-IsBytes i bs m.payload w f.bytes;
  fits = f.fits;
}

blank-IsFrame : (len interface : ℕ) → len ≤ max_len → IsFrame (blank len interface)
blank-IsFrame len interface h = record {
  size = length-replicate {A = ℕ} max_len 0;
  bytes = replicate-IsBytes max_len;
  fits = h;
}

bytes_at-IsMac : (i : ℕ) (p : List ℕ) → IsBytes p → i + 6 ≤ length p → IsMac (bytes_at i 6 p)
bytes_at-IsMac i p w h = record {
  six = omega (arith, length-take 6 (drop i p), length-drop i p, h);
  bytes = take-IsBytes 6 (drop i p) (drop-IsBytes i p w);
}

pub sha-IsMac : (m : Packet) → IsFrame m → IsMac (arp_hdr m).sha
sha-IsMac m f =
    bytes_at-IsMac 8 (bytes_at 14 28 m.payload)
      (take-IsBytes 28 (drop 14 m.payload) (drop-IsBytes 14 m.payload f.bytes))
      (omega (arith, length-take 28 (drop 14 m.payload), length-drop 14 m.payload, f.size))

-- Two hardware addresses and a type.
module _ (dest source : List ℕ) (type : ℕ) (d : IsMac dest) (s : IsMac source) where
  length-ether : length (ether_header_bytes (eth_hdr_setter dest source type)) ≡ 14
  length-ether = omega (
    arith,
    length-append dest (source ++ be_bytes type),
    length-append source (be_bytes type),
    d.six,
    s.six,
  )

  pub put_ether-IsFrame :
      (m : Packet)
      → IsFrame m
      → IsFrame (put m 0 (ether_header_bytes (eth_hdr_setter dest source type)))
  put_ether-IsFrame m f =
      put-IsFrame m 0 (ether_header_bytes (eth_hdr_setter dest source type)) f
        (append-IsBytes dest (source ++ be_bytes type) d.bytes
          (append-IsBytes source (be_bytes type) s.bytes (be_bytes-IsBytes type)))
        (omega (arith, length-ether))

be_bytes_then : (n : ℕ) (bs : List ℕ) → IsBytes bs → IsBytes (be_bytes n ++ bs)
be_bytes_then n bs w = append-IsBytes (be_bytes n) bs (be_bytes-IsBytes n) w

put_arp-IsFrame :
    (m : Packet) (op spa tpa : ℕ) (sha tha : List ℕ)
    → IsFrame m
    → IsMac sha
    → IsMac tha
    → IsFrame (put m 14 (arp_header_bytes (arp_hdr_setter op tha tpa sha spa)))
put_arp-IsFrame m op spa tpa sha tha f s t =
    let h = arp_hdr_setter op tha tpa sha spa in
    let end = tha ++ le_bytes 4 tpa in
    let macs = sha ++ (le_bytes 4 spa ++ end) in
    let end-IsBytes = append-IsBytes tha (le_bytes 4 tpa) t.bytes (le_bytes-IsBytes 4 tpa) in
    let macs-IsBytes =
      append-IsBytes sha (le_bytes 4 spa ++ end) s.bytes
        (append-IsBytes (le_bytes 4 spa) end (le_bytes-IsBytes 4 spa) end-IsBytes) in
    let sizes = h.hlen ∷ h.plen ∷ be_bytes op ++ macs in
    let sizes-IsBytes : IsBytes sizes =
      (omega arith, (omega arith, be_bytes_then op macs macs-IsBytes)) in
    put-IsFrame m 14 (arp_header_bytes h) f
      (be_bytes_then h.htype (be_bytes h.ptype ++ sizes)
        (be_bytes_then h.ptype sizes sizes-IsBytes))
      (omega (arith, length-arp_header_bytes h s.six t.six))

put_ip-IsFrame :
    (m : Packet) (h : Iphdr) → IsFrame m → IsIphdr h → IsFrame (put m 14 (iphdr_bytes h))
put_ip-IsFrame m h f w = put-IsFrame m 14 (iphdr_bytes h) f (iphdr_bytes-IsBytes h w) (omega arith)

put_icmp-IsFrame :
    (m : Packet) (h : Icmphdr)
    → IsFrame m
    → h.type < 256
    → h.code < 256
    → IsFrame (put m 34 (icmphdr_bytes h))
put_icmp-IsFrame m h f t c =
    let end = be_bytes_then h.id (be_bytes h.sequence) (be_bytes-IsBytes h.sequence) in
    let b = be_bytes_then h.checksum (be_bytes h.id ++ be_bytes h.sequence) end in
    let all : IsBytes (icmphdr_bytes h) = (t, (c, b)) in
    put-IsFrame m 34 (icmphdr_bytes h) f all (omega arith)

pub frame-IsIphdr : (m : Packet) → IsFrame m → IsIphdr (ip_hdr m)
frame-IsIphdr m f =
    iphdr_of-IsIphdr (bytes_at 14 20 m.payload)
      (take-IsBytes 20 (drop 14 m.payload) (drop-IsBytes 14 m.payload f.bytes))

pub updated-IsFrame : (m : Packet) → IsFrame m → IsFrame (updated m)
updated-IsFrame m f =
    put_ip-IsFrame m (incremental_checksum (ip_hdr m)) f
      (incremental_checksum-IsIphdr (ip_hdr m) (frame-IsIphdr m f))

pub daddr-updated : (m : Packet) → IsFrame m → (ip_hdr (updated m)).daddr ≡ (ip_hdr m).daddr
unfolding incremental_checksum
daddr-updated m f =
    let h = incremental_checksum (ip_hdr m) in
    ap (λ b. (iphdr_of b).daddr)
      (bytes_at-write_at 14 (iphdr_bytes h) m.payload (omega (arith, f.size)))
    ∙ ap (λ k. k.daddr)
        (iphdr_of-iphdr_bytes h (incremental_checksum-IsIphdr (ip_hdr m) (frame-IsIphdr m f)))

module _ (links : Links) (ws : IsLinks links) (macs : (i : ℕ) → IsBytes (links.mac_of i)) where
  own-IsMac : (i : ℕ) → IsMac (links.mac_of i)
  own-IsMac i = record { six = ws.mac_of i; bytes = macs i }

  pub resolved-IsFrame :
      (m : Packet) (route : RtableEntry) (e : ArpEntry)
      → IsFrame m
      → IsMac e.mac
      → IsFrame (resolved links m route e)
  resolved-IsFrame m route e f w =
      let g =
        put_ether-IsFrame e.mac (links.mac_of route.interface) ethertype_ip w
          (own-IsMac route.interface) m f in
      record { size = g.size; bytes = g.bytes; fits = g.fits }

  pub addressed-IsFrame :
      (m : Packet) (interface : ℕ) (mac : List ℕ)
      → IsFrame m
      → IsMac mac
      → IsFrame (put m 0 (mac ++ links.mac_of interface))
  addressed-IsFrame m interface mac f w =
      put-IsFrame m 0 (mac ++ links.mac_of interface) f
        (append-IsBytes mac (links.mac_of interface) w.bytes (macs interface))
        (omega (arith, length-append mac (links.mac_of interface), w.six, ws.mac_of interface))

  pub arp_requester-IsFrame : (route : RtableEntry) → IsFrame (arp_requester links route)
  unfolding arp_requester
  arp_requester-IsFrame route =
      let own = own-IsMac route.interface in
      let everyone : IsMac (replicate 6 0xff) = record { six = refl; bytes = ground arith } in
      let nobody : IsMac (replicate 6 0) = record { six = refl; bytes = replicate-IsBytes 6 } in
      put_arp-IsFrame _ arpop_request (links.ip_of route.interface) route.next_hop _ _
        (put_ether-IsFrame _ _ ethertype_arp everyone own _
          (blank-IsFrame 42 route.interface (omega arith)))
        own nobody

  pub arp_replier-IsFrame : (m : Packet) → IsFrame m → IsFrame (arp_replier links m)
  unfolding arp_replier
  arp_replier-IsFrame m f =
      let own = own-IsMac m.interface in
      let asker = sha-IsMac m f in
      let arp = arp_hdr m in
      put_arp-IsFrame _ arpop_reply arp.tpa arp.spa _ _
        (put_ether-IsFrame _ _ ethertype_arp asker own _
          (blank-IsFrame 42 m.interface (omega arith)))
        own asker

  pub send_icmp-IsFrame :
      (m : Packet) (type : ℕ) → type < 256 → IsFrame m → IsFrame (send_icmp links m type)
  unfolding send_icmp icmp_hdr_setter
  send_icmp-IsFrame m type t f =
      let sender = bytes_at-IsMac 6 m.payload f.bytes (omega (arith, f.size)) in
      let ip = ip_hdr_setter (ip_hdr m) (links.ip_of m.interface) in
      put_icmp-IsFrame _ _
        (put_ip-IsFrame _ ip
          (put_ether-IsFrame _ _ ethertype_ip sender (own-IsMac m.interface) _
            (blank-IsFrame 42 m.interface (omega arith)))
          (ip_hdr_setter-valid (ip_hdr m) (links.ip_of m.interface) (frame-IsIphdr m f)
            (ws.ip_of m.interface)).0)
        t (omega arith)

  pub icmp_handler-IsFrame : (m : Packet) → IsFrame m → All IsFrame (icmp_handler links m).1
  unfolding icmp_handler
  icmp_handler-IsFrame m f = ground (arith, send_icmp-IsFrame m icmp_echoreply (omega arith) f)

  pub is_garbage-IsFrame : (m : Packet) → IsFrame m → All IsFrame (is_garbage links m).1
  unfolding is_garbage
  is_garbage-IsFrame m f = ground (arith, send_icmp-IsFrame m icmp_time_exceeded (omega arith) f)
