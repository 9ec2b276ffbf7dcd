-- ===== src/Router/Icmp/Replies.antt =====
-- The replies of ip_icmp.c, as the host that receives them reads them.
use teme_pcom_anul_2_sem.Prelude.{
  ℕ, ◌^◌, ◌≡◌, ◌<◌, refl, sym, ap, ◌∙◌, List, ◌++◌, arith, length, drop, replicate, bytes_at,
  length-append, take-IsBytes, drop-IsBytes, replicate-IsBytes, length-take, length-drop, IsBytes,
  bytes_at-append, append_assoc, subst,
}
use teme_pcom_anul_2_sem.Router.Checksum.{ip_checksum}
use teme_pcom_anul_2_sem.Router.Headers.{
  Packet, Links, max_len, blank, EtherHeader, Iphdr, Icmphdr, ethertype_ip, ether_header_of,
  iphdr_of, ether_header_bytes, eth_hdr_setter, iphdr_bytes, icmphdr_of, icmphdr_bytes, eth_hdr,
  ip_hdr, icmp_hdr, put,
}
use teme_pcom_anul_2_sem.Router.Headers.Layout.{IsIphdr, iphdr_of-IsIphdr, iphdr_of-iphdr_bytes}
use teme_pcom_anul_2_sem.Router.Headers.Packets.{
  IsEtherHeader, length-ether_header_bytes, ether_header_of-append, icmphdr_of-icmphdr_bytes,
  bytes_at-replicate, three_lem, behind_lem,
}
use teme_pcom_anul_2_sem.Router.Icmp.{
  header_offset, ipproto_icmp, icmp_echoreply, ip_hdr_setter, icmp_hdr_setter, send_icmp,
}
use teme_pcom_anul_2_sem.Router.Icmp.Headers.{ip_hdr_setter-valid}
use teme_pcom_anul_2_sem.Router.Icmp.Echo.{
  icmp_short_lem, IsIcmphdr, icmphdr_of-IsIcmphdr, icmp_hdr_setter-valid,
}

-- The addresses that the system gives have their sizes.
pub record IsLinks (links : Links) : Type 0 where
  pub mac_of : (interface : ℕ) → length (links.mac_of interface) ≡ 6
  pub ip_of : (interface : ℕ) → links.ip_of interface < 2 ^ 32

-- What the host that receives a reply finds in it: it is addressed to the sender of the request,
-- it comes from the router, and its checksums hold.
pub record IsReply (links : Links) (req : Packet) (icmp_type : ℕ) (reply : Packet) : Type 0 where
  len : reply.len ≡ 42
  interface : reply.interface ≡ req.interface
  ether_dhost : (eth_hdr reply).ether_dhost ≡ (eth_hdr req).ether_shost
  ether_shost : (eth_hdr reply).ether_shost ≡ links.mac_of req.interface
  ether_type : (eth_hdr reply).ether_type ≡ ethertype_ip
  daddr : (ip_hdr reply).daddr ≡ (ip_hdr req).saddr
  saddr : (ip_hdr reply).saddr ≡ links.ip_of req.interface
  ttl : (ip_hdr reply).ttl ≡ (ip_hdr req).ttl
  protocol : (ip_hdr reply).protocol ≡ ipproto_icmp
  check : ip_checksum header_offset (iphdr_bytes (ip_hdr reply)) ≡ 0
  type : (icmp_hdr reply).type ≡ icmp_type
  checksum : ip_checksum header_offset (bytes_at 34 8 reply.payload) ≡ 0
  echo :
      icmp_type ≡ icmp_echoreply
      → ((icmp_hdr reply).id ≡ (icmp_hdr req).id)
        × ((icmp_hdr reply).sequence ≡ (icmp_hdr req).sequence)

module _ (links : Links) (ws : IsLinks links) (req : Packet) (full : length req.payload ≡ max_len)
    (w : IsBytes req.payload) (icmp_type : ℕ) (t : icmp_type < 256) where
  abbrev ether : EtherHeader
  ether = eth_hdr_setter (eth_hdr req).ether_shost (links.mac_of req.interface) ethertype_ip

  abbrev ip : Iphdr
  ip = ip_hdr_setter (ip_hdr req) (links.ip_of req.interface)

  abbrev with_ip : Packet
  with_ip = put (put (blank 42 req.interface) 0 (ether_header_bytes ether)) 14 (iphdr_bytes ip)

  abbrev icmp : Icmphdr
  icmp =
      icmp_hdr_setter (icmp_hdr with_ip) (icmp_hdr req) icmp_type (bytes_at 42 20 with_ip.payload)

  send_icmp_lem : send_icmp links req icmp_type ≡ put with_ip 34 (icmphdr_bytes icmp)
  unfolding send_icmp
  send_icmp_lem = refl

  ether-IsEtherHeader : IsEtherHeader ether
  ether-IsEtherHeader = record {
    ether_dhost =
        omega (arith, length-take 6 (drop 6 req.payload), length-drop 6 req.payload, full);
    ether_shost = ws.mac_of req.interface;
    ether_type = omega arith;
  }

  length-ether : length (ether_header_bytes ether) ≡ 14
  length-ether = length-ether_header_bytes ether ether-IsEtherHeader

  req-IsIphdr : IsIphdr (ip_hdr req)
  req-IsIphdr =
      iphdr_of-IsIphdr (bytes_at 14 20 req.payload)
        (take-IsBytes 20 (drop 14 req.payload) (drop-IsBytes 14 req.payload w))

  ip-valid : IsIphdr ip × (ip_checksum header_offset (iphdr_bytes ip) ≡ 0)
  ip-valid =
      ip_hdr_setter-valid (ip_hdr req) (links.ip_of req.interface) req-IsIphdr
        (ws.ip_of req.interface)

  behind-zero : bytes_at 42 20 with_ip.payload ≡ replicate 20 0
  behind-zero =
      behind_lem (blank 42 req.interface) (ether_header_bytes ether) (iphdr_bytes ip) length-ether
        refl 8 20
      ∙ bytes_at-replicate 42 20 max_len 0 (omega arith)

  field-zero : bytes_at 34 8 with_ip.payload ≡ replicate 8 0
  field-zero =
      behind_lem (blank 42 req.interface) (ether_header_bytes ether) (iphdr_bytes ip) length-ether
        refl 0 8
      ∙ bytes_at-replicate 34 8 max_len 0 (omega arith)

  icmp-valid :
      IsIcmphdr icmp
      × (ip_checksum header_offset (icmphdr_bytes icmp ++ bytes_at 42 20 with_ip.payload) ≡ 0)
  icmp-valid =
      let zeros : IsBytes (bytes_at 42 20 with_ip.payload) =
        subst IsBytes (sym behind-zero) (replicate-IsBytes 20) in
      icmp_hdr_setter-valid (bytes_at 42 20 with_ip.payload) zeros
        (omega (arith, ap length behind-zero)) (icmp_hdr with_ip) (icmp_hdr req) icmp_type
        (icmphdr_of-IsIcmphdr (bytes_at 34 8 with_ip.payload)
          (subst IsBytes (sym field-zero) (replicate-IsBytes 8)))
        (icmphdr_of-IsIcmphdr (bytes_at 34 8 req.payload)
          (take-IsBytes 8 (drop 34 req.payload) (drop-IsBytes 34 req.payload w)))
        t

  abbrev rest : List ℕ
  rest = drop 8 (drop 34 (replicate max_len 0))

  payload_lem :
      (put with_ip 34 (icmphdr_bytes icmp)).payload
      ≡ ether_header_bytes ether ++ (iphdr_bytes ip ++ (icmphdr_bytes icmp ++ rest))
  payload_lem =
      three_lem (blank 42 req.interface) (ether_header_bytes ether) (iphdr_bytes ip) length-ether
        refl (icmphdr_bytes icmp)

  abbrev reply : Packet
  reply = put with_ip 34 (icmphdr_bytes icmp)

  ether_lem : eth_hdr reply ≡ ether
  ether_lem =
      ap ether_header_of payload_lem
      ∙ ether_header_of-append ether (iphdr_bytes ip ++ (icmphdr_bytes icmp ++ rest))
          ether-IsEtherHeader

  ip_lem : ip_hdr reply ≡ ip
  ip_lem =
      ap (λ p. iphdr_of (bytes_at 14 20 p)) payload_lem
      ∙ ap iphdr_of (
          bytes_at-append (ether_header_bytes ether) 14 length-ether (iphdr_bytes ip)
            (icmphdr_bytes icmp ++ rest) 20 refl)
      ∙ iphdr_of-iphdr_bytes ip ip-valid.0

  icmp_bytes_lem : bytes_at 34 8 reply.payload ≡ icmphdr_bytes icmp
  icmp_bytes_lem =
      ap (bytes_at 34 8) (
        payload_lem
        ∙ sym
            (append_assoc (ether_header_bytes ether) (iphdr_bytes ip) (icmphdr_bytes icmp ++ rest)))
      ∙ bytes_at-append (ether_header_bytes ether ++ iphdr_bytes ip) 34
          (omega (arith, length-append (ether_header_bytes ether) (iphdr_bytes ip), length-ether))
          (icmphdr_bytes icmp) rest 8 refl

  icmp_lem : icmp_hdr reply ≡ icmp
  icmp_lem =
      ap icmphdr_of icmp_bytes_lem
      ∙ icmphdr_of-icmphdr_bytes icmp icmp-valid.0.checksum icmp-valid.0.id icmp-valid.0.sequence

  type_lem : icmp.type ≡ icmp_type
  unfolding icmp_hdr_setter
  type_lem = refl

  echo_lem :
      icmp_type ≡ icmp_echoreply
      → (icmp.id ≡ (icmp_hdr req).id) × (icmp.sequence ≡ (icmp_hdr req).sequence)
  unfolding icmp_hdr_setter
  echo_lem e = rw e (refl, refl)

  checksum_lem : ip_checksum header_offset (bytes_at 34 8 reply.payload) ≡ 0
  checksum_lem =
      ap (ip_checksum header_offset) icmp_bytes_lem
      ∙ icmp_short_lem icmp icmp-valid.0 (
          subst (λ z. ip_checksum header_offset (icmphdr_bytes icmp ++ z) ≡ 0) behind-zero
            icmp-valid.1)

  reply-IsReply : IsReply links req icmp_type reply
  unfolding ip_hdr_setter
  reply-IsReply = record {
    len = refl;
    interface = refl;
    ether_dhost = ap (λ h. h.ether_dhost) ether_lem;
    ether_shost = ap (λ h. h.ether_shost) ether_lem;
    ether_type = ap (λ h. h.ether_type) ether_lem;
    daddr = ap (λ h. h.daddr) ip_lem;
    saddr = ap (λ h. h.saddr) ip_lem;
    ttl = ap (λ h. h.ttl) ip_lem;
    protocol = ap (λ h. h.protocol) ip_lem;
    check = ap (λ h. ip_checksum header_offset (iphdr_bytes h)) ip_lem ∙ ip-valid.1;
    type = ap (λ h. h.type) icmp_lem ∙ type_lem;
    checksum = checksum_lem;
    echo = λ e.
        (ap (λ h. h.id) icmp_lem ∙ (echo_lem e).0, ap (λ h. h.sequence) icmp_lem ∙ (echo_lem e).1);
  }

  -- To a packet with a payload of MAX_LEN bytes, with addresses of the right sizes from the system
  -- and a type below 256, send_icmp sends 42 bytes on the same interface, from its addresses to
  -- the sender of the packet, with the TTL of the packet and an IP and an ICMP checksum that hold;
  -- an echo reply has the identifier and the sequence number of the request.
  pub send_icmp-IsReply : IsReply links req icmp_type (send_icmp links req icmp_type)
  send_icmp-IsReply = subst (IsReply links req icmp_type) (sym send_icmp_lem) reply-IsReply
