-- ===== src/Router/Icmp.antt =====
-- Tema-1-PCom/ip_icmp.c: the replies of the router, the test of a header, and the update of its
-- checksum. A function that sends gives the packets back.
pub mod Headers
pub mod Echo
pub mod Replies
use teme_pcom_anul_2_sem.Prelude.{
  ℕ, zero, suc, ◌+◌, ◌-◌, ◌/◌, ◌%◌, ◌^◌, Bool, true, false, List, [], ◌∷◌, ◌++◌, ◌==◌, ltb, ◌||◌,
  not, if◌then◌else◌, bytes_at,
}
use teme_pcom_anul_2_sem.Router.Checksum.{ip_checksum}
use teme_pcom_anul_2_sem.Router.Headers.{
  Packet, Links, blank, Iphdr, Icmphdr, ethertype_ip, ether_header_bytes, eth_hdr_setter,
  iphdr_bytes, icmphdr_bytes, eth_hdr, ip_hdr, icmp_hdr, put,
}

abbrev pub icmp_echoreply : ℕ
icmp_echoreply = 0

abbrev pub icmp_dest_unreach : ℕ
icmp_dest_unreach = 3

abbrev pub icmp_echo : ℕ
icmp_echo = 8

abbrev pub icmp_time_exceeded : ℕ
icmp_time_exceeded = 11

abbrev pub ipproto_icmp : ℕ
ipproto_icmp = 1

abbrev pub best_effort : ℕ
best_effort = 0

abbrev pub icmp_code : ℕ
icmp_code = 0

abbrev pub icmp_id : ℕ
icmp_id = 1337

-- The IP header lies at offset 2 from a word boundary, behind `len` and the Ethernet header, and
-- so does the ICMP header.
abbrev pub header_offset : ℕ
header_offset = 2

-- `ip_hdr_setter`
unfoldable pub ip_hdr_setter : Iphdr → ℕ → Iphdr
ip_hdr_setter req_iphdr interf_ip =
    let reply : Iphdr = record {
      version_ihl = 0x45;
      tos = best_effort;
      tot_len = 20 + 8;
      id = icmp_id;
      frag_off = req_iphdr.frag_off;
      ttl = req_iphdr.ttl;
      protocol = ipproto_icmp;
      check = 0;
      saddr = interf_ip;
      daddr = req_iphdr.saddr;
    } in
    record reply { check = ip_checksum header_offset (iphdr_bytes reply) }

-- `icmp_hdr_setter`: the checksum covers the 28 bytes of `struct icmp`, the 20 bytes behind the
-- header included.
unfoldable pub icmp_hdr_setter : Icmphdr → Icmphdr → ℕ → List ℕ → Icmphdr
icmp_hdr_setter reply_icmp req_icmp icmp_type behind =
    let empty = icmp_type == icmp_dest_unreach || icmp_type == icmp_time_exceeded in
    let echo = icmp_type == icmp_echoreply in
    let reply : Icmphdr = record {
      type = icmp_type;
      code = icmp_code;
      checksum = 0;
      id = if empty then 0 else if echo then req_icmp.id else reply_icmp.id;
      sequence = if empty then 0 else if echo then req_icmp.sequence else reply_icmp.sequence;
    } in
    record reply { checksum = ip_checksum header_offset (icmphdr_bytes reply ++ behind) }

-- `send_icmp`: the reply that is sent.
unfoldable pub send_icmp : Links → Packet → ℕ → Packet
send_icmp links req_pkt icmp_type =
    let empty = blank (14 + 20 + 8) req_pkt.interface in
    let source_mac = links.mac_of req_pkt.interface in
    let ether = eth_hdr_setter (eth_hdr req_pkt).ether_shost source_mac ethertype_ip in
    let with_ether = put empty 0 (ether_header_bytes ether) in
    let this_ip = links.ip_of req_pkt.interface in
    let with_ip = put with_ether 14 (iphdr_bytes (ip_hdr_setter (ip_hdr req_pkt) this_ip)) in
    let behind = bytes_at 42 20 with_ip.payload in
    let icmp = icmp_hdr_setter (icmp_hdr with_ip) (icmp_hdr req_pkt) icmp_type behind in
    put with_ip 34 (icmphdr_bytes icmp)

-- `icmp_handler`: `true` is ICMP_REPLY_SENT.
unfoldable pub icmp_handler : Links → Packet → Bool × List Packet
icmp_handler links pkt =
    if (ip_hdr pkt).protocol == ipproto_icmp
    then if (icmp_hdr pkt).type == icmp_echo
      then if (ip_hdr pkt).daddr == links.ip_of pkt.interface
        then (true, send_icmp links pkt icmp_echoreply ∷ [])
        else (false, [])
      else (false, [])
    else (false, [])

-- `is_garbage`
unfoldable pub is_garbage : Links → Packet → Bool × List Packet
is_garbage links pkt =
    if not (ip_checksum header_offset (iphdr_bytes (ip_hdr pkt)) == 0)
    then (true, [])
    else if ltb (ip_hdr pkt).ttl 2
    then (true, send_icmp links pkt icmp_time_exceeded ∷ [])
    else (false, [])

-- `incremental_checksum`
unfoldable pub incremental_checksum : Iphdr → Iphdr
incremental_checksum h =
    let aux_sum = h.check + 2 ^ 8 in
    record h { ttl = (h.ttl + 255) % 256; check = (aux_sum + aux_sum / 2 ^ 16) % 2 ^ 16 }
