-- ===== src/Router/Headers.antt =====
-- The structures of a packet of Tema-1-PCom: the Ethernet, IP, ICMP and ARP headers, as they are
-- read from the bytes and written back. A 16-bit field is the number that `ntohs` gives, an
-- address is the `uint32_t` that lies in memory.
pub mod Layout
pub mod Packets
use teme_pcom_anul_2_sem.Prelude.{
  ℕ, zero, suc, ◌+◌, ◌*◌, ◌^◌, List, [], ◌∷◌, ◌++◌, get_or, replicate, bytes_at, write_at, be16,
  be_bytes, le_bytes, le_value,
}

-- `packet`
pub record Packet : Type 0 where
  pub len : ℕ
  pub payload : List ℕ
  pub interface : ℕ

abbrev pub max_len : ℕ
max_len = 1600

-- A packet that is set up, its payload emptied by `memset`.
abbrev pub blank : ℕ → ℕ → Packet
blank len interface = record { len = len; payload = replicate max_len 0; interface = interface }

-- What `get_interface_mac` and `inet_addr(get_interface_ip(...))` give: the answers of the system.
pub record Links : Type 0 where
  pub mac_of : ℕ → List ℕ
  pub ip_of : ℕ → ℕ

pub record EtherHeader : Type 0 where
  pub ether_dhost : List ℕ
  pub ether_shost : List ℕ
  pub ether_type : ℕ

abbrev pub ethertype_ip : ℕ
ethertype_ip = 0x0800

abbrev pub ethertype_arp : ℕ
ethertype_arp = 0x0806

abbrev pub ether_header_of : List ℕ → EtherHeader
ether_header_of p = record {
  ether_dhost = bytes_at 0 6 p;
  ether_shost = bytes_at 6 6 p;
  ether_type = be16 p 12;
}

abbrev pub ether_header_bytes : EtherHeader → List ℕ
ether_header_bytes h = h.ether_dhost ++ (h.ether_shost ++ be_bytes h.ether_type)

-- `eth_hdr_setter`
abbrev pub eth_hdr_setter : List ℕ → List ℕ → ℕ → EtherHeader
eth_hdr_setter dest_mac source_mac type = record {
  ether_dhost = dest_mac;
  ether_shost = source_mac;
  ether_type = type;
}

-- `struct iphdr`; its first byte holds `version` and `ihl`.
pub record Iphdr : Type 0 where
  pub version_ihl : ℕ
  pub tos : ℕ
  pub tot_len : ℕ
  pub id : ℕ
  pub frag_off : ℕ
  pub ttl : ℕ
  pub protocol : ℕ
  pub check : ℕ
  pub saddr : ℕ
  pub daddr : ℕ

abbrev pub iphdr_of : List ℕ → Iphdr
iphdr_of p = record {
  version_ihl = get_or p 0 0;
  tos = get_or p 1 0;
  tot_len = be16 p 2;
  id = be16 p 4;
  frag_off = be16 p 6;
  ttl = get_or p 8 0;
  protocol = get_or p 9 0;
  check = be16 p 10;
  saddr = le_value (bytes_at 12 4 p);
  daddr = le_value (bytes_at 16 4 p);
}

abbrev pub iphdr_bytes : Iphdr → List ℕ
iphdr_bytes h =
    h.version_ihl ∷ h.tos ∷ be_bytes h.tot_len
    ++ (be_bytes h.id
        ++ (be_bytes h.frag_off
            ++ (h.ttl ∷ h.protocol ∷ be_bytes h.check
                ++ (le_bytes 4 h.saddr ++ le_bytes 4 h.daddr))))

-- `struct icmphdr` with the fields of an echo.
pub record Icmphdr : Type 0 where
  pub type : ℕ
  pub code : ℕ
  pub checksum : ℕ
  pub id : ℕ
  pub sequence : ℕ

abbrev pub icmphdr_of : List ℕ → Icmphdr
icmphdr_of p = record {
  type = get_or p 0 0;
  code = get_or p 1 0;
  checksum = be16 p 2;
  id = be16 p 4;
  sequence = be16 p 6;
}

abbrev pub icmphdr_bytes : Icmphdr → List ℕ
icmphdr_bytes h = h.type ∷ h.code ∷ be_bytes h.checksum ++ (be_bytes h.id ++ be_bytes h.sequence)

-- `struct arp_header`
pub record ArpHeader : Type 0 where
  pub htype : ℕ
  pub ptype : ℕ
  pub hlen : ℕ
  pub plen : ℕ
  pub op : ℕ
  pub sha : List ℕ
  pub spa : ℕ
  pub tha : List ℕ
  pub tpa : ℕ

abbrev pub arp_header_of : List ℕ → ArpHeader
arp_header_of p = record {
  htype = be16 p 0;
  ptype = be16 p 2;
  hlen = get_or p 4 0;
  plen = get_or p 5 0;
  op = be16 p 6;
  sha = bytes_at 8 6 p;
  spa = le_value (bytes_at 14 4 p);
  tha = bytes_at 18 6 p;
  tpa = le_value (bytes_at 24 4 p);
}

abbrev pub arp_header_bytes : ArpHeader → List ℕ
arp_header_bytes h =
    be_bytes h.htype
    ++ (be_bytes h.ptype
        ++ (h.hlen ∷ h.plen ∷ be_bytes h.op
            ++ (h.sha ++ (le_bytes 4 h.spa ++ (h.tha ++ le_bytes 4 h.tpa)))))

-- The headers where a packet has them, and a header written there.
abbrev pub eth_hdr : Packet → EtherHeader
eth_hdr m = ether_header_of m.payload

abbrev pub ip_hdr : Packet → Iphdr
ip_hdr m = iphdr_of (bytes_at 14 20 m.payload)

abbrev pub icmp_hdr : Packet → Icmphdr
icmp_hdr m = icmphdr_of (bytes_at 34 8 m.payload)

abbrev pub arp_hdr : Packet → ArpHeader
arp_hdr m = arp_header_of (bytes_at 14 28 m.payload)

abbrev pub put : Packet → ℕ → List ℕ → Packet
put m offset bs = record m { payload = write_at offset bs m.payload }
