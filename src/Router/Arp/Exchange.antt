-- ===== src/Router/Arp/Exchange.antt =====
-- A request of one router and the reply of another.
use teme_pcom_anul_2_sem.Prelude.{
  ℕ, ◌^◌, ◌≡◌, ◌<◌, refl, subst, sym, ap, ◌∙◌, List, ◌++◌, arith, length, drop, replicate,
  length-replicate, length-write_at, bytes_at, bytes_at-append,
}
use teme_pcom_anul_2_sem.Router.Route.{RtableEntry}
use teme_pcom_anul_2_sem.Router.Headers.{
  Packet, Links, max_len, blank, EtherHeader, ether_header_of, ether_header_bytes, eth_hdr_setter,
  ethertype_arp, ArpHeader, arp_header_of, arp_header_bytes, eth_hdr, arp_hdr, put,
}
use teme_pcom_anul_2_sem.Router.Headers.Packets.{
  IsEtherHeader, length-ether_header_bytes, ether_header_of-append, IsArpHeader,
  length-arp_header_bytes, arp_header_of-arp_header_bytes, put-put,
}
use teme_pcom_anul_2_sem.Router.Icmp.Replies.{IsLinks}
use teme_pcom_anul_2_sem.Router.Arp.{
  arp_hdr_setter, arp_requester, arp_replier, arpop_request, arpop_reply,
}

-- An ARP reply for the interface on which it came.
pub record IsArpReply (links : Links) (r : Packet) (ip : ℕ) : Type 0 where
  pub full : length r.payload ≡ max_len
  pub type : (eth_hdr r).ether_type ≡ ethertype_arp
  pub op : (arp_hdr r).op ≡ arpop_reply
  pub tpa : (arp_hdr r).tpa ≡ links.ip_of r.interface
  pub spa : (arp_hdr r).spa ≡ ip

-- A packet of the two headers, as it is read.
module _ (interface : ℕ) (h : EtherHeader) (a : ArpHeader) (wh : IsEtherHeader h)
    (wa : IsArpHeader a) where
  abbrev built : Packet
  built = put (put (blank 42 interface) 0 (ether_header_bytes h)) 14 (arp_header_bytes a)

  he : length (ether_header_bytes h) ≡ 14
  he = length-ether_header_bytes h wh

  ha : length (arp_header_bytes a) ≡ 28
  ha = length-arp_header_bytes a wa.sha wa.tha

  abbrev rest : List ℕ
  rest = drop (length (arp_header_bytes a)) (drop 14 (replicate max_len 0))

  payload_lem : built.payload ≡ ether_header_bytes h ++ (arp_header_bytes a ++ rest)
  payload_lem = put-put (blank 42 interface) (ether_header_bytes h) (arp_header_bytes a) 14 he

  eth_hdr-built : eth_hdr built ≡ h
  eth_hdr-built =
      ap ether_header_of payload_lem ∙ ether_header_of-append h (arp_header_bytes a ++ rest) wh

  arp_hdr-built : arp_hdr built ≡ a
  arp_hdr-built =
      ap (λ p. arp_header_of (bytes_at 14 28 p)) payload_lem
      ∙ ap arp_header_of
          (bytes_at-append (ether_header_bytes h) 14 he (arp_header_bytes a) rest 28 ha)
      ∙ arp_header_of-arp_header_bytes a wa

  length-built : length built.payload ≡ max_len
  length-built =
      let first = put (blank 42 interface) 0 (ether_header_bytes h) in
      let zeros = length-replicate {A = ℕ} max_len 0 in
      let whole : length first.payload ≡ max_len =
        length-write_at 0 (ether_header_bytes h) (replicate max_len 0) (omega (arith, he, zeros))
        ∙ zeros in
      length-write_at 14 (arp_header_bytes a) first.payload (omega (arith, ha, whole)) ∙ whole

module _ (links : Links) (ws : IsLinks links) (route : RtableEntry)
    (hop : route.next_hop < 2 ^ 32) where
  abbrev request_arp : ArpHeader
  request_arp =
      arp_hdr_setter arpop_request (replicate 6 0) route.next_hop (links.mac_of route.interface)
        (links.ip_of route.interface)

  arp_hdr-arp_requester : arp_hdr (arp_requester links route) ≡ request_arp
  unfolding arp_requester
  arp_hdr-arp_requester =
      arp_hdr-built route.interface
        (eth_hdr_setter (replicate 6 0xff) (links.mac_of route.interface) ethertype_arp) request_arp
        (record {
          ether_dhost = refl;
          ether_shost = ws.mac_of route.interface;
          ether_type = omega arith;
        })
        (record {
          htype = omega arith;
          ptype = omega arith;
          op = omega arith;
          sha = ws.mac_of route.interface;
          spa = ws.ip_of route.interface;
          tha = refl;
          tpa = hop;
        })

  module _ (others : Links) (wo : IsLinks others) (j : ℕ) where
    -- The request as it arrives on interface `j` of the other router.
    abbrev pub asked : Packet
    asked = record (arp_requester links route) { interface = j }

    abbrev answer_ether : EtherHeader
    answer_ether = eth_hdr_setter (arp_hdr asked).sha (others.mac_of j) ethertype_arp

    abbrev answer_arp : ArpHeader
    answer_arp =
        arp_hdr_setter arpop_reply (arp_hdr asked).sha (arp_hdr asked).spa (others.mac_of j)
          (arp_hdr asked).tpa

    sha_lem : (arp_hdr asked).sha ≡ links.mac_of route.interface
    sha_lem = ap (λ a. a.sha) arp_hdr-arp_requester

    spa_lem : (arp_hdr asked).spa ≡ links.ip_of route.interface
    spa_lem = ap (λ a. a.spa) arp_hdr-arp_requester

    tpa_lem : (arp_hdr asked).tpa ≡ route.next_hop
    tpa_lem = ap (λ a. a.tpa) arp_hdr-arp_requester

    ether-IsEtherHeader : IsEtherHeader answer_ether
    ether-IsEtherHeader = record {
      ether_dhost = ap length sha_lem ∙ ws.mac_of route.interface;
      ether_shost = wo.mac_of j;
      ether_type = omega arith;
    }

    arp-IsArpHeader : IsArpHeader answer_arp
    arp-IsArpHeader = record {
      htype = omega arith;
      ptype = omega arith;
      op = omega arith;
      sha = wo.mac_of j;
      spa = subst (λ n. n < 2 ^ 32) (sym tpa_lem) hop;
      tha = ap length sha_lem ∙ ws.mac_of route.interface;
      tpa = subst (λ n. n < 2 ^ 32) (sym spa_lem) (ws.ip_of route.interface);
    }

    -- The answer as it arrives.
    abbrev pub answer : Packet
    answer = record (arp_replier others asked) { interface = route.interface }

    answer_ether_lem : eth_hdr answer ≡ answer_ether
    unfolding arp_replier
    answer_ether_lem = eth_hdr-built j answer_ether answer_arp ether-IsEtherHeader arp-IsArpHeader

    answer_arp_lem : arp_hdr answer ≡ answer_arp
    unfolding arp_replier
    answer_arp_lem = arp_hdr-built j answer_ether answer_arp ether-IsEtherHeader arp-IsArpHeader

    length-answer : length answer.payload ≡ max_len
    unfolding arp_replier
    length-answer = length-built j answer_ether answer_arp ether-IsEtherHeader arp-IsArpHeader

    -- With addresses of the right sizes from both systems and a next hop below 2^32, the answer of
    -- another router to a request of arp_requester is, as it arrives, an ARP reply that
    -- arp_handler takes for the requested next hop; it has the hardware address of the interface
    -- on which the other router got the request, and goes to the interface of the route.
    pub arp_replier-arp_requester :
        IsArpReply links answer route.next_hop
        × ((arp_hdr answer).sha ≡ others.mac_of j)
        × ((eth_hdr answer).ether_dhost ≡ links.mac_of route.interface)
    arp_replier-arp_requester = (
      record {
        full = length-answer;
        type = ap (λ h. h.ether_type) answer_ether_lem;
        op = ap (λ a. a.op) answer_arp_lem;
        tpa = ap (λ a. a.tpa) answer_arp_lem ∙ spa_lem;
        spa = ap (λ a. a.spa) answer_arp_lem ∙ tpa_lem;
      },
      ap (λ a. a.sha) answer_arp_lem,
      ap (λ h. h.ether_dhost) answer_ether_lem ∙ sha_lem,
    )
