-- ===== src/Router/Loop/Saved.antt =====
-- A packet in the variable `saved`: how it is delivered, and the reply that makes it known.
use teme_pcom_anul_2_sem.Prelude.{
  ℕ, ◌≡◌, ◌<◌, refl, sym, ap, ◌∙◌, subst, Bool, true, false, List, [], ◌∷◌, ◌++◌, arith, length,
  drop, bytes_at, write_at, bytes_at-write_at, length-write_at, ◌==◌, ==_iff, some, none,
  append_assoc, length-append, length-take, length-drop, be_bytes,
}
use teme_pcom_anul_2_sem.Router.Route.{RtableEntry}
use teme_pcom_anul_2_sem.Router.Headers.{
  Packet, Links, ethertype_ip, iphdr_bytes, ip_hdr, arp_hdr, put,
}
use teme_pcom_anul_2_sem.Router.Headers.Layout.{
  bytes_at-be16, bytes_before-write_at, write_more, write_again,
}
use teme_pcom_anul_2_sem.Router.Icmp.{incremental_checksum}
use teme_pcom_anul_2_sem.Router.Icmp.Replies.{IsLinks}
use teme_pcom_anul_2_sem.Router.Queue.{Cells, load}
use teme_pcom_anul_2_sem.Router.Outcome.{done, best_route, >>=-assoc, ◌>>=◌}
use teme_pcom_anul_2_sem.Router.Arp.{
  ArpEntry, ArpTable, search_entries, search_arp, add_arp_entry, arp_handler, Packets, search_queue,
}
use teme_pcom_anul_2_sem.Router.Arp.Exchange.{IsArpReply}
use teme_pcom_anul_2_sem.Router.Arp.Delivery.{Delivers}
use teme_pcom_anul_2_sem.Router.Loop.{Router, updated, resolved, step}
use teme_pcom_anul_2_sem.Router.Loop.Forwarding.{
  IsPassing, resolved-IsForwarded, ip_lem, same_addresses,
}

pub length-sha :
    (links : Links) (r : Packet) (ip : ℕ) → IsArpReply links r ip → length (arp_hdr r).sha ≡ 6
length-sha links r ip reply =
    let arp = bytes_at 14 28 r.payload in
    omega (
      arith,
      length-take 6 (drop 8 arp),
      length-drop 8 arp,
      length-take 28 (drop 14 r.payload),
      length-drop 14 r.payload,
      reply.full,
    )

-- A new entry is found, if the address had none.
pub search_entries-append :
    (entries : List ArpEntry) (e : ArpEntry)
    → search_entries entries e.ip ≡ none
    → search_entries (entries ++ (e ∷ [])) e.ip ≡ some e
search_entries-append [] e h = ground arith
search_entries-append (x ∷ entries) e h = ground (arith, search_entries-append entries e)

module _ (links : Links) (ws : IsLinks links) (malloc : Cells → ℕ)
    (unused : (h : Cells) → load h (malloc h) ≡ none) (rounds fuel saved : ℕ)
    (rtable : List RtableEntry) (m : Packet) (w : IsPassing links m) (route : RtableEntry)
    (routed : best_route rounds rtable (ip_hdr m).daddr ≡ done (some route)) where
  abbrev pub crt : Packet
  crt = record (updated m) { interface = route.interface }

  ip_hdr-crt : ip_hdr crt ≡ incremental_checksum (ip_hdr m)
  ip_hdr-crt = ip_lem links ws m w route crt (
      bytes_at-write_at 14 (iphdr_bytes (incremental_checksum (ip_hdr m))) m.payload
        (omega (arith, w.full)))

  pub routed_again : best_route rounds rtable (ip_hdr crt).daddr ≡ done (some route)
  routed_again =
      subst (λ d. best_route rounds rtable d ≡ done (some route))
        (sym (ap (λ h. h.daddr) ip_hdr-crt ∙ (same_addresses links ws m w route).1)) routed

  -- search_queue writes the two addresses, and the type is there already.
  pub addressed_lem :
      (e : ArpEntry)
      → length e.mac ≡ 6
      → put crt 0 (e.mac ++ links.mac_of route.interface) ≡ resolved links (updated m) route e
  addressed_lem e h =
      let macs = e.mac ++ links.mac_of route.interface in
      let twelve : length macs ≡ 12 =
        omega (
          arith,
          length-append e.mac (links.mac_of route.interface),
          h,
          ws.mac_of route.interface,
        ) in
      let new_ip = iphdr_bytes (incremental_checksum (ip_hdr m)) in
      let type : bytes_at (length macs) 2 crt.payload ≡ be_bytes ethertype_ip =
        ap (λ k. bytes_at k 2 crt.payload) twelve
        ∙ bytes_before-write_at 12 2 new_ip m.payload (omega (arith, w.full))
        ∙ bytes_at-be16 12 m.payload w.bytes (omega (arith, w.full))
        ∙ ap be_bytes w.type in
      let payload =
        write_more macs crt.payload 2 (
          omega
            (arith, twelve, length-write_at 14 new_ip m.payload (omega (arith, w.full)), w.full))
        ∙ ap (λ t. write_at 0 (macs ++ t) crt.payload) type
        ∙ ap (λ b. write_at 0 b crt.payload)
            (append_assoc e.mac (links.mac_of route.interface) (be_bytes ethertype_ip)) in
      ap (λ p. record crt { payload = p }) payload

  -- The saved packet is delivered once its next hop is known.
  pub saved-Delivers :
      (table : ArpTable) (packets : Packets) (e : ArpEntry)
      → search_arp table route.next_hop ≡ done (some e)
      → length e.mac ≡ 6
      → Delivers links rounds rtable table
          ((saved, crt) ∷ packets)
          saved
          (resolved links (updated m) route e)
  saved-Delivers table packets e known six = record {
    crt = crt;
    route = route;
    existing = e;
    stored = rw ((==_iff saved saved).1 refl) refl;
    routed = routed_again;
    known = known;
    outgoing = sym (addressed_lem e six);
  }

  -- Delivered once more, it is the same packet.
  pub again-Delivers :
      (table : ArpTable) (packets : Packets) (e : ArpEntry)
      → search_arp table route.next_hop ≡ done (some e)
      → length e.mac ≡ 6
      → let out = resolved links (updated m) route e in
        Delivers links rounds rtable table ((saved, out) ∷ packets) saved out
  again-Delivers table packets e known six =
      let out = resolved links (updated m) route e in
      let macs = e.mac ++ links.mac_of route.interface in
      let f = resolved-IsForwarded links ws m w route e six in
      record {
        crt = out;
        route = route;
        existing = e;
        stored = rw ((==_iff saved saved).1 refl) refl;
        routed = subst (λ d. best_route rounds rtable d ≡ done (some route)) (sym f.daddr) routed;
        known = known;
        outgoing =
            sym (addressed_lem e six)
            ∙ ap (λ p. record crt { payload = p }) (sym (write_again macs crt.payload))
            ∙ ap (λ q. put q 0 macs) (addressed_lem e six);
      }

module _ (links : Links) (malloc : Cells → ℕ) (rounds fuel saved : ℕ) (rtable : List RtableEntry)
    (r : Packet) (ip : ℕ) (reply : IsArpReply links r ip) where
  abbrev pub entry : ArpEntry
  entry = record { ip = ip; mac = (arp_hdr r).sha }

  abbrev pub larger : ArpTable → ArpTable
  larger t = record t { entries = t.entries ++ (entry ∷ []) }

  -- A table with room, whose pointer holds, takes the entry; then the queue is searched.
  pub step-arp_reply :
      (moves : Bool) (s : Router)
      → s.arp_table.live ≡ true
      → length s.arp_table.entries < s.arp_table.arp_max_len
      → step links malloc rounds fuel saved rtable moves r s ≡ (
          search_queue links malloc rounds rtable (larger s.arp_table) fuel s.waiting >>= λ rest.
          done (record { arp_table = larger s.arp_table; waiting = rest }))
  unfolding step arp_handler add_arp_entry
  step-arp_reply moves s live room =
      let full : (length s.arp_table.entries == s.arp_table.arp_max_len) ≡ false =
        ground (arith, room) in
      rw
        (
          reply.type,
          reply.op,
          reply.tpa,
          (==_iff (links.ip_of r.interface) (links.ip_of r.interface)).1 refl,
          live,
          full,
          reply.spa,
        )
        (>>=-assoc
          (search_queue links malloc rounds rtable (record (larger s.arp_table) { live = true })
            fuel s.waiting)
          _ _)
