-- ===== src/Router/Loop/Losses.antt =====
-- Packets that wait together in the one variable `saved`.
use teme_pcom_anul_2_sem.Prelude.{
  ℕ, ◌≡◌, ◌≢◌, ◌<◌, refl, subst, replicate, replicate-append, ap, ◌∙◌, Bool, true, List, [], ◌∷◌,
  ◌++◌, arith, length, some, none, append_assoc, ==_iff,
}
use teme_pcom_anul_2_sem.Router.Route.{RtableEntry}
use teme_pcom_anul_2_sem.Router.Headers.{Packet, Links, ip_hdr, arp_hdr}
use teme_pcom_anul_2_sem.Router.Icmp.Replies.{IsLinks}
use teme_pcom_anul_2_sem.Router.Queue.{Cells, load, Que}
use teme_pcom_anul_2_sem.Router.Queue.Fifo.{Holds}
use teme_pcom_anul_2_sem.Router.Outcome.{done, endless, best_route, ◌>>=◌}
use teme_pcom_anul_2_sem.Router.Arp.{ArpEntry, ArpTable, search_entries, search_arp, arp_requester}
use teme_pcom_anul_2_sem.Router.Arp.Exchange.{IsArpReply}
use teme_pcom_anul_2_sem.Router.Arp.Delivery.{nothing, next, search_queue-Deliveries}
use teme_pcom_anul_2_sem.Router.Arp.Stuck.{search_queue-endless}
use teme_pcom_anul_2_sem.Router.Loop.{Router, updated, resolved, step}
use teme_pcom_anul_2_sem.Router.Loop.Forwarding.{IsPassing, IsForwarded, resolved-IsForwarded}
use teme_pcom_anul_2_sem.Router.Loop.Resolution.{step-waits}
use teme_pcom_anul_2_sem.Router.Loop.Saved.{
  entry, step-arp_reply, search_entries-append, routed_again, length-sha, saved-Delivers,
  again-Delivers,
}

-- Another address is not the new one.
other_entry :
    (entries : List ArpEntry) (e : ArpEntry) (ip : ℕ)
    → e.ip ≢ ip
    → search_entries entries ip ≡ none
    → search_entries (entries ++ (e ∷ [])) ip ≡ none
other_entry [] e ip n h = ground (arith, n)
other_entry (x ∷ entries) e ip n h = ground (arith, other_entry entries e ip)

module _ (links : Links) (ws : IsLinks links) (malloc : Cells → ℕ)
    (unused : (h : Cells) → load h (malloc h) ≡ none) (rounds fuel saved : ℕ)
    (rtable : List RtableEntry) (m : Packet) (w : IsPassing links m) (route : RtableEntry)
    (routed : best_route rounds rtable (ip_hdr m).daddr ≡ done (some route)) where
  -- The state after a packet has been saved.
  abbrev saved_state : Router → Que × Cells → Router
  saved_state s queue = record s {
    waiting = record {
      queue = queue;
      packets = (saved, record (updated m) { interface = route.interface }) ∷ s.waiting.packets;
      sent = s.waiting.sent ++ (arp_requester links route ∷ []);
    };
  }

  -- With addresses of the right sizes from the system, malloc giving unused addresses, a queue in
  -- which only the variable saved waits, and a live ARP table with room and without an entry for
  -- its next hop, a packet that is to be passed on is saved; when then an ARP reply for another
  -- address arrives, the loop of the round that handles it goes on whatever the fuel.
  pub step-hangs :
      (first : Bool) (s : Router) (waiting : ℕ) (r : Packet) (ip : ℕ)
      → Holds s.waiting.queue (replicate waiting saved)
      → s.arp_table.live ≡ true
      → search_entries s.arp_table.entries route.next_hop ≡ none
      → length s.arp_table.entries < s.arp_table.arp_max_len
      → IsArpReply links r ip
      → ip ≢ route.next_hop
      → (s1 : Router) × (step links malloc rounds fuel saved rtable first m s ≡ done s1)
        × ((second : Bool) → step links malloc rounds fuel saved rtable second r s1 ≡ endless)
  step-hangs first s waiting r ip h live unknown room reply n =
      let a =
        step-waits links ws malloc unused rounds fuel saved rtable m w route routed first s
          (replicate waiting saved) (rw live (ap (λ o. done o) unknown)) h in
      let s1 = saved_state s a.0 in
      let e = entry links malloc rounds fuel saved rtable r ip reply in
      let table : ArpTable = record s.arp_table { entries = s.arp_table.entries ++ (e ∷ []) } in
      let none_yet : search_arp table route.next_hop ≡ done none =
        rw live (ap (λ o. done o) (other_entry s.arp_table.entries e route.next_hop n unknown)) in
      let crt = record (updated m) { interface = route.interface } in
      let again = routed_again links ws malloc unused rounds fuel saved rtable m w route routed in
      (
        s1,
        a.1,
        λ second.
            step-arp_reply links malloc rounds fuel saved rtable r ip reply second s1 live room
            ∙ ap (λ o. o >>= λ rest. done (record { arp_table = table; waiting = rest }))
                (search_queue-endless links malloc unused rounds rtable table saved crt route again
                  none_yet fuel s1.waiting waiting
                  (subst (Holds a.0) (replicate-append waiting saved) a.2)
                  (rw ((==_iff saved saved).1 refl) refl)),
      )

-- A second packet `m'` that has to wait overwrites the first.
module _ (links : Links) (ws : IsLinks links) (malloc : Cells → ℕ)
    (unused : (h : Cells) → load h (malloc h) ≡ none) (rounds fuel saved : ℕ)
    (rtable : List RtableEntry) (m m' : Packet) (w : IsPassing links m) (w' : IsPassing links m')
    (route route' : RtableEntry)
    (routed : best_route rounds rtable (ip_hdr m).daddr ≡ done (some route))
    (routed' : best_route rounds rtable (ip_hdr m').daddr ≡ done (some route')) where
  -- With addresses of the right sizes from the system, malloc giving unused addresses, an empty
  -- queue and a live ARP table with room, of two packets that are saved one after the other
  -- because their next hops have no entries, the reply for the next hop of the second sends the
  -- second one twice and the first one never, and leaves the queue empty; fuel above 2 is enough.
  pub step-loses :
      (moves : Bool) (s : Router) (r : Packet)
      → Holds s.waiting.queue []
      → s.arp_table.live ≡ true
      → search_entries s.arp_table.entries route.next_hop ≡ none
      → search_entries s.arp_table.entries route'.next_hop ≡ none
      → length s.arp_table.entries < s.arp_table.arp_max_len
      → 2 < fuel
      → IsArpReply links r route'.next_hop
      → (s1 s2 s3 : Router) × (out : Packet) × (step links malloc rounds fuel saved rtable moves m s
          ≡ done s1)
        × (step links malloc rounds fuel saved rtable moves m' s1 ≡ done s2)
        × (step links malloc rounds fuel saved rtable moves r s2 ≡ done s3)
        × (s3.waiting.sent
            ≡ s.waiting.sent
              ++ (arp_requester links route ∷ arp_requester links route' ∷ out ∷ out ∷ []))
        × IsForwarded links m' route' (arp_hdr r).sha out
        × Holds s3.waiting.queue []
  step-loses moves s r h live unknown unknown' room f reply =
      let a =
        step-waits links ws malloc unused rounds fuel saved rtable m w route routed moves s []
          (rw live (ap (λ o. done o) unknown)) h in
      let s1 = saved_state links ws malloc unused rounds fuel saved rtable m w route routed s a.0 in
      let b =
        step-waits links ws malloc unused rounds fuel saved rtable m' w' route' routed' moves s1
          (saved ∷ []) (rw live (ap (λ o. done o) unknown')) a.2 in
      let s2 =
        saved_state links ws malloc unused rounds fuel saved rtable m' w' route' routed' s1 b.0 in
      let e : ArpEntry = record { ip = route'.next_hop; mac = (arp_hdr r).sha } in
      let table : ArpTable = record s.arp_table { entries = s.arp_table.entries ++ (e ∷ []) } in
      let known : search_arp table route'.next_hop ≡ done (some e) =
        rw live (ap (λ o. done o) (search_entries-append s.arp_table.entries e unknown')) in
      let out = resolved links (updated m') route' e in
      let six : length e.mac ≡ 6 = length-sha links r route'.next_hop reply in
      let packets = s2.waiting.packets in
      let d =
        saved-Delivers links ws malloc unused rounds fuel saved rtable m' w' route' routed' table
          s1.waiting.packets e known six in
      let d' =
        again-Delivers links ws malloc unused rounds fuel saved rtable m' w' route' routed' table
          packets e known six in
      let c =
        search_queue-Deliveries links malloc rounds rtable table fuel s2.waiting
          (saved ∷ saved ∷ []) (out ∷ out ∷ []) ((saved, out) ∷ (saved, out) ∷ packets) f b.2
          (next d (next d' nothing)) in
      (
        s1,
        s2,
        record { arp_table = table; waiting = c.0 },
        out,
        a.1,
        b.1,
        step-arp_reply links malloc rounds fuel saved rtable r route'.next_hop reply moves s2 live
              room
            ∙ ap (λ o. o >>= λ rest. done (record { arp_table = table; waiting = rest })) c.1,
        c.4
            ∙ append_assoc (s.waiting.sent ++ (arp_requester links route ∷ []))
                (arp_requester links route' ∷ []) (out ∷ out ∷ [])
            ∙ append_assoc s.waiting.sent (arp_requester links route ∷ [])
                (arp_requester links route' ∷ out ∷ out ∷ []),
        resolved-IsForwarded links ws m' w' route' e six,
        c.2,
      )
