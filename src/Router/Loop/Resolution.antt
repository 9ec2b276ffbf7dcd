-- ===== src/Router/Loop/Resolution.antt =====
-- A packet that waits for the hardware address of its next hop, and the reply that brings it.
use teme_pcom_anul_2_sem.Prelude.{
  ℕ, ◌≡◌, ◌<◌, refl, ap, ◌∙◌, Bool, true, List, [], ◌∷◌, ◌++◌, length, some, none, append_assoc,
}
use teme_pcom_anul_2_sem.Router.Route.{RtableEntry}
use teme_pcom_anul_2_sem.Router.Headers.{Packet, Links, ip_hdr, arp_hdr}
use teme_pcom_anul_2_sem.Router.Icmp.Replies.{IsLinks}
use teme_pcom_anul_2_sem.Router.Queue.{Cells, load, Que}
use teme_pcom_anul_2_sem.Router.Queue.Fifo.{Holds, queue_enq-Holds}
use teme_pcom_anul_2_sem.Router.Outcome.{done, best_route, ◌>>=◌}
use teme_pcom_anul_2_sem.Router.Arp.{ArpEntry, ArpTable, search_entries, search_arp, arp_requester}
use teme_pcom_anul_2_sem.Router.Arp.Exchange.{IsArpReply}
use teme_pcom_anul_2_sem.Router.Arp.Delivery.{nothing, next, search_queue-Deliveries}
use teme_pcom_anul_2_sem.Router.Loop.{Router, updated, resolved, forward, step}
use teme_pcom_anul_2_sem.Router.Loop.Forwarding.{
  IsForwarded, IsPassing, step-forward, resolved-IsForwarded,
}
use teme_pcom_anul_2_sem.Router.Loop.Saved.{
  length-sha, search_entries-append, saved-Delivers, step-arp_reply,
}

module _ (links : Links) (ws : IsLinks links) (malloc : Cells → ℕ)
    (unused : (h : Cells) → load h (malloc h) ≡ none) (rounds fuel saved : ℕ)
    (rtable : List RtableEntry) (m : Packet) (w : IsPassing links m) (route : RtableEntry)
    (routed : best_route rounds rtable (ip_hdr m).daddr ≡ done (some route)) where
  -- Without an entry the packet is saved behind those that wait, and a request is sent.
  pub step-waits :
      (moves : Bool) (s : Router) (ps : List ℕ)
      → search_arp s.arp_table route.next_hop ≡ done none
      → Holds s.waiting.queue ps
      → (queue : Que × Cells) × (step links malloc rounds fuel saved rtable moves m s
          ≡ done (record s {
            waiting = record {
              queue = queue;
              packets =
                  (saved, record (updated m) { interface = route.interface }) ∷ s.waiting.packets;
              sent = s.waiting.sent ++ (arp_requester links route ∷ []);
            };
          }))
        × Holds queue (ps ++ (saved ∷ []))
  unfolding forward
  step-waits moves s ps unknown h =
      let q = queue_enq-Holds malloc unused s.waiting.queue ps saved h in
      (
        q.0,
        step-forward links ws malloc rounds fuel saved rtable m w route routed moves s
            ∙ rw (unknown, q.1) refl,
        q.2,
      )

  -- With addresses of the right sizes from the system, malloc giving unused addresses, an empty
  -- queue and a live ARP table with room and without an entry for the next hop, a packet that is
  -- to be passed on is saved and an ARP request is sent; when the reply for that next hop arrives
  -- in the next round, the packet is sent once to the hardware address of the reply, on the
  -- interface of its route, with one hop less and a checksum that holds, the queue is empty again
  -- and the table has the entry; fuel above 1 is enough.
  pub step-resolves :
      (first second : Bool) (s : Router) (r : Packet)
      → Holds s.waiting.queue []
      → s.arp_table.live ≡ true
      → search_entries s.arp_table.entries route.next_hop ≡ none
      → length s.arp_table.entries < s.arp_table.arp_max_len
      → 1 < fuel
      → IsArpReply links r route.next_hop
      → (s1 s2 : Router) × (out : Packet) × (step links malloc rounds fuel saved rtable first m s
          ≡ done s1)
        × (step links malloc rounds fuel saved rtable second r s1 ≡ done s2)
        × (s2.waiting.sent ≡ s.waiting.sent ++ (arp_requester links route ∷ out ∷ []))
        × IsForwarded links m route (arp_hdr r).sha out
        × Holds s2.waiting.queue []
        × (search_arp s2.arp_table route.next_hop
            ≡ done (some (record { ip = route.next_hop; mac = (arp_hdr r).sha })))
  step-resolves first second s r h live unknown room f reply =
      let a = step-waits first s [] (rw live (ap done unknown)) h in
      let s1 : Router = record s {
        waiting = record {
          queue = a.0;
          packets = (saved, record (updated m) { interface = route.interface }) ∷ s.waiting.packets;
          sent = s.waiting.sent ++ (arp_requester links route ∷ []);
        };
      } in
      let e : ArpEntry = record { ip = route.next_hop; mac = (arp_hdr r).sha } in
      let table : ArpTable = record s.arp_table { entries = s.arp_table.entries ++ (e ∷ []) } in
      let known : search_arp table route.next_hop ≡ done (some e) =
        rw live (ap (λ o. done o) (search_entries-append s.arp_table.entries e unknown)) in
      let out = resolved links (updated m) route e in
      let six : length e.mac ≡ 6 = length-sha links r route.next_hop reply in
      let d =
        saved-Delivers links ws malloc unused rounds fuel saved rtable m w route routed table
          s.waiting.packets e known six in
      let b =
        search_queue-Deliveries links malloc rounds rtable table fuel s1.waiting (saved ∷ [])
          (out ∷ []) ((saved, out) ∷ s1.waiting.packets) f a.2 (next d nothing) in
      (
        s1,
        record { arp_table = table; waiting = b.0 },
        out,
        a.1,
        step-arp_reply links malloc rounds fuel saved rtable r route.next_hop reply second s1 live
              room
            ∙ ap (λ o. o >>= λ rest. done (record { arp_table = table; waiting = rest })) b.1,
        b.4 ∙ append_assoc s.waiting.sent (arp_requester links route ∷ []) (out ∷ []),
        resolved-IsForwarded links ws m w route e six,
        b.2,
        known,
      )
