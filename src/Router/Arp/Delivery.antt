-- ===== src/Router/Arp/Delivery.antt =====
-- search_queue when the next hop of every waiting packet is known.
use teme_pcom_anul_2_sem.Prelude.{
  ℕ, zero, suc, ◌≡◌, ◌<◌, refl, sym, ap, ◌∙◌, none, some, List, [], ◌∷◌, ◌++◌, arith, length,
  append_assoc, append-nil,
}
use teme_pcom_anul_2_sem.Router.Route.{RtableEntry}
use teme_pcom_anul_2_sem.Router.Headers.{Packet, Links, ip_hdr, put}
use teme_pcom_anul_2_sem.Router.Queue.{Cells, Que}
use teme_pcom_anul_2_sem.Router.Queue.Fifo.{Holds, queue_deq-Holds}
use teme_pcom_anul_2_sem.Router.Outcome.{done, endless, ◌>>=◌, best_route}
use teme_pcom_anul_2_sem.Router.Arp.{
  ArpTable, ArpEntry, search_arp, Packets, packet_at, Waiting, search_round, search_queue,
}

-- How a packet is delivered: it has a route, and the next hop has an entry.
pub record Delivers (links : Links) (rounds : ℕ) (rtable : List RtableEntry) (table : ArpTable)
    (packets : Packets) (p : ℕ) (out : Packet) : Type 0 where
  pub crt : Packet
  pub route : RtableEntry
  pub existing : ArpEntry
  pub stored : packet_at packets p ≡ some crt
  pub routed : best_route rounds rtable (ip_hdr crt).daddr ≡ done (some route)
  pub known : search_arp table route.next_hop ≡ done (some existing)
  pub outgoing : out ≡ put crt 0 (existing.mac ++ links.mac_of route.interface)

-- The packets at a list of addresses are delivered in turn.
pub data Deliveries (links : Links) (rounds : ℕ) (rtable : List RtableEntry) (table : ArpTable)
    : Packets → List ℕ → List Packet → Packets → Type 0 where
  nothing : {packets : Packets} → Deliveries links rounds rtable table packets [] [] packets
  next :
      {packets after : Packets} {p : ℕ} {ps : List ℕ} {out : Packet} {outs : List Packet}
      → Delivers links rounds rtable table packets p out
      → Deliveries links rounds rtable table ((p, out) ∷ packets) ps outs after
      → Deliveries links rounds rtable table packets (p ∷ ps) (out ∷ outs) after

module _ (links : Links) (malloc : Cells → ℕ) (rounds : ℕ) (rtable : List RtableEntry)
    (table : ArpTable) where
  pub search_queue_more :
      (fuel : ℕ) (s : Waiting) (first : ℕ)
      → s.queue.0.head ≡ some first
      → search_queue links malloc rounds rtable table (suc fuel) s ≡ (
          search_round links malloc rounds rtable table s
          >>= search_queue links malloc rounds rtable table fuel)
  unfolding search_queue
  search_queue_more fuel s first e = rw e refl

  pub search_queue_none :
      (s : Waiting) → search_queue links malloc rounds rtable table zero s ≡ endless
  unfolding search_queue
  search_queue_none s = refl

  pub search_queue_end :
      (fuel : ℕ) (s : Waiting)
      → s.queue.0.head ≡ none
      → search_queue links malloc rounds rtable table (suc fuel) s ≡ done s
  unfolding search_queue
  search_queue_end fuel s e = rw e refl

  search_round-Delivers :
      (s : Waiting) (p : ℕ) (ps : List ℕ) (out : Packet)
      → Holds s.queue (p ∷ ps)
      → Delivers links rounds rtable table s.packets p out
      → (queue : Que × Cells) × (search_round links malloc rounds rtable table s
          ≡ done (record {
            queue = queue;
            packets = (p, out) ∷ s.packets;
            sent = s.sent ++ (out ∷ []);
          }))
        × Holds queue ps
  unfolding search_round
  search_round-Delivers s p ps out w d =
      let taken = queue_deq-Holds s.queue p ps w in
      (taken.0, rw (taken.1, d.stored, d.routed, d.known, d.outgoing) refl, taken.2)

  -- With a round for each packet and one more, the queue is emptied and each packet is sent.
  pub search_queue-Deliveries :
      (fuel : ℕ) (s : Waiting) (ps : List ℕ) (outs : List Packet) (after : Packets)
      → length ps < fuel
      → Holds s.queue ps
      → Deliveries links rounds rtable table s.packets ps outs after
      → (t : Waiting) × (search_queue links malloc rounds rtable table fuel s ≡ done t)
        × Holds t.queue []
        × (t.packets ≡ after)
        × (t.sent ≡ s.sent ++ outs)
  search_queue-Deliveries zero s ps outs after l w d = absurd (omega (arith, l))
  search_queue-Deliveries (suc fuel) s [] [] after l w nothing =
      (s, search_queue_end fuel s w, w, refl, sym (append-nil s.sent))
  search_queue-Deliveries (suc fuel) s [] (out ∷ outs) after l w d = elim d [ ]
  search_queue-Deliveries (suc fuel) s (p ∷ ps) [] after l w d = elim d [ ]
  search_queue-Deliveries (suc fuel) s (p ∷ ps) (out ∷ outs) after l w (next d ds) =
      let r = search_round-Delivers s p ps out w d in
      let s' : Waiting = record {
        queue = r.0;
        packets = (p, out) ∷ s.packets;
        sent = s.sent ++ (out ∷ []);
      } in
      let rest = search_queue-Deliveries fuel s' ps outs after (omega (arith, l)) r.2 ds in
      (
        rest.0,
        search_queue_more fuel s w.0 w.2
            ∙ ap (λ o. o >>= search_queue links malloc rounds rtable table fuel) r.1
            ∙ rest.1,
        rest.2,
        rest.3,
        rest.4 ∙ append_assoc s.sent (out ∷ []) outs,
      )
