-- ===== src/Router/Arp/Stuck.antt =====
-- search_queue when the next hop of the waiting packet has no entry: it takes the packet and puts
-- it back for ever.
use teme_pcom_anul_2_sem.Prelude.{
  ℕ, zero, suc, ◌≡◌, refl, ap, ◌∙◌, subst, none, some, List, replicate, replicate-append,
}
use teme_pcom_anul_2_sem.Router.Route.{RtableEntry}
use teme_pcom_anul_2_sem.Router.Headers.{Packet, Links, ip_hdr}
use teme_pcom_anul_2_sem.Router.Queue.{Cells, load, Que}
use teme_pcom_anul_2_sem.Router.Queue.Fifo.{Holds, queue_deq-Holds, queue_enq-Holds}
use teme_pcom_anul_2_sem.Router.Outcome.{done, endless, ◌>>=◌, best_route}
use teme_pcom_anul_2_sem.Router.Arp.Delivery.{search_queue_more, search_queue_none}
use teme_pcom_anul_2_sem.Router.Arp.{
  ArpTable, search_arp, packet_at, Waiting, search_round, search_queue,
}

module _ (links : Links) (malloc : Cells → ℕ) (unused : (h : Cells) → load h (malloc h) ≡ none)
    (rounds : ℕ) (rtable : List RtableEntry) (table : ArpTable) (p : ℕ) (m : Packet)
    (route : RtableEntry) (routed : best_route rounds rtable (ip_hdr m).daddr ≡ done (some route))
    (unknown : search_arp table route.next_hop ≡ done none) where
  -- A round puts the packet back, and nothing else changes.
  search_round-replicate :
      (s : Waiting) (n : ℕ)
      → Holds s.queue (replicate (suc n) p)
      → packet_at s.packets p ≡ some m
      → (queue : Que × Cells) × (search_round links malloc rounds rtable table s
          ≡ done (record { queue = queue; packets = s.packets; sent = s.sent }))
        × Holds queue (replicate (suc n) p)
  unfolding search_round
  search_round-replicate s n w stored =
      let taken = queue_deq-Holds s.queue p (replicate n p) w in
      let back = queue_enq-Holds malloc unused taken.0 (replicate n p) p taken.2 in
      (
        back.0,
        rw (taken.1, stored, routed, unknown, back.1) refl,
        subst (Holds back.0) (replicate-append n p) back.2,
      )

  -- Whatever the fuel, it is not enough.
  pub search_queue-endless :
      (fuel : ℕ) (s : Waiting) (n : ℕ)
      → Holds s.queue (replicate (suc n) p)
      → packet_at s.packets p ≡ some m
      → search_queue links malloc rounds rtable table fuel s ≡ endless
  search_queue-endless zero s n w stored = search_queue_none links malloc rounds rtable table s
  search_queue-endless (suc fuel) s n w stored =
      let r = search_round-replicate s n w stored in
      let s' : Waiting = record { queue = r.0; packets = s.packets; sent = s.sent } in
      search_queue_more links malloc rounds rtable table fuel s w.0 w.2
      ∙ ap (λ o. o >>= search_queue links malloc rounds rtable table fuel) r.1
      ∙ search_queue-endless fuel s' n r.2 stored
