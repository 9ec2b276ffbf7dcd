-- ===== src/Router/Loop/Invariant.antt =====
-- What holds between two rounds of the loop of router.c, and of what the router sends.
use teme_pcom_anul_2_sem.Prelude.{
  ℕ, zero, suc, ◌+◌, ◌≡◌, ◌≢◌, ◌<◌, ◌⊎◌, inl, inr, refl, sym, ap, ◌∙◌, subst, true, List, [], ◌∷◌,
  ◌++◌, some, none, Option-cases, arith, length, take, drop, drop-drop, drop_behind-write_at,
  write_at, length-append, replicate, replicate-append, All, ==_iff,
}
use teme_pcom_anul_2_sem.Router.Route.{RtableEntry}
use teme_pcom_anul_2_sem.Router.Headers.{Packet, Links, iphdr_of, ip_hdr, put}
use teme_pcom_anul_2_sem.Router.Icmp.Replies.{IsLinks}
use teme_pcom_anul_2_sem.Router.Queue.{Cells, load, Que}
use teme_pcom_anul_2_sem.Router.Queue.Fifo.{Holds, queue_deq-Holds, queue_enq-Holds}
use teme_pcom_anul_2_sem.Router.Outcome.{Outcome, done, best_route, Ends, Ends->>=, Ends-map}
use teme_pcom_anul_2_sem.Router.Arp.{
  ArpEntry, ArpTable, search_entries, Packets, packet_at, Waiting, search_round, search_queue,
  addressed,
}
use teme_pcom_anul_2_sem.Router.Arp.Delivery.{
  search_queue_more, search_queue_none, search_queue_end,
}
use teme_pcom_anul_2_sem.Router.Loop.Frames.{IsFrame, IsMac}
use teme_pcom_anul_2_sem.Router.Loop.Outgoing.{IsOutgoing, addressed-IsOutgoing}
use teme_pcom_anul_2_sem.Router.Receive.{router_num_interfaces}

pub All-append {ℓ κ} :
    {A : Type ℓ} (P : A → Type κ) (xs ys : List A) → All P xs → All P ys → All P (xs ++ ys)
All-append P [] ys w v = v
All-append P (x ∷ xs) ys w v = (w.0, All-append P xs ys w.1 v)

-- The variable `saved` holds a packet that has a route.
pub record IsSaved (rounds : ℕ) (rtable : List RtableEntry) (saved : ℕ) (packets : Packets)
    : Type 0 where
  pub crt : Packet
  pub route : RtableEntry
  pub stored : packet_at packets saved ≡ some crt
  pub routed : best_route rounds rtable (ip_hdr crt).daddr ≡ done (some route)
  pub frame : IsFrame crt
  pub inside : crt.interface < router_num_interfaces

-- The queue holds the address of `saved` some number of times, and what has been sent are frames for
-- interfaces of the array.
pub record IsWaiting (rounds : ℕ) (rtable : List RtableEntry) (saved : ℕ) (s : Waiting)
    : Type 0 where
  pub count : ℕ
  pub queue : Holds s.queue (replicate count saved)
  pub saved_packet : (count ≡ 0) ⊎ IsSaved rounds rtable saved s.packets
  pub sent : All IsOutgoing s.sent

abbrev pub HasMac : ArpEntry → Type 0
HasMac e = IsMac e.mac

pub search_entries-HasMac :
    (entries : List ArpEntry) (ip : ℕ) (e : ArpEntry)
    → All HasMac entries
    → search_entries entries ip ≡ some e
    → HasMac e
search_entries-HasMac [] ip e w h = absurd cc
search_entries-HasMac (x ∷ entries) ip e w h =
    ground (arith, search_entries-HasMac entries ip e w.1)

-- Only the Ethernet header changes, so the packet has the route that it had.
ip_hdr-put_macs :
    (m : Packet) (macs : List ℕ) → IsFrame m → length macs ≡ 12 → ip_hdr (put m 0 macs) ≡ ip_hdr m
ip_hdr-put_macs m macs f h =
    let twelve : 0 + length macs ≡ 12 = omega (arith, h) in
    let behind : drop 12 (write_at 0 macs m.payload) ≡ drop 12 m.payload =
      subst (λ n. drop n (write_at 0 macs m.payload) ≡ drop n m.payload) twelve
        (drop_behind-write_at 0 macs m.payload (omega (arith, h, f.size))) in
    ap (λ p. iphdr_of (take 20 p))
      (sym (drop-drop 2 12 (write_at 0 macs m.payload))
        ∙ ap (drop 2) behind
        ∙ drop-drop 2 12 m.payload)

module _ (links : Links) (ws : IsLinks links) (macs : (i : ℕ) → All (λ b. b < 256) (links.mac_of i))
    (malloc : Cells → ℕ) (unused : (h : Cells) → load h (malloc h) ≡ none) (rounds saved : ℕ)
    (rtable : List RtableEntry) (table : ArpTable) (live : table.live ≡ true)
    (entries : All HasMac table.entries) where
  -- The packet is sent, and stays in `saved`.
  sent-IsWaiting :
      (s : Waiting) (n : ℕ) (queue : Que × Cells) (e : ArpEntry)
      → Holds queue (replicate n saved)
      → (w : IsSaved rounds rtable saved s.packets) → All IsOutgoing s.sent
      → HasMac e
      → let out = addressed links malloc rounds rtable table w.crt w.route e in
        IsWaiting rounds rtable saved (record {
          queue = queue;
          packets = (saved, out) ∷ s.packets;
          sent = s.sent ++ (out ∷ []);
        })
  sent-IsWaiting s n queue e h w sent m =
      let out = addressed links malloc rounds rtable table w.crt w.route e in
      let both = e.mac ++ links.mac_of w.route.interface in
      let f =
        addressed-IsOutgoing links ws macs w.crt w.route.interface e.mac
          (record { frame = w.frame; inside = w.inside }) m in
      let twelve : length both ≡ 12 = omega (
        arith,
        length-append e.mac (links.mac_of w.route.interface),
        m.six,
        ws.mac_of w.route.interface,
      ) in
      record {
        count = n;
        queue = h;
        saved_packet = inr (record {
          crt = out;
          route = w.route;
          stored = rw ((==_iff saved saved).1 refl) refl;
          routed =
              ap (λ h. best_route rounds rtable h.daddr) (ip_hdr-put_macs w.crt both w.frame twelve)
              ∙ w.routed;
          frame = f.frame;
          inside = f.inside;
        });
        sent = All-append IsOutgoing s.sent (out ∷ []) sent (f, tt);
      }

  search_round-IsWaiting :
      (s : Waiting) (n : ℕ)
      → Holds s.queue (replicate (suc n) saved)
      → IsSaved rounds rtable saved s.packets
      → All IsOutgoing s.sent
      → Ends Unit (IsWaiting rounds rtable saved) (search_round links malloc rounds rtable table s)
  unfolding search_round
  search_round-IsWaiting s n h w sent =
      let taken = queue_deq-Holds s.queue saved (replicate n saved) h in
      elim (Option-cases (search_entries table.entries w.route.next_hop)) [
        | inl unknown ↦
            let back = queue_enq-Holds malloc unused taken.0 (replicate n saved) saved taken.2 in
            rw (taken.1, w.stored, w.routed, live, unknown, back.1)
              (record {
                count = suc n;
                queue = subst (Holds back.0) (replicate-append n saved) back.2;
                saved_packet = inr w;
                sent = sent;
              })
        | inr (e, known) ↦
            rw (taken.1, w.stored, w.routed, live, known)
              (sent-IsWaiting s n taken.0 e taken.2 w sent
                (search_entries-HasMac table.entries w.route.next_hop e entries known))
      ]

  abbrev Kept : Outcome Waiting → Type 0
  Kept = Ends Unit (IsWaiting rounds rtable saved)

  search_queue_next :
      (fuel : ℕ)
      → ((s : Waiting)
          → IsWaiting rounds rtable saved s
          → Kept (search_queue links malloc rounds rtable table fuel s))
      → (s : Waiting) (n : ℕ) → Holds s.queue (replicate n saved)
      → (n ≡ 0) ⊎ IsSaved rounds rtable saved s.packets
      → All IsOutgoing s.sent
      → Kept (search_queue links malloc rounds rtable table (suc fuel) s)
  search_queue_next fuel rest s zero h w sent =
      rw (search_queue_end links malloc rounds rtable table fuel s h)
        (record { count = 0; queue = h; saved_packet = w; sent = sent })
  search_queue_next fuel rest s (suc n) h (inl e) sent = absurd (omega (arith, e))
  search_queue_next fuel rest s (suc n) h (inr w) sent =
      rw (search_queue_more links malloc rounds rtable table fuel s h.0 h.2) (
        Ends->>= Unit (IsWaiting rounds rtable saved) (IsWaiting rounds rtable saved) _ _
          (search_round-IsWaiting s n h w sent) rest)

  search_queue-Kept :
      (fuel : ℕ) (s : Waiting)
      → IsWaiting rounds rtable saved s
      → Kept (search_queue links malloc rounds rtable table fuel s)
  search_queue-Kept zero s w = rw (search_queue_none links malloc rounds rtable table s) tt
  search_queue-Kept (suc fuel) s w =
      search_queue_next fuel (search_queue-Kept fuel) s w.count w.queue w.saved_packet w.sent

  -- Without a waiting packet there is nothing to do, so that only a packet that waits may keep the
  -- loop going.
  pub search_queue-IsWaiting :
      (fuel : ℕ) (s : Waiting)
      → 0 < fuel
      → IsWaiting rounds rtable saved s
      → Ends
          (s.queue.0.head ≢ none)
          (IsWaiting rounds rtable saved)
          (search_queue links malloc rounds rtable table fuel s)
  search_queue-IsWaiting zero s h w = absurd (omega (arith, h))
  search_queue-IsWaiting (suc fuel) s h w = elim (Option-cases s.queue.0.head) [
    | inl empty ↦ rw (search_queue_end links malloc rounds rtable table fuel s empty) w
    | inr (first, e) ↦
        Ends-map Unit (s.queue.0.head ≢ none) (IsWaiting rounds rtable saved) _
          (λ u n. absurd (cc (n, e))) (search_queue-Kept (suc fuel) s w)
  ]
