-- ===== src/Router/Loop/Sound.antt =====
-- The invariant of the loop of router.c, and the rounds that take an IP packet.
use teme_pcom_anul_2_sem.Prelude.{
  ℕ, suc, ◌≡◌, ◌≤◌, ◌<◌, inl, inr, refl, ap, ◌∙◌, subst, true, List, [], ◌∷◌, ◌++◌, some, none,
  Option, Option-cases, Bool-cases, arith, length, replicate, replicate-append, All, ==_iff,
}
use teme_pcom_anul_2_sem.Router.Route.{RtableEntry}
use teme_pcom_anul_2_sem.Router.Headers.{Packet, Links, ethertype_ip, eth_hdr, ip_hdr}
use teme_pcom_anul_2_sem.Router.Icmp.{icmp_handler, is_garbage, icmp_dest_unreach}
use teme_pcom_anul_2_sem.Router.Icmp.Replies.{IsLinks}
use teme_pcom_anul_2_sem.Router.Queue.{Cells, load}
use teme_pcom_anul_2_sem.Router.Queue.Fifo.{Holds, queue_enq-Holds}
use teme_pcom_anul_2_sem.Router.Outcome.{done, best_route, Ends}
use teme_pcom_anul_2_sem.Router.Arp.{search_entries, Waiting}
use teme_pcom_anul_2_sem.Router.Loop.{
  Router, arp_max_size, send, updated, resolved, enqueue_saved, forward, handle_ip,
}
use teme_pcom_anul_2_sem.Router.Loop.Frames.{IsFrame, updated-IsFrame, daddr-updated}
use teme_pcom_anul_2_sem.Router.Loop.Outgoing.{
  IsOutgoing, IsWired, best_route-IsWired, resolved-IsOutgoing, arp_requester-IsOutgoing,
  icmp_handler-IsOutgoing, is_garbage-IsOutgoing, send_icmp-IsOutgoing,
}
use teme_pcom_anul_2_sem.Router.Loop.Invariant.{
  IsWaiting, HasMac, search_entries-HasMac, All-append,
}

-- The state after `n` rounds: the pointer to the ARP table holds, its entries have hardware
-- addresses, are no more than the rounds and lie in its room, which is at least ARP_MAX_SIZE.
pub record IsSound (rounds : ℕ) (rtable : List RtableEntry) (saved n : ℕ) (s : Router)
    : Type 0 where
  pub live : s.arp_table.live ≡ true
  pub macs : All HasMac s.arp_table.entries
  pub few : length s.arp_table.entries ≤ n
  pub inside : length s.arp_table.entries ≤ s.arp_table.arp_max_len
  pub room : arp_max_size ≤ s.arp_table.arp_max_len
  pub waiting : IsWaiting rounds rtable saved s.waiting

-- The search of the routing table for the target of the packet returns.
abbrev pub IsSearched : ℕ → List RtableEntry → Packet → Type 0
IsSearched rounds rtable m =
    (r : Option RtableEntry) × (best_route rounds rtable (ip_hdr m).daddr ≡ done r)

-- What a round receives: a frame from an interface of the array, and if it is of type IP, the search for its target returns.
pub record IsReceived (rounds : ℕ) (rtable : List RtableEntry) (m : Packet) : Type 0 where
  pub outgoing : IsOutgoing m
  pub searched : ((eth_hdr m).ether_type ≡ ethertype_ip) → IsSearched rounds rtable m

module _ (links : Links) (ws : IsLinks links) (macs : (i : ℕ) → All (λ b. b < 256) (links.mac_of i))
    (malloc : Cells → ℕ) (unused : (h : Cells) → load h (malloc h) ≡ none) (rounds fuel saved : ℕ)
    (rtable : List RtableEntry) where
  abbrev Sound : ℕ → Router → Type 0
  Sound = IsSound rounds rtable saved

  send-IsWaiting :
      (w : Waiting) (out : List Packet)
      → IsWaiting rounds rtable saved w
      → All IsOutgoing out
      → IsWaiting rounds rtable saved (record w { sent = w.sent ++ out })
  send-IsWaiting w out i f = record {
    count = i.count;
    queue = i.queue;
    saved_packet = i.saved_packet;
    sent = All-append IsOutgoing w.sent out i.sent f;
  }

  pub same-IsSound : (n : ℕ) (s : Router) → Sound n s → Sound (suc n) s
  same-IsSound n s i = record {
    live = i.live;
    macs = i.macs;
    few = omega (arith, i.few);
    inside = i.inside;
    room = i.room;
    waiting = i.waiting;
  }

  pub send-IsSound :
      (n : ℕ) (s : Router) (out : List Packet)
      → Sound n s
      → All IsOutgoing out
      → Sound (suc n) (send out s)
  send-IsSound n s out i f = record {
    live = i.live;
    macs = i.macs;
    few = omega (arith, i.few);
    inside = i.inside;
    room = i.room;
    waiting = send-IsWaiting s.waiting out i.waiting f;
  }

  -- The packet that waits has the route of the packet that came.
  enqueue_saved-IsSound :
      (n : ℕ) (m : Packet) (route : RtableEntry) (s : Router)
      → Sound n s
      → IsFrame m
      → best_route rounds rtable (ip_hdr m).daddr ≡ done (some route)
      → IsWired rtable
      → Ends ⊥
          (Sound (suc n))
          (enqueue_saved links malloc rounds fuel saved rtable (updated m) route s)
  enqueue_saved-IsSound n m route s i f routed wired =
      let w = i.waiting in
      let here = best_route-IsWired rounds rtable (ip_hdr m).daddr route wired routed in
      let back =
        queue_enq-Holds malloc unused s.waiting.queue (replicate w.count saved) saved w.queue in
      let g = updated-IsFrame m f in
      let crt : IsFrame (record (updated m) { interface = route.interface }) = record {
        size = g.size;
        bytes = g.bytes;
        fits = g.fits;
      } in
      rw back.1 (record {
        live = i.live;
        macs = i.macs;
        few = omega (arith, i.few);
        inside = i.inside;
        room = i.room;
        waiting = record {
          count = suc w.count;
          queue = subst (Holds back.0) (replicate-append w.count saved) back.2;
          saved_packet = inr (record {
            crt = record (updated m) { interface = route.interface };
            route = route;
            stored = rw ((==_iff saved saved).1 refl) refl;
            routed = ap (λ d. best_route rounds rtable d) (daddr-updated m f) ∙ routed;
            frame = crt;
            inside = here;
          });
          sent =
              All-append IsOutgoing s.waiting.sent _ w.sent
                (arp_requester-IsOutgoing links ws macs route here, tt);
        };
      })

  forward-IsSound :
      (n : ℕ) (m : Packet) (route : RtableEntry) (s : Router)
      → Sound n s
      → IsFrame m
      → best_route rounds rtable (ip_hdr m).daddr ≡ done (some route)
      → IsWired rtable
      → Ends ⊥ (Sound (suc n)) (forward links malloc rounds fuel saved rtable m route s)
  unfolding forward
  forward-IsSound n m route s i f routed wired =
      elim (Option-cases (search_entries s.arp_table.entries route.next_hop)) [
        | inl unknown ↦ rw (i.live, unknown) (enqueue_saved-IsSound n m route s i f routed wired)
        | inr (e, known) ↦
            let mac = search_entries-HasMac s.arp_table.entries route.next_hop e i.macs known in
            let out = resolved links (updated m) route e in
            rw (i.live, known)
              (send-IsSound n s (out ∷ []) i (
                resolved-IsOutgoing links ws macs (updated m) route e (updated-IsFrame m f) mac
                    (best_route-IsWired rounds rtable (ip_hdr m).daddr route wired routed),
                tt,
              ))
      ]

  pub handle_ip-IsSound :
      (n : ℕ) (m : Packet) (s : Router)
      → Sound n s
      → IsOutgoing m
      → IsSearched rounds rtable m
      → IsWired rtable
      → Ends ⊥ (Sound (suc n)) (handle_ip links malloc rounds fuel saved rtable m s)
  unfolding handle_ip
  handle_ip-IsSound n m s i f r wired = elim (Bool-cases (icmp_handler links m).0) [
    | inl echo ↦ rw echo (send-IsSound n s _ i (icmp_handler-IsOutgoing links ws macs m f))
    | inr no_echo ↦ elim (Bool-cases (is_garbage links m).0) [
      | inl bad ↦ rw (no_echo, bad) (send-IsSound n s _ i (is_garbage-IsOutgoing links ws macs m f))
      | inr good ↦ elim (Option-cases r.0) [
        | inl unreachable ↦
            rw (no_echo, good, r.1, unreachable)
              (send-IsSound n s _ i
                (send_icmp-IsOutgoing links ws macs m icmp_dest_unreach (omega arith) f, tt))
        | inr (route, e) ↦
            rw (no_echo, good, r.1, e)
              (forward-IsSound n m route s i f.frame (r.1 ∙ ap done e) wired)
      ]
    ]
  ]
