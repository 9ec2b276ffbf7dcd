-- ===== src/Router/Loop/Rounds.antt =====
-- A round of the loop of router.c keeps the invariant.
use teme_pcom_anul_2_sem.Prelude.{
  ℕ, suc, ◌≡◌, ◌≢◌, ◌<◌, ◌⊎◌, inl, inr, Bool, false, List, [], ◌∷◌, none, Bool-cases, arith,
  length-append, All, ◌&&◌, ◌==◌,
}
use teme_pcom_anul_2_sem.Router.Route.{RtableEntry}
use teme_pcom_anul_2_sem.Router.Headers.{
  Packet, Links, ethertype_ip, ethertype_arp, eth_hdr, arp_hdr,
}
use teme_pcom_anul_2_sem.Router.Icmp.Replies.{IsLinks}
use teme_pcom_anul_2_sem.Router.Queue.{Cells, load}
use teme_pcom_anul_2_sem.Router.Outcome.{Outcome, done, ◌>>=◌, Ends, Ends->>=, Ends-map}
use teme_pcom_anul_2_sem.Router.Arp.{
  ArpTable, add_arp_entry, arp_handler, Waiting, search_queue, arpop_request, arpop_reply,
}
use teme_pcom_anul_2_sem.Router.Loop.{Router, arp_max_size, handle_ip, step}
use teme_pcom_anul_2_sem.Router.Loop.Frames.{IsMac, sha-IsMac}
use teme_pcom_anul_2_sem.Router.Loop.Outgoing.{IsOutgoing, IsWired, arp_replier-IsOutgoing}
use teme_pcom_anul_2_sem.Router.Loop.Invariant.{
  IsWaiting, HasMac, search_queue-IsWaiting, All-append,
}
use teme_pcom_anul_2_sem.Router.Loop.Sound.{
  IsSound, IsReceived, same-IsSound, send-IsSound, handle_ip-IsSound,
}

-- An ARP reply that arrives while a packet waits.
abbrev pub Disturbs : Packet → Router → Type 0
Disturbs m s =
    ((eth_hdr m).ether_type ≡ ethertype_arp)
    × ((arp_hdr m).op ≡ arpop_reply)
    × (s.waiting.queue.0.head ≢ none)

module _ (links : Links) (ws : IsLinks links) (macs : (i : ℕ) → All (λ b. b < 256) (links.mac_of i))
    (malloc : Cells → ℕ) (unused : (h : Cells) → load h (malloc h) ≡ none) (rounds fuel saved : ℕ)
    (rtable : List RtableEntry) where
  abbrev Sound : ℕ → Router → Type 0
  Sound = IsSound rounds rtable saved

  abbrev Entered : ℕ → ArpTable × Waiting → Type 0
  Entered n r = Sound n (record { arp_table = r.0; waiting = r.1 })

  Entered_lem :
      (n : ℕ) (s : Router) (t : ArpTable) (rest : Waiting)
      → Sound n (record s { arp_table = t })
      → IsWaiting rounds rtable saved rest
      → Entered n (t, rest)
  Entered_lem n s t rest i w = record {
    live = i.live;
    macs = i.macs;
    few = i.few;
    inside = i.inside;
    room = i.room;
    waiting = w;
  }

  larger-IsSound :
      (n : ℕ) (moves : Bool) (s : Router) (ip : ℕ) (mac : List ℕ)
      → Sound n s
      → (moves ≡ false) ⊎ (n < arp_max_size)
      → IsMac mac
      → Ends ⊥
          (λ t. Sound (suc n) (record s { arp_table = t }))
          (add_arp_entry moves s.arp_table ip mac)
  unfolding add_arp_entry
  larger-IsSound n moves s ip mac i stays m =
      let t = s.arp_table in
      let longer = length-append t.entries (record { ip = ip; mac = mac } ∷ []) in
      rw i.live (record {
        live = ground (arith, stays, i.few, i.room);
        macs = All-append HasMac t.entries _ i.macs (m, tt);
        few = omega (arith, i.few, longer);
        inside = ground (arith, longer, i.inside);
        room = ground (arith, i.room);
        waiting = i.waiting;
      })

  arp_handler-IsSound :
      (n : ℕ) (moves : Bool) (m : Packet) (s : Router)
      → Sound n s
      → IsOutgoing m
      → (moves ≡ false) ⊎ (n < arp_max_size)
      → ((eth_hdr m).ether_type ≡ ethertype_arp)
      → 0 < fuel
      → Ends
          (Disturbs m s)
          (Entered (suc n))
          (arp_handler links malloc moves rounds fuel rtable m s.arp_table s.waiting)
  unfolding arp_handler
  arp_handler-IsSound n moves m s i f stays type enough =
      let arp = arp_hdr m in
      elim (Bool-cases (arp.op == arpop_request)) [
        | inl asks ↦ rw asks (
            send-IsSound links ws macs malloc unused rounds fuel saved rtable n s _ i
              (arp_replier-IsOutgoing links ws macs m f, tt))
        | inr other ↦
            elim (Bool-cases (arp.op == arpop_reply && arp.tpa == links.ip_of m.interface)) [
              | inr ignored ↦
                  rw (other, ignored)
                    (same-IsSound links ws macs malloc unused rounds fuel saved rtable n s i)
              | inl reply ↦
                  let T : ArpTable → Type 0 = λ t. Sound (suc n) (record s { arp_table = t }) in
                  let W = IsWaiting rounds rtable saved in
                  let grown = add_arp_entry moves s.arp_table arp.spa arp.sha in
                  let searched : ArpTable → Outcome Waiting =
                    λ t. search_queue links malloc rounds rtable t fuel s.waiting in
                  let finish : ArpTable → Waiting → Outcome (ArpTable × Waiting) =
                    λ t rest. done (t, rest) in
                  rw (other, reply)
                    (Ends->>= (Disturbs m s) T (Entered (suc n)) grown
                      (λ t. searched t >>= finish t)
                      (Ends-map ⊥ (Disturbs m s) T grown (λ z. absurd z)
                        (larger-IsSound n moves s arp.spa arp.sha i stays (sha-IsMac m f.frame)))
                      (λ t j.
                        Ends->>= (Disturbs m s) W (Entered (suc n)) (searched t) (finish t)
                          (Ends-map (s.waiting.queue.0.head ≢ none) (Disturbs m s) W (searched t)
                            (λ e. (type, ground (arith, reply), e))
                            (search_queue-IsWaiting links ws macs malloc unused rounds saved rtable
                              t j.live j.macs fuel s.waiting enough j.waiting))
                          (λ rest w. Entered_lem (suc n) s t rest j w)))
            ]
      ]

  -- With addresses of the right sizes and of bytes from the system, malloc giving unused
  -- addresses, fuel above 0 for the queue, a state in which the invariant IsSound holds after n
  -- rounds, and a frame that, if it is of type IP, has a target for which the search of the
  -- routing table returns, a round in which realloc leaves the ARP table in place, or with n below
  -- ARP_MAX_SIZE, ends in a state in which IsSound holds after one round more; it does not end
  -- only if the frame is an ARP reply and a packet waits in the queue, and it never faults.
  pub step-IsSound :
      (n : ℕ) (moves : Bool) (m : Packet) (s : Router)
      → IsSound rounds rtable saved n s
      → IsReceived rounds rtable m
      → IsWired rtable
      → (moves ≡ false) ⊎ (n < arp_max_size)
      → 0 < fuel
      → Ends
          (Disturbs m s)
          (IsSound rounds rtable saved (suc n))
          (step links malloc rounds fuel saved rtable moves m s)
  unfolding step
  step-IsSound n moves m s i r wired stays enough =
      elim (Bool-cases ((eth_hdr m).ether_type == ethertype_ip)) [
        | inl ip ↦ rw ip (
            Ends-map ⊥ (Disturbs m s) (Sound (suc n))
              (handle_ip links malloc rounds fuel saved rtable m s) (λ z. absurd z)
              (handle_ip-IsSound links ws macs malloc unused rounds fuel saved rtable n m s i
                r.outgoing (r.searched (ground (arith, ip))) wired))
        | inr not_ip ↦ elim (Bool-cases ((eth_hdr m).ether_type == ethertype_arp)) [
          | inl arp ↦
              rw (not_ip, arp)
                (Ends->>= (Disturbs m s) (Entered (suc n)) (Sound (suc n))
                  (arp_handler links malloc moves rounds fuel rtable m s.arp_table s.waiting)
                  (λ t. done (record { arp_table = t.0; waiting = t.1 }))
                  (arp_handler-IsSound n moves m s i r.outgoing stays (ground (arith, arp)) enough)
                  (λ t w. w))
          | inr other ↦
              rw (not_ip, other)
                (same-IsSound links ws macs malloc unused rounds fuel saved rtable n s i)
        ]
      ]
