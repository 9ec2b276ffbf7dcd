-- ===== src/Router/Loop/Moved.antt =====
-- The ARP table that `realloc` moves away from its caller.
use teme_pcom_anul_2_sem.Prelude.{
  ℕ, suc, ◌+◌, ◌-◌, ◌≡◌, ◌<◌, refl, Bool, true, false, List, [], ◌∷◌, ◌++◌, arith, length,
  length-append, some, ◌==◌, ==_iff, ◌∙◌,
}
use teme_pcom_anul_2_sem.Router.Route.{RtableEntry}
use teme_pcom_anul_2_sem.Router.Headers.{Packet, Links, ip_hdr}
use teme_pcom_anul_2_sem.Router.Icmp.Replies.{IsLinks}
use teme_pcom_anul_2_sem.Router.Queue.{Cells}
use teme_pcom_anul_2_sem.Router.Queue.Fifo.{Holds}
use teme_pcom_anul_2_sem.Router.Outcome.{done, fault, best_route}
use teme_pcom_anul_2_sem.Router.Arp.{ArpTable, search_arp, add_arp_entry, arp_handler}
use teme_pcom_anul_2_sem.Router.Arp.Exchange.{IsArpReply}
use teme_pcom_anul_2_sem.Router.Arp.Delivery.{search_queue_end}
use teme_pcom_anul_2_sem.Router.Loop.{Router, forward, step}
use teme_pcom_anul_2_sem.Router.Loop.Forwarding.{IsPassing, step-forward}
use teme_pcom_anul_2_sem.Router.Loop.Saved.{entry}

-- A table behind a pointer that no longer holds.
search_arp-fault :
    (t : ArpTable) (ip : ℕ) → t.live ≡ false → 0 < length t.entries → search_arp t ip ≡ fault
search_arp-fault t ip dead some' = ground arith

module _ (links : Links) (ws : IsLinks links) (malloc : Cells → ℕ) (rounds fuel saved : ℕ)
    (rtable : List RtableEntry) where
  -- The table of the caller after a reply for `ip` in a table without room.
  abbrev moved : ArpTable → (r : Packet) (ip : ℕ) → IsArpReply links r ip → ArpTable
  moved t r ip reply = record {
    entries = t.entries ++ (entry links malloc rounds fuel saved rtable r ip reply ∷ []);
    arp_max_len = t.arp_max_len + 1;
    live = false;
  }

  step-moved :
      (n : ℕ) (s : Router) (r : Packet) (ip : ℕ) (reply : IsArpReply links r ip)
      → Holds s.waiting.queue []
      → s.arp_table.live ≡ true
      → length s.arp_table.entries ≡ s.arp_table.arp_max_len
      → fuel ≡ suc n
      → step links malloc rounds fuel saved rtable true r s
        ≡ done (record { arp_table = moved s.arp_table r ip reply; waiting = s.waiting })
  unfolding step arp_handler add_arp_entry
  step-moved n s r ip reply empty live full enough =
      let filled : (length s.arp_table.entries == s.arp_table.arp_max_len) ≡ true =
        (==_iff (length s.arp_table.entries) s.arp_table.arp_max_len).1 full in
      let end =
        search_queue_end links malloc rounds rtable (moved s.arp_table r ip reply) n s.waiting
          empty in
      rw
        (
          reply.type,
          reply.op,
          reply.tpa,
          (==_iff (links.ip_of r.interface) (links.ip_of r.interface)).1 refl,
          live,
          filled,
          reply.spa,
          enough,
        )
        (rw end refl)

  -- With addresses of the right sizes from the system, fuel above 0 and an empty queue, an ARP
  -- reply that arrives when the ARP table, to which the pointer is valid, has no room left, in a
  -- round in which realloc moves the table, is taken, and the next round, with a packet that is to
  -- be passed on and has a route, reads the table through the old pointer.
  pub step-dangles :
      (s : Router) (r : Packet) (ip : ℕ)
      → Holds s.waiting.queue []
      → s.arp_table.live ≡ true
      → length s.arp_table.entries ≡ s.arp_table.arp_max_len
      → 0 < fuel
      → IsArpReply links r ip
      → (m : Packet) (route : RtableEntry) → IsPassing links m
      → best_route rounds rtable (ip_hdr m).daddr ≡ done (some route)
      → (s1 : Router) × (step links malloc rounds fuel saved rtable true r s ≡ done s1)
        × ((moves : Bool) → step links malloc rounds fuel saved rtable moves m s1 ≡ fault)
  unfolding forward
  step-dangles s r ip empty live full enough reply m route w routed =
      let t = moved s.arp_table r ip reply in
      let longer =
        length-append s.arp_table.entries
          (entry links malloc rounds fuel saved rtable r ip reply ∷ []) in
      let dead = search_arp-fault t route.next_hop refl (omega (arith, longer)) in
      let s1 : Router = record { arp_table = t; waiting = s.waiting } in
      (
        s1,
        step-moved (fuel - 1) s r ip reply empty live full (omega (arith, enough)),
        λ moves.
            step-forward links ws malloc rounds fuel saved rtable m w route routed moves s1
            ∙ rw dead refl,
      )
