-- ===== src/Router/Loop/Replying.antt =====
-- The packets that the router answers with an ICMP message, and those that it drops.
use teme_pcom_anul_2_sem.Prelude.{
  ℕ, ◌≡◌, ◌≢◌, ◌≤◌, ◌<◌, refl, Bool, true, false, List, [], ◌∷◌, arith, length, IsBytes, none, ◌==◌,
  ==_iff, ltb, lt→ltb,
}
use teme_pcom_anul_2_sem.Router.Route.{RtableEntry}
use teme_pcom_anul_2_sem.Router.Checksum.{ip_checksum}
use teme_pcom_anul_2_sem.Router.Headers.{
  Packet, Links, max_len, ethertype_ip, iphdr_bytes, eth_hdr, ip_hdr, icmp_hdr,
}
use teme_pcom_anul_2_sem.Router.Icmp.{
  header_offset, ipproto_icmp, icmp_echo, icmp_echoreply, icmp_time_exceeded, icmp_dest_unreach,
  send_icmp, icmp_handler, is_garbage,
}
use teme_pcom_anul_2_sem.Router.Icmp.Replies.{IsLinks, IsReply, send_icmp-IsReply}
use teme_pcom_anul_2_sem.Router.Queue.{Cells}
use teme_pcom_anul_2_sem.Router.Outcome.{done, best_route}
use teme_pcom_anul_2_sem.Router.Loop.{Router, send, step}

-- The type of the message that a packet of type IP is owed: an echo request to the router, a TTL
-- that has run out, or no route.
pub data Owed (links : Links) (rounds : ℕ) (rtable : List RtableEntry) (m : Packet)
    : ℕ → Type 0 where
  echo :
      (ip_hdr m).protocol ≡ ipproto_icmp
      → (icmp_hdr m).type ≡ icmp_echo
      → (ip_hdr m).daddr ≡ links.ip_of m.interface
      → Owed links rounds rtable m icmp_echoreply
  expired :
      (icmp_handler links m).0 ≡ false
      → ip_checksum header_offset (iphdr_bytes (ip_hdr m)) ≡ 0
      → (ip_hdr m).ttl < 2
      → Owed links rounds rtable m icmp_time_exceeded
  unreachable :
      (icmp_handler links m).0 ≡ false
      → ip_checksum header_offset (iphdr_bytes (ip_hdr m)) ≡ 0
      → 2 ≤ (ip_hdr m).ttl
      → best_route rounds rtable (ip_hdr m).daddr ≡ done none
      → Owed links rounds rtable m icmp_dest_unreach

module _ (links : Links) (malloc : Cells → ℕ) (rounds fuel saved : ℕ) (rtable : List RtableEntry)
    (m : Packet) (type : (eth_hdr m).ether_type ≡ ethertype_ip) where
  handles_echo :
      (ip_hdr m).protocol ≡ ipproto_icmp
      → (icmp_hdr m).type ≡ icmp_echo
      → (ip_hdr m).daddr ≡ links.ip_of m.interface
      → icmp_handler links m ≡ (true, send_icmp links m icmp_echoreply ∷ [])
  unfolding icmp_handler
  handles_echo p e d =
      let here = links.ip_of m.interface in
      let same : (here == here) ≡ true = (==_iff here here).1 refl in rw (p, e, d, same) refl

  garbage_expired :
      ip_checksum header_offset (iphdr_bytes (ip_hdr m)) ≡ 0
      → (ip_hdr m).ttl < 2
      → is_garbage links m ≡ (true, send_icmp links m icmp_time_exceeded ∷ [])
  unfolding is_garbage
  garbage_expired v l =
      let small : ltb (ip_hdr m).ttl 2 ≡ true = lt→ltb (ip_hdr m).ttl 2 l in rw (v, small) refl

  garbage_alive :
      ip_checksum header_offset (iphdr_bytes (ip_hdr m)) ≡ 0
      → 2 ≤ (ip_hdr m).ttl
      → is_garbage links m ≡ (false, [])
  unfolding is_garbage
  garbage_alive v l =
      let large : ltb (ip_hdr m).ttl 2 ≡ false = ground (arith, l) in rw (v, large) refl

  garbage_invalid :
      ip_checksum header_offset (iphdr_bytes (ip_hdr m)) ≢ 0 → is_garbage links m ≡ (true, [])
  unfolding is_garbage
  garbage_invalid n =
      let bad : (ip_checksum header_offset (iphdr_bytes (ip_hdr m)) == 0) ≡ false =
        ground (arith, n) in
      rw bad refl

  step-Owed :
      (moves : Bool) (s : Router) (t : ℕ)
      → Owed links rounds rtable m t
      → step links malloc rounds fuel saved rtable moves m s
        ≡ done (send (send_icmp links m t ∷ []) s)
  unfolding step
  step-Owed moves s t (echo p e d) = rw (type, handles_echo p e d) refl
  step-Owed moves s t (expired n v l) = rw (type, n, garbage_expired v l) refl
  step-Owed moves s t (unreachable n v l r) = rw (type, n, garbage_alive v l, r) refl

  -- A packet whose header does not hold is dropped, if it is no echo request.
  pub step-drops :
      (moves : Bool) (s : Router)
      → (icmp_handler links m).0 ≡ false
      → ip_checksum header_offset (iphdr_bytes (ip_hdr m)) ≢ 0
      → step links malloc rounds fuel saved rtable moves m s ≡ done (send [] s)
  unfolding step
  step-drops moves s n v = rw (type, n, garbage_invalid v) refl

  Owed-lt : (t : ℕ) → Owed links rounds rtable m t → t < 256
  Owed-lt t (echo p e d) = omega arith
  Owed-lt t (expired n v l) = omega arith
  Owed-lt t (unreachable n v l r) = omega arith

module _ (links : Links) (ws : IsLinks links) (malloc : Cells → ℕ) (rounds fuel saved : ℕ)
    (rtable : List RtableEntry) where
  -- For a packet with a payload of MAX_LEN bytes of type IP that is an echo request to the router,
  -- or no such request but has a header that holds and a TTL below 2 or no route, and with
  -- addresses of the right sizes from the system, a round sends one ICMP message and changes
  -- nothing else: an echo reply with the identifier and the sequence number of the request, time
  -- exceeded, or destination unreachable, of 42 bytes, on the interface of the packet, from the
  -- router's addresses to the sender of the packet, with the packet's TTL and an IP and an ICMP
  -- checksum that hold.
  pub step-replies :
      (moves : Bool) (s : Router) (m : Packet) (t : ℕ)
      → length m.payload ≡ max_len
      → IsBytes m.payload
      → (eth_hdr m).ether_type ≡ ethertype_ip
      → Owed links rounds rtable m t
      → (reply : Packet) × (step links malloc rounds fuel saved rtable moves m s
          ≡ done (send (reply ∷ []) s))
        × IsReply links m t reply
  step-replies moves s m t full w type o = (
    send_icmp links m t,
    step-Owed links malloc rounds fuel saved rtable m type moves s t o,
    send_icmp-IsReply links ws m full w t
        (Owed-lt links malloc rounds fuel saved rtable m type t o),
  )
