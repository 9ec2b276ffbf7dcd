-- ===== src/Router/Main/Writing.antt =====
-- A round of the loop of router.c with its writes: the invariant, and the interfaces that it takes.
use teme_pcom_anul_2_sem.Prelude.{
  ℕ, suc, ◌≡◌, ◌≢◌, ◌<◌, ◌⊎◌, Bool, false, List, [], ◌∷◌, Option, none, some, length, refl, take,
  arith, IsBytes, All, Bool-cases, inl, inr,
}
use teme_pcom_anul_2_sem.Router.Route.{RtableEntry}
use teme_pcom_anul_2_sem.Router.Route.Search.{get_elem-inside}
use teme_pcom_anul_2_sem.Router.Headers.{Packet, Links}
use teme_pcom_anul_2_sem.Router.Icmp.Replies.{IsLinks}
use teme_pcom_anul_2_sem.Router.Queue.{Cells, load}
use teme_pcom_anul_2_sem.Router.Outcome.{Outcome, done, fault, Ends, Ends->>=}
use teme_pcom_anul_2_sem.Router.Loop.{Router, arp_max_size, step}
use teme_pcom_anul_2_sem.Router.Loop.Outgoing.{IsOutgoing, IsWired, drop-All}
use teme_pcom_anul_2_sem.Router.Loop.Sound.{IsSound, IsReceived}
use teme_pcom_anul_2_sem.Router.Loop.Rounds.{Disturbs, step-IsSound}
use teme_pcom_anul_2_sem.Router.Receive.{router_num_interfaces, send_packet}
use teme_pcom_anul_2_sem.Router.Main.{
  Round, Written, all_written, failed, no_interface, write_all, sent_after, round,
}

-- Every packet for an interface of the array has a descriptor.
write_all-inside :
    (interfaces : List ℕ) (write : ℕ → List ℕ → Bool) (ms : List Packet)
    → length interfaces ≡ router_num_interfaces
    → All IsOutgoing ms
    → write_all interfaces write ms ≢ no_interface
unfolding write_all send_packet
write_all-inside interfaces write [] three w = λ e. absurd cc
write_all-inside interfaces write (m ∷ ms) three w =
    let (fd, plugged) = get_elem-inside interfaces m.interface (omega (arith, three, w.0.inside)) in
    let rest = write_all-inside interfaces write ms three w.1 in
    elim (Bool-cases (write fd (take m.len m.payload))) [
      | inl good ↦ rw (write_all, send_packet, plugged, good) rest
      | inr bad ↦ rw (write_all, send_packet, plugged, bad) (λ e. absurd cc)
    ]

-- If the process goes on, the state satisfies `P`.
abbrev pub Survives : (Router → Type 0) → Option Router → Type 0
Survives P none = Unit
Survives P (some s) = P s

module _ (links : Links) (ws : IsLinks links) (macs : (i : ℕ) → IsBytes (links.mac_of i))
    (malloc : Cells → ℕ) (unused : (h : Cells) → load h (malloc h) ≡ none) (rounds fuel saved : ℕ)
    (rtable : List RtableEntry) where
  written_lem :
      (D : Type 0) (n : ℕ) (s : Router) (w : Written)
      → IsSound rounds rtable saved n s
      → w ≢ no_interface
      → Ends D
          (Survives (IsSound rounds rtable saved n))
          (elim w as (λ w. Outcome (Option Router)) [
            | all_written ↦ done (some s)
            | failed ↦ done none
            | no_interface ↦ fault
          ])
  written_lem D n s all_written i h = i
  written_lem D n s failed i h = tt
  written_lem D n s no_interface i h = absurd (h refl)

  -- With addresses of the right sizes and of bytes from the system, malloc giving unused
  -- addresses, fuel above 0 for the queue, as many interfaces as ROUTER_NUM_INTERFACES, a routing
  -- table whose routes name one of them, a state in which the invariant IsSound holds after n
  -- rounds, and a frame from one of the interfaces that, if it is of type IP, has a target for
  -- which the search of the routing table returns, a round in which realloc leaves the ARP table
  -- in place, or with n below ARP_MAX_SIZE, ends at a write that fails or in a state in which
  -- IsSound holds after one round more; it does not end only if the frame is an ARP reply and a
  -- packet waits in the queue, and it takes no interface that is not in the array, no ARP table
  -- through a pointer that no longer holds and no packet that was not stored, where the variable
  -- saved keeps its bytes behind the end of its block, which matters only if the frame is an ARP
  -- reply and a packet waits.
  pub round-IsSound :
      (interfaces : List ℕ) (n : ℕ) (r : Round) (m : Packet) (s : Router)
      → length interfaces ≡ router_num_interfaces
      → IsSound rounds rtable saved n s
      → IsReceived rounds rtable m
      → IsWired rtable
      → (r.moves ≡ false) ⊎ (n < arp_max_size)
      → 0 < fuel
      → Ends
          (Disturbs m s)
          (Survives (IsSound rounds rtable saved (suc n)))
          (round links malloc rounds fuel saved rtable interfaces r m s)
  unfolding round
  round-IsSound interfaces n r m s three i w wired stays enough =
      Ends->>= (Disturbs m s) (IsSound rounds rtable saved (suc n))
        (Survives (IsSound rounds rtable saved (suc n)))
        (step links malloc rounds fuel saved rtable r.moves m s) _
        (step-IsSound links ws macs malloc unused rounds fuel saved rtable n r.moves m s i w wired
          stays enough)
        (λ s' j. written_lem (Disturbs m s) (suc n) s' _ j (
          write_all-inside interfaces r.write (sent_after (length s.waiting.sent) s') three
            (drop-All IsOutgoing (length s.waiting.sent) s'.waiting.sent j.waiting.sent)))
