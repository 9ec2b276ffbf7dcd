-- ===== src/Router/Main/Soundness.antt =====
-- The loop of router.c from its start faults nowhere.
use teme_pcom_anul_2_sem.Prelude.{
  ℕ, suc, ◌≡◌, ◌<◌, ◌⊎◌, inl, refl, false, List, [], ◌∷◌, arith, length, IsBytes, none, some,
  Option,
}
use teme_pcom_anul_2_sem.Router.Route.{RtableEntry}
use teme_pcom_anul_2_sem.Router.Headers.{Packet, Links, ethertype_ip, eth_hdr}
use teme_pcom_anul_2_sem.Router.Icmp.Replies.{IsLinks}
use teme_pcom_anul_2_sem.Router.Queue.{Cells, load}
use teme_pcom_anul_2_sem.Router.Outcome.{Outcome, done, ◌>>=◌, Ends, After, Whenever, Ends-After}
use teme_pcom_anul_2_sem.Router.Loop.{Router, arp_max_size, start}
use teme_pcom_anul_2_sem.Router.Loop.Frames.{IsFrame}
use teme_pcom_anul_2_sem.Router.Loop.Sound.{IsSound, IsSearched, IsReceived}
use teme_pcom_anul_2_sem.Router.Loop.Rounds.{Disturbs}
use teme_pcom_anul_2_sem.Router.Loop.Outgoing.{IsWired}
use teme_pcom_anul_2_sem.Router.Main.Received.{
  GivesBytes, ReceivesOutgoing, get_packet-ReceivesOutgoing, m_after-IsFrame,
}
use teme_pcom_anul_2_sem.Router.Main.Writing.{Survives, round-IsSound}
use teme_pcom_anul_2_sem.Router.Receive.{
  router_num_interfaces, packet_received, stopped, waits, get_packet,
}
use teme_pcom_anul_2_sem.Router.Main.{Round, m_after, round, main_loop}

-- From round `n` on, `read` gives bytes, no more than there is room for, and `realloc` leaves the
-- table in place once ARP_MAX_SIZE rounds have passed.
abbrev pub Arrivals : ℕ → List Round → Type 0
Arrivals n [] = Unit
Arrivals n (r ∷ rs) =
    ((r.moves ≡ false) ⊎ (n < arp_max_size)) × GivesBytes r.read × Arrivals (suc n) rs

-- The process goes on, in a state of which `P` holds.
abbrev pub Resumes : (Router → Type 0) → Option Router → Type 0
Resumes P none = ⊥
Resumes P (some s) = P s

module _ (links : Links) (malloc : Cells → ℕ) (rounds fuel saved : ℕ) (rtable : List RtableEntry)
    (interfaces : List ℕ) where
  -- In some round an ARP reply arrives while a packet waits.
  abbrev pub IsDisturbed : List Round → Packet → Router → Type 0
  IsDisturbed [] m s = ⊥
  IsDisturbed (r ∷ rs) m s = elim (get_packet r.read interfaces r.answers m) [
    | packet_received m' ↦
        Disturbs m' s
        ⊎ After (Resumes (IsDisturbed rs (m_after links malloc rounds fuel saved rtable m' s)))
            (round links malloc rounds fuel saved rtable interfaces r m' s)
    | stopped ↦ ⊥
    | waits ↦ ⊥
  ]

module _ (links : Links) (malloc : Cells → ℕ) (rounds fuel saved : ℕ) (rtable : List RtableEntry)
    (interfaces : List ℕ) where
  -- In every round that receives a packet of type IP, the search for its target returns.
  abbrev pub IsAnswered : List Round → Packet → Router → Type 0
  IsAnswered [] m s = Unit
  IsAnswered (r ∷ rs) m s = elim (get_packet r.read interfaces r.answers m) [
    | packet_received m' ↦
        (((eth_hdr m').ether_type ≡ ethertype_ip) → IsSearched rounds rtable m')
        × Whenever (Survives (IsAnswered rs (m_after links malloc rounds fuel saved rtable m' s)))
            (round links malloc rounds fuel saved rtable interfaces r m' s)
    | stopped ↦ Unit
    | waits ↦ Unit
  ]

-- Some number of rounds has passed, and the invariant holds.
abbrev pub StaysSound : ℕ → List RtableEntry → ℕ → Router → Type 0
StaysSound rounds rtable saved s = (n : ℕ) × IsSound rounds rtable saved n s

pub start-IsSound :
    (rounds saved : ℕ) (rtable : List RtableEntry) → IsSound rounds rtable saved 0 start
start-IsSound rounds saved rtable = record {
  live = refl;
  macs = tt;
  few = omega arith;
  inside = omega arith;
  room = omega arith;
  waiting = record { count = 0; queue = refl; saved_packet = inl refl; sent = tt };
}

-- The rest of the loop, if the process goes on.
resumed_lem :
    (D A P Q : Router → Type 0) (s : Router) (on : Router → Outcome Router)
    → Q s
    → ((t : Router) → P t → A t → Ends (D t) Q (on t))
    → (o : Option Router) → Survives P o
    → Survives A o
    → Ends (Resumes D o) Q (elim o as (λ o. Outcome Router) [ none ↦ done s | some t ↦ on t ])
resumed_lem D A P Q s on q h none p a = q
resumed_lem D A P Q s on q h (some t) p a = h t p a

module _ (links : Links) (ws : IsLinks links) (macs : (i : ℕ) → IsBytes (links.mac_of i))
    (malloc : Cells → ℕ) (unused : (h : Cells) → load h (malloc h) ≡ none) (rounds fuel saved : ℕ)
    (rtable : List RtableEntry) (enough : 0 < fuel) (interfaces : List ℕ)
    (three : length interfaces ≡ router_num_interfaces) (wired : IsWired rtable) where
  main_loop-IsSound_from :
      (rs : List Round) (n : ℕ) (m : Packet) (s : Router)
      → IsSound rounds rtable saved n s
      → IsFrame m
      → Arrivals n rs
      → IsAnswered links malloc rounds fuel saved rtable interfaces rs m s
      → Ends
          (IsDisturbed links malloc rounds fuel saved rtable interfaces rs m s)
          (StaysSound rounds rtable saved)
          (main_loop links malloc rounds fuel saved rtable interfaces rs m s)
  unfolding main_loop
  main_loop-IsSound_from [] n m s i f a c = (n, i)
  main_loop-IsSound_from (r ∷ rs) n m s i f a c =
      (elim (get_packet r.read interfaces r.answers m)
          as (λ o.
            ReceivesOutgoing o
            → (elim o as (λ q. Type 0) [
              | packet_received m' ↦
                  (((eth_hdr m').ether_type ≡ ethertype_ip) → IsSearched rounds rtable m')
                  × Whenever
                      (Survives (
                        IsAnswered links malloc rounds fuel saved rtable interfaces rs
                          (m_after links malloc rounds fuel saved rtable m' s)))
                      (round links malloc rounds fuel saved rtable interfaces r m' s)
              | stopped ↦ Unit
              | waits ↦ Unit
            ])
            → Ends
                (elim o [
                  | packet_received m' ↦
                      Disturbs m' s
                      ⊎ After
                          (Resumes (
                            IsDisturbed links malloc rounds fuel saved rtable interfaces rs
                              (m_after links malloc rounds fuel saved rtable m' s)))
                          (round links malloc rounds fuel saved rtable interfaces r m' s)
                  | stopped ↦ ⊥
                  | waits ↦ ⊥
                ])
                (StaysSound rounds rtable saved)
                (elim o [
                  | packet_received m' ↦
                      round links malloc rounds fuel saved rtable interfaces r m' s >>= λ o.
                      elim o [
                        | none ↦ done s
                        | some s' ↦
                            main_loop links malloc rounds fuel saved rtable interfaces rs
                              (m_after links malloc rounds fuel saved rtable m' s) s'
                      ]
                  | stopped ↦ done s
                  | waits ↦ done s
                ])) [
                  | packet_received m' ↦ λ f' q.
                      let w : IsReceived rounds rtable m' = record {
                        outgoing = f';
                        searched = q.0;
                      } in
                      let after = m_after links malloc rounds fuel saved rtable m' s in
                      let D =
                        IsDisturbed links malloc rounds fuel saved rtable interfaces rs after in
                      let A =
                        IsAnswered links malloc rounds fuel saved rtable interfaces rs after in
                      let on : Router → Outcome Router =
                        main_loop links malloc rounds fuel saved rtable interfaces rs after in
                      Ends-After (Disturbs m' s) (Resumes D)
                        (Survives (IsSound rounds rtable saved (suc n))) (Survives A)
                        (StaysSound rounds rtable saved)
                        (round links malloc rounds fuel saved rtable interfaces r m' s)
                        (λ o. elim o as (λ o. Outcome Router) [ none ↦ done s | some s' ↦ on s' ])
                        (round-IsSound links ws macs malloc unused rounds fuel saved rtable
                          interfaces n r m' s three i w wired a.0 enough)
                        q.1
                        (λ o j d.
                          resumed_lem D A (IsSound rounds rtable saved (suc n))
                            (StaysSound rounds rtable saved) s on (n, i)
                            (λ t j d.
                              main_loop-IsSound_from rs (suc n) after t j
                                (m_after-IsFrame links ws macs malloc rounds fuel saved rtable m' s
                                  n f'.frame i q.0)
                                a.2 d)
                            o j d)
                  | stopped ↦ λ u v. (n, i)
                  | waits ↦ λ u v. (n, i)
                ])
        (get_packet-ReceivesOutgoing r.read interfaces r.answers m a.1 three f) c

-- With addresses of the right sizes and of bytes from the system, malloc giving unused addresses,
-- fuel above 0 for the queue, as many interfaces as ROUTER_NUM_INTERFACES, and a routing table
-- whose routes name one of them, the loop of main of router.c, from its start with any frame in m,
-- whatever writes fail, never takes an interface that is not in the array, the ARP table through a
-- pointer that no longer holds, or a packet that was not stored, if read always gives bytes, no
-- more than MAX_LEN of them, realloc moves the ARP table in none but the first ARP_MAX_SIZE
-- rounds, the search of the routing table returns for the target of each packet of type IP that is
-- received, and the variable saved, which is read behind the end of its block only in a round in
-- which an ARP reply arrives while a packet waits in the queue, keeps its bytes; it does not end
-- only if there is such a round; otherwise, when the process ends in get_packet or at a failed
-- write, waits in get_packet, or the rounds are used up, the invariant of IsSound held before the
-- round in which it stops, for some number of rounds: the pointer to the ARP table is valid, its
-- entries have six bytes each, are no more than the rounds and lie in its room, the queue holds
-- the address of saved only, with a routed frame there if the queue is not empty, and every packet
-- sent is a frame for an interface of the array.
pub main_loop-IsSound :
    (links : Links) (ws : IsLinks links) (macs : (i : ℕ) → IsBytes (links.mac_of i))
    (malloc : Cells → ℕ) (unused : (h : Cells) → load h (malloc h) ≡ none) (rounds fuel saved : ℕ)
    (rtable : List RtableEntry) (enough : 0 < fuel) (interfaces : List ℕ)
    (three : length interfaces ≡ router_num_interfaces) (wired : IsWired rtable) (rs : List Round)
    (m : Packet)
    → IsFrame m
    → Arrivals 0 rs
    → IsAnswered links malloc rounds fuel saved rtable interfaces rs m start
    → Ends
        (IsDisturbed links malloc rounds fuel saved rtable interfaces rs m start)
        (StaysSound rounds rtable saved)
        (main_loop links malloc rounds fuel saved rtable interfaces rs m start)
main_loop-IsSound links ws macs malloc unused rounds fuel saved rtable enough interfaces three wired
      rs m =
    main_loop-IsSound_from links ws macs malloc unused rounds fuel saved rtable enough interfaces
      three wired rs 0 m start (start-IsSound rounds saved rtable)
