-- ===== src/Router/Main.antt =====
-- The loop of `main` of Tema-1-PCom/router.c, with the packets that get_packet receives.
pub mod Received
pub mod Writing
pub mod Soundness
use teme_pcom_anul_2_sem.Prelude.{
  ℕ, Bool, true, false, Option, none, some, List, [], ◌∷◌, ◌==◌, if◌then◌else◌, length, drop,
}
use teme_pcom_anul_2_sem.Router.Route.{RtableEntry}
use teme_pcom_anul_2_sem.Router.Headers.{Packet, Links, ethertype_ip, eth_hdr, ip_hdr}
use teme_pcom_anul_2_sem.Router.Icmp.{icmp_handler, is_garbage}
use teme_pcom_anul_2_sem.Router.Queue.{Cells}
use teme_pcom_anul_2_sem.Router.Outcome.{Outcome, done, fault, endless, ◌>>=◌, best_route}
use teme_pcom_anul_2_sem.Router.Arp.{search_arp}
use teme_pcom_anul_2_sem.Router.Loop.{Router, updated, resolved, step}
use teme_pcom_anul_2_sem.Router.Receive.{packet_received, stopped, waits, get_packet, send_packet}

-- What the system does in a round: the answers of `select`, what `read` gives from a descriptor,
-- whether `realloc` moves the ARP table, and whether a `write` to a descriptor succeeds.
pub record Round : Type 0 where
  pub answers : List (Option (List ℕ))
  pub read : ℕ → Option (List ℕ)
  pub moves : Bool
  pub write : ℕ → List ℕ → Bool

-- How the calls of `send_packet` in a round end: all of them return, one dies on a failed `write`,
-- or one takes an interface that is not in the array.
pub data Written : Type 0 where
  all_written : Written
  failed : Written
  no_interface : Written

-- The calls of `send_packet`, one after the other.
unfoldable pub write_all : List ℕ → (ℕ → List ℕ → Bool) → List Packet → Written
unfolding send_packet
write_all interfaces write [] = all_written
write_all interfaces write (m ∷ ms) =
    let rest = write_all interfaces write ms in
    elim (send_packet interfaces m) [
      | none ↦ no_interface
      | some (fd, bytes) ↦ if write fd bytes then rest else failed
    ]

-- The packets that a round has sent, of which the first `before` were sent earlier.
abbrev pub sent_after : ℕ → Router → List Packet
sent_after before s = drop before s.waiting.sent

module _ (links : Links) (malloc : Cells → ℕ) (rounds fuel saved : ℕ)
    (rtable : List RtableEntry) where
  -- The variable `m` after the round: a packet with a route has been changed in place.
  unfoldable pub m_after : Packet → Router → Packet
  m_after m s =
      if (eth_hdr m).ether_type == ethertype_ip
      then if (icmp_handler links m).0
        then m
        else if (is_garbage links m).0
        then m
        else elim (best_route rounds rtable (ip_hdr m).daddr) [
          | done found ↦ elim found [
            | none ↦ m
            | some route ↦ elim (search_arp s.arp_table route.next_hop) [
              | done entry ↦ elim entry [
                | none ↦ updated m
                | some e ↦ resolved links (updated m) route e
              ]
              | fault ↦ updated m
              | endless ↦ updated m
            ]
          ]
          | fault ↦ m
          | endless ↦ m
        ]
      else m

  -- One round with the packet that get_packet has received, and the packets that it sends; `none`
  -- if the process ends at a failed `write`. The addresses of an interface are read for the
  -- interface of the packet received or of one that is sent.
  unfoldable pub round : List ℕ → Round → Packet → Router → Outcome (Option Router)
  unfolding write_all
  round interfaces r m s = do
    s' ← step links malloc rounds fuel saved rtable r.moves m s
    elim (write_all interfaces r.write (sent_after (length s.waiting.sent) s')) [
      | all_written ↦ done (some s')
      | failed ↦ done none
      | no_interface ↦ fault
    ]

  -- The loop, whose one variable `m` receives every packet. It stops if the process ends in
  -- get_packet or send_packet or waits in get_packet, or when the rounds are used up; the result is
  -- the state before the round in which it stops.
  unfoldable pub main_loop : List ℕ → List Round → Packet → Router → Outcome Router
  unfolding m_after round
  main_loop interfaces [] m s = done s
  main_loop interfaces (r ∷ rs) m s = elim (get_packet r.read interfaces r.answers m) [
    | packet_received m' ↦ round interfaces r m' s >>= λ o. elim o [
      | none ↦ done s
      | some s' ↦ main_loop interfaces rs (m_after m' s) s'
    ]
    | stopped ↦ done s
    | waits ↦ done s
  ]
