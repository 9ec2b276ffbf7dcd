-- ===== src/Router/Main/Received.antt =====
-- What the loop of router.c receives into `m`, and what a round leaves in it.
use teme_pcom_anul_2_sem.Prelude.{
  ℕ, ◌+◌, ◌-◌, get_or, ◌≡◌, ◌≤◌, ◌<◌, inl, inr, List, [], ◌∷◌, arith, length, IsBytes, none, some,
  Option, Option-cases, Bool-cases, ◌==◌,
}
use teme_pcom_anul_2_sem.Router.Route.{RtableEntry}
use teme_pcom_anul_2_sem.Router.Headers.{Packet, Links, max_len, ethertype_ip, eth_hdr}
use teme_pcom_anul_2_sem.Router.Icmp.{icmp_handler, is_garbage}
use teme_pcom_anul_2_sem.Router.Icmp.Replies.{IsLinks}
use teme_pcom_anul_2_sem.Router.Queue.{Cells}
use teme_pcom_anul_2_sem.Router.Arp.{search_entries}
use teme_pcom_anul_2_sem.Router.Loop.{Router, updated}
use teme_pcom_anul_2_sem.Router.Loop.Frames.{IsFrame, updated-IsFrame, resolved-IsFrame}
use teme_pcom_anul_2_sem.Router.Loop.Invariant.{search_entries-HasMac}
use teme_pcom_anul_2_sem.Router.Loop.Sound.{IsSound, IsSearched}
use teme_pcom_anul_2_sem.Router.Loop.Outgoing.{IsOutgoing}
use teme_pcom_anul_2_sem.Router.Receive.{
  router_num_interfaces, select, Received, packet_received, stopped, waits, socket_receive_message,
  first_set, get_packet,
}
use teme_pcom_anul_2_sem.Router.Receive.First.{filled-IsFrame}
use teme_pcom_anul_2_sem.Router.Main.{m_after}

-- What `read` gives are bytes, and no more than MAX_LEN of them.
abbrev pub GivesBytes : (ℕ → Option (List ℕ)) → Type 0
GivesBytes read =
    (fd : ℕ) (bytes : List ℕ) → read fd ≡ some bytes → IsBytes bytes × (length bytes ≤ max_len)

-- A packet that is received is a frame from an interface of the array.
abbrev pub ReceivesOutgoing : Received → Type 0
ReceivesOutgoing (packet_received m) = IsOutgoing m
ReceivesOutgoing stopped = Unit
ReceivesOutgoing waits = Unit

-- The interface that is found is one of those searched.
first_set-inside :
    (set : List ℕ) (i : ℕ) (interfaces : List ℕ) (j fd : ℕ)
    → first_set set i interfaces ≡ some (j, fd)
    → j < i + length interfaces
unfolding first_set
first_set-inside set i [] j fd h = absurd cc
first_set-inside set i (x ∷ interfaces) j fd h =
    ground (arith, h, first_set-inside set (i + 1) interfaces j fd)

pub get_packet-ReceivesOutgoing :
    (read : ℕ → Option (List ℕ)) (interfaces : List ℕ) (answers : List (Option (List ℕ)))
    (m : Packet)
    → GivesBytes read
    → length interfaces ≡ router_num_interfaces
    → IsFrame m
    → ReceivesOutgoing (get_packet read interfaces answers m)
unfolding get_packet socket_receive_message
get_packet-ReceivesOutgoing read interfaces [] m g three f = tt
get_packet-ReceivesOutgoing read interfaces (none ∷ answers) m g three f = tt
get_packet-ReceivesOutgoing read interfaces (some readable ∷ answers) m g three f =
    let nfds = get_or interfaces (router_num_interfaces - 1) 0 + 1 in
    elim (Option-cases (first_set (select nfds interfaces readable) 0 interfaces)) [
      | inl none_set ↦
          rw (get_packet, none_set)
            (get_packet-ReceivesOutgoing read interfaces answers m g three f)
      | inr (found, set) ↦ elim (Option-cases (read found.1)) [
        | inl failed ↦ rw (get_packet, set, failed) tt
        | inr (bytes, got) ↦
            let b = g found.1 bytes got in
            rw (get_packet, set, got)
              (record {
                frame = filled-IsFrame bytes found.0 m b.1 b.0 f;
                inside = omega (
                  arith,
                  three,
                  first_set-inside (select nfds interfaces readable) 0 interfaces found.0 found.1
                      set,
                );
              })
      ]
    ]

module _ (links : Links) (ws : IsLinks links) (macs : (i : ℕ) → IsBytes (links.mac_of i))
    (malloc : Cells → ℕ) (rounds fuel saved : ℕ) (rtable : List RtableEntry) where
  -- What a round leaves in `m` is a frame, too.
  pub m_after-IsFrame :
      (m : Packet) (s : Router) (n : ℕ)
      → IsFrame m
      → IsSound rounds rtable saved n s
      → (((eth_hdr m).ether_type ≡ ethertype_ip) → IsSearched rounds rtable m)
      → IsFrame (m_after links malloc rounds fuel saved rtable m s)
  unfolding m_after
  m_after-IsFrame m s n f i r = elim (Bool-cases ((eth_hdr m).ether_type == ethertype_ip)) [
    | inr other ↦ rw other f
    | inl ip ↦
        let w = r (ground (arith, ip)) in
        elim (Bool-cases (icmp_handler links m).0) [
          | inl echo ↦ rw (ip, echo) f
          | inr no_echo ↦ elim (Bool-cases (is_garbage links m).0) [
            | inl bad ↦ rw (ip, no_echo, bad) f
            | inr good ↦ elim (Option-cases w.0) [
              | inl unreachable ↦ rw (ip, no_echo, good, w.1, unreachable) f
              | inr (route, e) ↦
                  elim (Option-cases (search_entries s.arp_table.entries route.next_hop)) [
                    | inl unknown ↦
                        rw (ip, no_echo, good, w.1, e, i.live, unknown) (updated-IsFrame m f)
                    | inr (entry, known) ↦
                        rw (ip, no_echo, good, w.1, e, i.live, known)
                          (resolved-IsFrame links ws macs (updated m) route entry
                            (updated-IsFrame m f)
                            (search_entries-HasMac s.arp_table.entries route.next_hop entry i.macs
                              known))
                  ]
            ]
          ]
        ]
  ]
