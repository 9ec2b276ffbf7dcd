-- ===== src/Router/Receive.antt =====
-- The sockets of Tema-1-PCom/skel.c: how a packet is received from an interface and written to one.
-- The answers of `select` and `read` are arguments.
pub mod First
pub mod Wire
pub mod Interfaces
use teme_pcom_anul_2_sem.Prelude.{
  ℕ, ◌+◌, ◌-◌, Bool, true, false, ◌&&◌, ◌||◌, Option, none, some, List, [], ◌∷◌, ◌==◌, ltb,
  if◌then◌else◌, length, take, get_or, get_elem?, write_at,
}
use teme_pcom_anul_2_sem.Router.Headers.{Packet}

-- `ROUTER_NUM_INTERFACES`
abbrev pub router_num_interfaces : ℕ
router_num_interfaces = 3

-- How `get_packet` ends: with the packet, by DIE, or still waiting after the last answer of
-- `select`.
pub data Received : Type 0 where
  packet_received : Packet → Received
  stopped : Received
  waits : Received

-- `socket_receive_message`: what `read` gives, `none` for −1, over what the packet holds.
unfoldable pub socket_receive_message : Option (List ℕ) → Packet → Option Packet
socket_receive_message none m = none
socket_receive_message (some bytes) m =
    some (record m { len = length bytes; payload = write_at 0 bytes m.payload })

-- `FD_ISSET`
abbrev pub fd_isset : List ℕ → ℕ → Bool
fd_isset [] fd = false
fd_isset (f ∷ set) fd = fd == f || fd_isset set fd

-- What `select` leaves of the set of descriptors: those below `nfds` that are readable.
abbrev pub select : ℕ → List ℕ → List ℕ → List ℕ
select nfds [] readable = []
select nfds (fd ∷ set) readable =
    let rest = select nfds set readable in
    if ltb fd nfds && fd_isset readable fd then fd ∷ rest else rest

-- The inner loop of `get_packet` from interface `i` on: the first one in the set. The array of the
-- interfaces has ROUTER_NUM_INTERFACES entries.
unfoldable pub first_set : List ℕ → ℕ → List ℕ → Option (ℕ × ℕ)
first_set set i [] = none
first_set set i (fd ∷ interfaces) =
    let rest = first_set set (i + 1) interfaces in if fd_isset set fd then some (i, fd) else rest

-- `get_packet`, with the answers of `select`, `none` for −1.
unfoldable pub get_packet :
    (ℕ → Option (List ℕ)) → List ℕ → List (Option (List ℕ)) → Packet → Received
unfolding first_set socket_receive_message
get_packet read interfaces [] m = waits
get_packet read interfaces (none ∷ answers) m = stopped
get_packet read interfaces (some readable ∷ answers) m =
    let nfds = get_or interfaces (router_num_interfaces - 1) 0 + 1 in
    let set = select nfds interfaces readable in
    let rest = get_packet read interfaces answers m in
    elim (first_set set 0 interfaces) [
      | none ↦ rest
      | some found ↦ elim (socket_receive_message (read found.1) m) [
        | none ↦ stopped
        | some m' ↦ packet_received (record m' { interface = found.0 })
      ]
    ]

-- `send_packet`: the descriptor and the bytes that are written, `none` for an interface that is not
-- in the array.
unfoldable pub send_packet : List ℕ → Packet → Option (ℕ × List ℕ)
send_packet interfaces m = elim (get_elem? interfaces m.interface) [
  | none ↦ none
  | some fd ↦ some (fd, take m.len m.payload)
]
