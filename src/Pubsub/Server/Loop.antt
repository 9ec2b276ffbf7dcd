-- ===== src/Pubsub/Server/Loop.antt =====
-- `main` of server.cpp: one descriptor of the inner loop, the inner loop, and one round.
use teme_pcom_anul_2_sem.Prelude.{
  ℕ, zero, suc, ◌+◌, ◌*◌, Bool, true, false, List, [], ◌∷◌, ◌++◌, Text, text_discrete, codes,
  Option, none, some, ◌==◌, ◌&&◌, leb, max, ite, if◌then◌else◌, length, get_or, take, c_string,
  to_string, inet_ntoa,
}
use teme_pcom_anul_2_sem.Dict.{lookup, insert}
use teme_pcom_anul_2_sem.Pubsub.Message.{
  FromUdp, FromTcp, CliMsg, Address, buff_len, from_tcp_size, zero_filled, from_tcp_of, udp_topic,
}
use teme_pcom_anul_2_sem.Pubsub.Client.{new_client}
use teme_pcom_anul_2_sem.Pubsub.Server.State.{
  Server, Effect, print, print_error, Result, ok, fault, ◌>>=◌, or_fault, overrun, unterminated,
  out_of_fuel, ClientMap, FdSet, fd_set,
}
use teme_pcom_anul_2_sem.Pubsub.Server.Sessions.{
  already_connected, Reconnection, send_missed, client_disconnected, close_all,
}
use teme_pcom_anul_2_sem.Pubsub.Server.Topics.{new_topic, send_new_msg, msg_from_client}

-- What the system calls of one round return: the datagram and its sender, the accepted connection,
-- and the frame that `proto_recv` reads from a descriptor.
pub record Env : Type 0 where
  pub datagram : FromUdp
  pub sender : Address
  pub accepted : ℕ
  pub client_addr : Address
  pub frame_on : ℕ → List ℕ

-- What a step leaves: the variables, and what was sent and printed, in order.
abbrev pub Outcome : Type 0
Outcome = Result (Server × List Effect)

-- `ntohs` of a port in network order.
unfoldable pub port_number : List ℕ → ℕ
port_number port = get_or port 0 0 * 256 + get_or port 1 0

unfoldable pub welcome : Address → Text → Text
unfolding inet_ntoa to_string port_number
welcome addr id =
    codes "New client "
    ++ (id
        ++ (codes " connected from "
            ++ (inet_ntoa addr.ip ++ (codes ":" ++ to_string (port_number addr.port)))))

-- `buffer` after `proto_recv`, which zeroes it first.
unfoldable pub received : List ℕ → Result (List ℕ)
unfolding zero_filled
received frame =
    if leb (length frame) buff_len then ok (zero_filled buff_len frame) else fault overrun

-- `memset` and `memcpy(&msg, buffer, size)`
unfoldable pub request_of : List ℕ → Result FromTcp
unfolding zero_filled from_tcp_of
request_of frame =
    if leb (length frame) from_tcp_size
    then ok (from_tcp_of (zero_filled from_tcp_size frame))
    else fault overrun

-- The search of the connected clients for the one on a socket; the empty string if there is none.
unfoldable pub id_of_socket : ℕ → ClientMap → Text
id_of_socket fd [] = []
id_of_socket fd ((id, client) ∷ clients) =
    if client.client_socket == fd then id else id_of_socket fd clients

-- `for_client`: the datagram with the address of its sender.
unfoldable pub message_of : Env → CliMsg
message_of env = record { recv_msg = env.datagram; ip = env.sender.ip; port = env.sender.port }

-- The branch of the UDP socket.
unfoldable pub handle_datagram : Env → Server → Outcome
unfolding udp_topic new_topic send_new_msg
handle_datagram env s = do
  topic ← or_fault (udp_topic env.datagram) unterminated
  elim (lookup topic s.topics) [
    | none ↦ ok (record s { topics = new_topic s.topics topic }, [])
    | some topic_map ↦
        let (saved', sent) = send_new_msg (message_of env) s.connected topic topic_map s.saved in
        ok (record s { saved = saved' }, sent)
  ]

-- A client that was not stored is new.
unfoldable pub admit_client : ℕ → Text → Server → Option Reconnection → Server × List Effect
unfolding new_client
admit_client new_fd id s none =
    (record s { connected = insert id (new_client new_fd id) s.connected }, [])
admit_client new_fd id s (some r) = (record s { saved = r.saved; connected = r.connected }, r.sent)

-- The branch of the TCP socket, behind `accept` and the test for an empty frame. The room of
-- `FD_SET` is that of Pubsub/Server/Main.
unfoldable pub handle_id : Env → Server → Text → Outcome
unfolding already_connected admit_client
handle_id env s id =
    let (refused, effects) = already_connected env.accepted s.connected id in
    if refused then ok (s, effects) else do
      let watched = record s {
        read_fds = fd_set env.accepted s.read_fds;
        fdmax = max s.fdmax env.accepted;
      }
      missed ← send_missed s.saved s.connected id env.accepted
      let (s', sent) = admit_client env.accepted id watched missed
      ok (s', sent ++ print (welcome env.client_addr id) ∷ [])

unfoldable pub handle_connection : Env → Server → Outcome
unfolding received c_string handle_id
handle_connection env s = do
  buffer ← received (env.frame_on env.accepted)
  if length (env.frame_on env.accepted) == 0
      then ok (s, [])
      else do id ← or_fault (c_string buffer) unterminated; handle_id env s id

-- The branch of a client's socket.
unfoldable pub handle_client : Env → Server → ℕ → Outcome
unfolding received request_of id_of_socket client_disconnected msg_from_client
handle_client env s i = do
  buffer ← received (env.frame_on i)
  msg ← request_of (env.frame_on i)
  let id = id_of_socket i s.connected
  if length (env.frame_on i) == 0
      then (do
        d ← client_disconnected i s.read_fds id s.connected s.saved
        ok (
          record s { saved = d.saved; connected = d.connected; read_fds = d.read_fds },
          d.effects,
        ))
      else (do
        r ← msg_from_client i msg s.topics s.connected id
        ok (record s { topics = r.topics; connected = r.connected }, r.sent))

-- The body of the inner loop at a descriptor that is ready.
unfoldable pub handle : Env → Server → ℕ → Outcome
unfolding handle_datagram handle_connection handle_client
handle env s i =
    if i == s.udp_sockfd
    then handle_datagram env s
    else if i == s.tcp_sockfd
    then handle_connection env s
    else handle_client env s i

-- The inner loop from descriptor `i` on. It reads `fdmax` anew each time, which a connection may
-- have raised, so it runs on fuel.
unfoldable pub handle_fds : ℕ → Env → FdSet → ℕ → Server → Outcome
unfolding handle
handle_fds zero env ready i s = fault out_of_fuel
handle_fds (suc fuel) env ready i s =
    if leb i s.fdmax
    then (do
      (s', effects) ← if ready i then handle env s i else ok (s, [])
      (s'', later) ← handle_fds fuel env ready (i + 1) s'
      ok (s'', effects ++ later))
    else ok (s, [])

-- `stdin_exit` on the bytes that `read` returned: is it `exit`?
unfoldable pub is_exit : List ℕ → Bool
unfolding text_discrete
is_exit input = ite (text_discrete (take 4 input) (codes "exit")) true false

-- The descriptors that `main` watches first, and the greatest of the two sockets.
unfoldable pub set_sockets : ℕ → ℕ → FdSet × ℕ
set_sockets tcp udp = (fd_set udp (fd_set tcp (fd_set 0 (λ _. false))), max tcp udp)

-- The variables of `main` before its loop.
unfoldable pub start : ℕ → ℕ → Server
unfolding set_sockets
start tcp udp = record {
  tcp_sockfd = tcp;
  udp_sockfd = udp;
  connected = [];
  saved = [];
  topics = [];
  read_fds = (set_sockets tcp udp).0;
  fdmax = (set_sockets tcp udp).1;
}

pub data Round : Type 0 where
  exited : List Effect → Round
  continued : Server → List Effect → Round

-- The body of the outer loop. `stdin` is what `read` returned if standard input is ready.
unfoldable pub round : ℕ → Env → FdSet → List ℕ → Server → Result Round
unfolding handle_fds is_exit close_all
round fuel env ready stdin s =
    if ready 0 && is_exit stdin
    then ok (exited (close_all s.read_fds s.tcp_sockfd s.udp_sockfd s.fdmax))
    else (do
      (s', effects) ← handle_fds fuel env ready 1 s
      ok (
          continued s'
            ((if ready 0 then print_error (codes "Unknown command.") ∷ [] else []) ++ effects)))
