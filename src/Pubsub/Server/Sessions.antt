-- ===== src/Pubsub/Server/Sessions.antt =====
-- Connections in server_funs.cpp: `already_connected`, `send_missed`, `welcome`,
-- `client_disconnected` and `close_all`.
use teme_pcom_anul_2_sem.Prelude.{
  ℕ, zero, suc, ◌+◌, Bool, true, false, List, [], ◌∷◌, ◌++◌, Text, codes, Option, none, some, ◌==◌,
  ◌||◌, if◌then◌else◌, is_some,
}
use teme_pcom_anul_2_sem.Dict.{lookup, insert, erase, modify}
use teme_pcom_anul_2_sem.Pubsub.Message.{CliMsg}
use teme_pcom_anul_2_sem.Pubsub.Client.{Client, set_client_socket, pop_missed}
use teme_pcom_anul_2_sem.Pubsub.Server.State.{
  Effect, send, close, print, opcode, message, Result, ok, ◌>>=◌, or_fault, out_of_range, ClientMap,
  FdSet, fd_clr, exit_code,
}

unfoldable pub already_connected : ℕ → ClientMap → Text → Bool × List Effect
already_connected new_fd clients id =
    if is_some (lookup id clients)
    then (
      true,
      print (codes "Client " ++ (id ++ codes " already connected."))
          ∷ send new_fd (opcode exit_code)
          ∷ close new_fd
          ∷ [],
    )
    else (false, [])

-- The loop of `send_missed` over the queue of the saved client `id`: each round sends the front
-- and pops it. The queue is the one that `saved` holds under `id`.
unfoldable pub drain_missed : List CliMsg → Text → ℕ → ClientMap → ClientMap × List Effect × ℕ
drain_missed [] id new_fd saved = (saved, [], 0)
drain_missed (msg ∷ queue) id new_fd saved =
    let (saved', sent, missed) = drain_missed queue id new_fd (modify id pop_missed saved) in
    (saved', send new_fd (message msg) ∷ sent, suc missed)

pub record Reconnection : Type 0 where
  pub saved : ClientMap
  pub connected : ClientMap
  pub sent : List Effect
  pub missed : ℕ

-- What follows the loop: the client moves from the saved map to the connected one.
unfoldable pub move_client : Text → ℕ → ClientMap → ClientMap → Result (ClientMap × ClientMap)
move_client id new_fd saved connected = do
  let renewed = modify id (set_client_socket new_fd) saved
  client ← or_fault (lookup id renewed) out_of_range
  ok (erase id renewed, insert id client connected)

-- `ok none` is the return value -1.
unfoldable pub send_missed : ClientMap → ClientMap → Text → ℕ → Result (Option Reconnection)
unfolding drain_missed move_client
send_missed saved connected id new_fd = elim (lookup id saved) [
  | none ↦ ok none
  | some client ↦
      let (drained, sent, missed) = drain_missed client.missed id new_fd saved in
      do
        (saved', connected') ← move_client id new_fd drained connected
        ok (some (record { saved = saved'; connected = connected'; sent = sent; missed = missed }))
]

pub record Disconnection : Type 0 where
  pub saved : ClientMap
  pub connected : ClientMap
  pub read_fds : FdSet
  pub effects : List Effect

unfoldable pub store_client : Text → Client → List Text → ClientMap → ClientMap
store_client id client [] saved = saved
store_client id client (topic ∷ sf) saved = insert id client saved

unfoldable pub client_disconnected : ℕ → FdSet → Text → ClientMap → ClientMap → Result Disconnection
unfolding store_client
client_disconnected sockfd read_fds id connected saved = do
  client ← or_fault (lookup id connected) out_of_range
  ok (record {
    saved = store_client id client client.sf saved;
    connected = erase id connected;
    read_fds = fd_clr sockfd read_fds;
    effects = print (codes "Client " ++ (id ++ codes " disconnected.")) ∷ close sockfd ∷ [];
  })

-- The loop of `close_all` from descriptor `i` on, with `n` descriptors left.
unfoldable pub close_clients : ℕ → ℕ → FdSet → (tcp udp : ℕ) → List Effect
close_clients zero i read_fds tcp udp = []
close_clients (suc n) i read_fds tcp udp =
    let rest = close_clients n (i + 1) read_fds tcp udp in
    if read_fds i
    then (if (i == tcp) || (i == udp) then rest else send i (opcode exit_code) ∷ close i ∷ rest)
    else rest

unfoldable pub close_all : FdSet → (tcp udp fdmax : ℕ) → List Effect
unfolding close_clients
close_all read_fds tcp udp fdmax =
    close_clients fdmax 1 read_fds tcp udp ++ close tcp ∷ close udp ∷ []
