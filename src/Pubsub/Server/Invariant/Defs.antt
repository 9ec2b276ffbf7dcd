-- ===== src/Pubsub/Server/Invariant/Defs.antt =====
-- What holds of the maps and of the watched descriptors of server.cpp between two system calls.
use teme_pcom_anul_2_sem.Prelude.{ℕ, ◌≡◌, ◌≢◌, ◌≤◌, [], true, Text, none, some}
use teme_pcom_anul_2_sem.Dict.{Dict, lookup, IsOrdered}
use teme_pcom_anul_2_sem.Pubsub.Client.{Client}
use teme_pcom_anul_2_sem.Pubsub.Server.State.{Server, ClientMap, FdSet}

-- A client is connected or stored, not both; only stored clients have a queue, and each of them
-- has a topic with store-and-forward.
pub record ClientsInv (connected saved : ClientMap) : Type 0 where
  pub ordered : IsOrdered connected
  pub ordered_saved : IsOrdered saved
  pub named : (k : Text) (c : Client) → lookup k connected ≡ some c → c.id ≡ k
  pub idle : (k : Text) (c : Client) → lookup k connected ≡ some c → c.missed ≡ []
  pub apart : (k : Text) (c : Client) → lookup k connected ≡ some c → lookup k saved ≡ none
  pub stored : (k : Text) (c : Client) → lookup k saved ≡ some c → c.id ≡ k
  pub keeps : (k : Text) (c : Client) → lookup k saved ≡ some c → c.sf ≢ []

-- Each topic lists a client once, under its name.
pub record TopicsInv (topics : Dict ClientMap) : Type 0 where
  pub ordered : (t : Text) (m : ClientMap) → lookup t topics ≡ some m → IsOrdered m
  pub named :
      (t : Text) (m : ClientMap) (k : Text) (c : Client)
      → lookup t topics ≡ some m
      → lookup k m ≡ some c
      → c.id ≡ k

-- A descriptor that is neither standard input nor one of the two sockets of the server.
pub record IsClient (tcp udp fd : ℕ) : Type 0 where
  pub not_stdin : fd ≢ 0
  pub not_tcp : fd ≢ tcp
  pub not_udp : fd ≢ udp

-- The watched descriptors of clients are the sockets of the connected clients, one each.
pub record SocketsInv (fds : FdSet) (connected : ClientMap) (tcp udp fdmax : ℕ) : Type 0 where
  pub watched : (k : Text) (c : Client) → lookup k connected ≡ some c → fds c.client_socket ≡ true
  pub apart :
      (k : Text) (c : Client) → lookup k connected ≡ some c → IsClient tcp udp c.client_socket
  pub owned :
      (fd : ℕ)
      → fds fd ≡ true
      → IsClient tcp udp fd
      → (k : Text) × (c : Client) × (lookup k connected ≡ some c) × (c.client_socket ≡ fd)
  pub distinct :
      (j k : Text) (c d : Client)
      → lookup j connected ≡ some c
      → lookup k connected ≡ some d
      → c.client_socket ≡ d.client_socket
      → j ≡ k
  pub bound : (fd : ℕ) → fds fd ≡ true → fd ≤ fdmax

pub record Inv (s : Server) : Type 0 where
  pub clients : ClientsInv s.connected s.saved
  pub topics : TopicsInv s.topics
  pub sockets : SocketsInv s.read_fds s.connected s.tcp_sockfd s.udp_sockfd s.fdmax
