-- ===== src/Pubsub/Server/Preservation/Defs.antt =====
-- What is assumed of one round's system calls, and what a handler leaves.
use teme_pcom_anul_2_sem.Prelude.{ℕ, ◌≡◌, ◌≢◌, ◌≤◌, ◌<◌, ◌⊎◌, List, true, Text, some, length, max}
use teme_pcom_anul_2_sem.Pubsub.Message.{FromTcp, tcp_topic, udp_topic, from_tcp_size, buff_len}
use teme_pcom_anul_2_sem.Pubsub.Server.State.{Server, Effect, ok}
use teme_pcom_anul_2_sem.Pubsub.Server.Loop.{Env, Outcome, request_of}
use teme_pcom_anul_2_sem.Pubsub.Server.Invariant.{IsClient, Inv}

-- The topic of the datagram ends inside it; a name fits the buffer; a request is no longer than
-- its structure, and its topic ends inside it.
pub record IsSane (env : Env) : Type 0 where
  pub datagram : (t : Text) × (udp_topic env.datagram ≡ some t)
  pub name : length (env.frame_on env.accepted) < buff_len
  pub request : (fd : ℕ) → fd ≢ env.accepted → length (env.frame_on fd) ≤ from_tcp_size
  pub topic :
      (fd : ℕ) (m : FromTcp)
      → request_of (env.frame_on fd) ≡ ok m
      → (t : Text) × (tcp_topic m ≡ some t)

-- `accept` returns a descriptor that was not open.
pub record IsFresh (env : Env) (s : Server) : Type 0 where
  pub unwatched : s.read_fds env.accepted ≢ true
  pub client : IsClient s.tcp_sockfd s.udp_sockfd env.accepted

-- The state `s'` that the handler of the descriptor `i` leaves.
pub record Keeps (env : Env) (s : Server) (i : ℕ) (s' : Server) : Type 0 where
  pub inv : Inv s'
  pub tcp : s'.tcp_sockfd ≡ s.tcp_sockfd
  pub udp : s'.udp_sockfd ≡ s.udp_sockfd
  pub gained :
      (j : ℕ)
      → s'.read_fds j ≡ true
      → (s.read_fds j ≡ true) ⊎ ((j ≡ env.accepted) × (i ≡ s.tcp_sockfd))
  pub still : (j : ℕ) → j ≢ i → s.read_fds j ≡ true → s'.read_fds j ≡ true
  pub below : s'.fdmax ≤ max s.fdmax env.accepted

-- The handler ends normally, in such a state.
abbrev pub Handles : Env → Server → ℕ → Outcome → Type 0
Handles env s i o = (s' : Server) × (es : List Effect) × (o ≡ ok (s', es)) × Keeps env s i s'
