-- ===== src/Pubsub/Server/Invariant/Sockets.antt =====
-- The watched descriptors through a new connection, a disconnection and a change of a client that
-- leaves its socket alone; and the search for the client of a socket.
use teme_pcom_anul_2_sem.Prelude.{
  ℕ, ◌≡◌, ◌≢◌, [], ◌∷◌, true, Text, text_discrete, none, some, ite, arith, ap, inl, inr, max, ◌==◌,
  Bool-cases,
}
use teme_pcom_anul_2_sem.Dict.{lookup, IsOrdered, lookup_behind}
use teme_pcom_anul_2_sem.Pubsub.Client.{Client}
use teme_pcom_anul_2_sem.Pubsub.Server.State.{ClientMap, FdSet, fd_set, fd_clr}
use teme_pcom_anul_2_sem.Pubsub.Server.Loop.{id_of_socket}
use teme_pcom_anul_2_sem.Pubsub.Server.Invariant.Defs.{IsClient, SocketsInv}

-- The search finds the name of a client on the socket, if there is one.
pub lookup-id_of_socket :
    (fd : ℕ) (m : ClientMap) (k : Text) (c : Client)
    → IsOrdered m
    → lookup k m ≡ some c
    → c.client_socket ≡ fd
    → (d : Client) × (lookup (id_of_socket fd m) m ≡ some d) × (d.client_socket ≡ fd)
unfolding id_of_socket lookup
lookup-id_of_socket fd [] k c o h e = cc
lookup-id_of_socket fd ((j, w) ∷ m) k c o h e = elim (Bool-cases (w.client_socket == fd)) [
  | inl hit ↦ (w, ground arith, ground arith)
  | inr miss ↦
      let (d, held, s) = lookup-id_of_socket fd m k c o.1 (ground arith) e in
      (d, ground (arith, lookup_behind j (id_of_socket fd m) m o.0 held), s)
]

module _ {fds : FdSet} {connected : ClientMap} {tcp udp fdmax : ℕ}
    (inv : SocketsInv fds connected tcp udp fdmax) where
  -- A client `id` comes to stand under a descriptor that was not watched.
  pub SocketsInv-join :
      (id : Text) (new_fd : ℕ) (c : Client) (connected' : ClientMap)
      → lookup id connected ≡ none
      → fds new_fd ≢ true
      → IsClient tcp udp new_fd
      → c.client_socket ≡ new_fd
      → ((j : Text) → lookup j connected' ≡ ite (text_discrete id j) (some c) (lookup j connected))
      → SocketsInv (fd_set new_fd fds) connected' tcp udp (max fdmax new_fd)
  SocketsInv-join id new_fd c connected' away fresh own on joined = record {
    watched = λ k d h. ground (arith, joined k, inv.watched k d);
    apart = λ k d h. ground (arith, joined k, inv.apart k d);
    owned = λ fd w cl. elim (Bool-cases (fd == new_fd)) [
      | inl e ↦ (id, c, ground (arith, joined id), ground arith)
      | inr n ↦
          let (k, d, h, s) = inv.owned fd (ground arith) cl in
          (k, d, ground (arith, joined k, ap (λ (i : Text). lookup i connected)), s)
    ];
    distinct = λ j k d e h i same.
        ground (arith, joined j, joined k, inv.distinct j k d e, inv.watched j d, inv.watched k e);
    bound = λ fd w. ground (arith, inv.bound fd);
  }

  -- The client `id` on the descriptor `fd` leaves, and `fd` is watched no more.
  pub SocketsInv-leave :
      (id : Text) (fd : ℕ) (c : Client) (connected' : ClientMap)
      → lookup id connected ≡ some c
      → c.client_socket ≡ fd
      → ((j : Text) → lookup j connected' ≡ ite (text_discrete id j) none (lookup j connected))
      → SocketsInv (fd_clr fd fds) connected' tcp udp fdmax
  SocketsInv-leave id fd c connected' held on left = record {
    watched = λ k d h. ground (arith, left k, inv.watched k d, inv.distinct id k c d);
    apart = λ k d h. ground (arith, left k, inv.apart k d);
    owned = λ g w cl.
        let (k, d, h, s) = inv.owned g (ground arith) cl in
        (k, d, ground (arith, left k, ap (λ (i : Text). lookup i connected)), s);
    distinct = λ j k d e h i same. ground (arith, left j, left k, inv.distinct j k d e);
    bound = λ g w. ground (arith, inv.bound g);
  }

  -- The client `id` changes, and keeps its socket.
  pub SocketsInv-mark :
      (id : Text) (c c' : Client) (connected' : ClientMap)
      → lookup id connected ≡ some c
      → c'.client_socket ≡ c.client_socket
      → ((j : Text) → lookup j connected' ≡ ite (text_discrete id j) (some c') (lookup j connected))
      → SocketsInv fds connected' tcp udp fdmax
  SocketsInv-mark id c c' connected' held same marked = record {
    watched = λ k d h. ground (arith, marked k, inv.watched k d, inv.watched id c);
    apart = λ k d h. ground (arith, marked k, inv.apart k d, inv.apart id c);
    owned = λ fd w cl.
        let (k, d, h, s) = inv.owned fd w cl in
        elim (text_discrete id k) [
          | yes p ↦ (
            k,
            c',
            ground (arith, marked k),
            ground (arith, ap (λ (i : Text). lookup i connected) p),
          )
          | no n ↦ (k, d, ground (arith, marked k), s)
        ];
    distinct = λ j k d e h i s. ground (
      arith,
      marked j,
      marked k,
      inv.distinct j k d e,
      inv.distinct j id d c,
      inv.distinct id k c e,
    );
    bound = inv.bound;
  }
