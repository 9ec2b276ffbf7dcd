-- ===== src/Pubsub/Server/Preservation/Requests.antt =====
-- A request of a client, and its disconnection, keep the invariant.
use teme_pcom_anul_2_sem.Prelude.{
  ℕ, ◌≡◌, ◌≢◌, refl, List, [], ◌∷◌, true, Text, some, arith, Option-cases, ap, inl, inr, ◌==◌,
  Bool-cases, length, ◌≤◌, codes,
}
use teme_pcom_anul_2_sem.Dict.{Dict, lookup}
use teme_pcom_anul_2_sem.Pubsub.Message.{
  FromTcp, tcp_topic, zero_filled, from_tcp_size, from_tcp_of, unsubscribe_type, subscribe_type,
}
use teme_pcom_anul_2_sem.Pubsub.Client.{Client, add_sf}
use teme_pcom_anul_2_sem.Pubsub.Server.State.{
  Server, Effect, Result, ok, ClientMap, FdSet, print_error, send, opcode, already_sub_code,
  no_topic_code,
}
use teme_pcom_anul_2_sem.Pubsub.Server.Topics.{
  Subscription, subscribe, unsubscribe, msg_from_client,
}
use teme_pcom_anul_2_sem.Pubsub.Server.Disconnection.{client_disconnected-Disconnects}
use teme_pcom_anul_2_sem.Pubsub.Server.Subscriptions.{
  subscribers, with_sf, subscribe-Subscribes, subscribe_again, unsubscribe-Unsubscribes,
  unsubscribe_missing,
}
use teme_pcom_anul_2_sem.Pubsub.Server.Loop.{Env, request_of, id_of_socket, handle_client}
use teme_pcom_anul_2_sem.Pubsub.Server.Invariant.{
  Inv, IsClient, ClientsInv-subscribe, ClientsInv-disconnect, TopicsInv-subscribe,
  TopicsInv-unsubscribe, SocketsInv-mark, SocketsInv-leave, lookup-id_of_socket,
  subscribers-IsOrdered,
}
use teme_pcom_anul_2_sem.Pubsub.Server.Preservation.Defs.{IsSane, Handles}
use teme_pcom_anul_2_sem.Pubsub.Server.Preservation.Frames.{received-ok}

pub request_of-ok :
    (frame : List ℕ)
    → length frame ≤ from_tcp_size
    → request_of frame ≡ ok (from_tcp_of (zero_filled from_tcp_size frame))
unfolding request_of
request_of-ok frame h = ground arith

with_sf-socket : (sf : ℕ) (t : Text) (c : Client) → (with_sf sf t c).client_socket ≡ c.client_socket
unfolding with_sf add_sf
with_sf-socket sf t c = ground arith

module _ (s : Server) (inv : Inv s) (id : Text) (c : Client)
    (held : lookup id s.connected ≡ some c) where
  -- The state after a request.
  abbrev requested : Subscription → Server
  requested r = record s { topics = r.topics; connected = r.connected }

  -- A request ends normally, and keeps the invariant.
  abbrev Answers : Result Subscription → Type 0
  Answers o = (r : Subscription) × (o ≡ ok r) × Inv (requested r)

  subscribe-Answers :
      (i : ℕ) (msg : FromTcp) (t : Text)
      → tcp_topic msg ≡ some t
      → Answers (subscribe i msg s.topics s.connected id)
  subscribe-Answers i msg t named = elim (Option-cases (lookup id (subscribers t s.topics))) [
    | inr (e, old) ↦ (
      record {
        topics = s.topics;
        connected = s.connected;
        sent = send i (opcode already_sub_code) ∷ [];
      },
      subscribe_again i msg s.topics s.connected id t c named held e old,
      inv,
    )
    | inl new ↦
        let (r, e, sub) =
          subscribe-Subscribes i msg s.topics s.connected id t c named held new inv.clients.ordered
            (subscribers-IsOrdered inv.topics t) in
        (
          r,
          e,
          record {
            clients = ClientsInv-subscribe inv.clients i msg t id c r held sub.marked sub.ordered;
            topics =
                TopicsInv-subscribe inv.topics i msg t s.connected id c r
                  (inv.clients.named id c held) sub;
            sockets =
                SocketsInv-mark inv.sockets id c (with_sf msg.sf t c) r.connected held
                  (with_sf-socket msg.sf t c) sub.marked;
          },
        )
  ]

  -- `unsubscribe` in the form in which `msg_from_client` uses it.
  unsubscribe-Inv :
      (i : ℕ) (msg : FromTcp) (t : Text)
      → tcp_topic msg ≡ some t
      → (u : Dict ClientMap × List Effect) × (unsubscribe i msg s.topics id ≡ ok u)
        × Inv (record s { topics = u.0 })
  unsubscribe-Inv i msg t named = elim (Option-cases (lookup t s.topics)) [
    | inl new ↦ (
      (s.topics, send i (opcode no_topic_code) ∷ []),
      unsubscribe_missing i msg s.topics id t named new,
      inv,
    )
    | inr (m, old) ↦
        let (u, e, un) =
          unsubscribe-Unsubscribes i msg s.topics id t named m old (inv.topics.ordered t m old) in
        (
          u,
          e,
          record {
            clients = inv.clients;
            topics = TopicsInv-unsubscribe inv.topics i t id u un;
            sockets = inv.sockets;
          },
        )
  ]

  msg_from_client-Answers :
      (i : ℕ) (msg : FromTcp) (t : Text)
      → tcp_topic msg ≡ some t
      → Answers (msg_from_client i msg s.topics s.connected id)
  unfolding msg_from_client
  msg_from_client-Answers i msg t named = elim (Bool-cases (msg.type == unsubscribe_type)) [
    | inl leave ↦
        let (u, e, k) = unsubscribe-Inv i msg t named in
        (record { topics = u.0; connected = s.connected; sent = u.1 }, ground arith, k)
    | inr other ↦ elim (Bool-cases (msg.type == subscribe_type)) [
      | inl join ↦ let (r, e, k) = subscribe-Answers i msg t named in (r, ground arith, k)
      | inr unknown ↦ (
        record {
          topics = s.topics;
          connected = s.connected;
          sent = print_error (codes "Unknown message type.") ∷ [];
        },
        ground arith,
        inv,
      )
    ]
  ]

module _ (env : Env) (s : Server) (i : ℕ) (inv : Inv s) where
  -- An empty frame: the client of the descriptor leaves.
  disconnect-Handles :
      (id : Text) (c : Client)
      → id_of_socket i s.connected ≡ id
      → lookup id s.connected ≡ some c
      → c.client_socket ≡ i
      → length (env.frame_on i) ≡ 0
      → Handles env s i (handle_client env s i)
  unfolding handle_client
  disconnect-Handles id c searched held on empty =
      let (d, e, dis) =
        client_disconnected-Disconnects i s.read_fds id s.connected s.saved c held
          (inv.clients.apart id c held) inv.clients.ordered inv.clients.ordered_saved in
      let frame = env.frame_on i in
      (
        record s { saved = d.saved; connected = d.connected; read_fds = d.read_fds },
        d.effects,
        ground (
          arith,
          received-ok frame (omega (arith, empty)),
          request_of-ok frame (omega (arith, empty)),
        ),
        record {
          inv = record {
            clients = ClientsInv-disconnect inv.clients i s.read_fds id c d held dis;
            topics = inv.topics;
            sockets =
                rw dis.unwatched (SocketsInv-leave inv.sockets id i c d.connected held on dis.left);
          };
          tcp = refl;
          udp = refl;
          gained = λ j h. ground (arith, ap (λ (f : FdSet). f j) dis.unwatched);
          still = λ j n h. ground (arith, ap (λ (f : FdSet). f j) dis.unwatched);
          below = omega arith;
        },
      )

  pub handle_client-Handles :
      IsSane env
      → s.read_fds i ≡ true
      → IsClient s.tcp_sockfd s.udp_sockfd i
      → i ≢ env.accepted
      → Handles env s i (handle_client env s i)
  unfolding handle_client
  handle_client-Handles sane ready own other =
      let frame = env.frame_on i in
      let short = sane.request i other in
      let (k, c, held, on) = inv.sockets.owned i ready own in
      let (d, found, on') = lookup-id_of_socket i s.connected k c inv.clients.ordered held on in
      let id = id_of_socket i s.connected in
      elim (Bool-cases (length frame == 0)) [
        | inl empty ↦ disconnect-Handles id d refl found on' (ground arith)
        | inr full ↦
            let msg = from_tcp_of (zero_filled from_tcp_size frame) in
            let (t, named) = sane.topic i msg (request_of-ok frame short) in
            let (r, e, k) = msg_from_client-Answers s inv id d found i msg t named in
            (
              requested s inv id d found r,
              r.sent,
              ground (arith, received-ok frame (omega (arith, short)), request_of-ok frame short),
              record {
                inv = k;
                tcp = refl;
                udp = refl;
                gained = λ j h. inl h;
                still = λ j n h. h;
                below = omega arith;
              },
            )
      ]
