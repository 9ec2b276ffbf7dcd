-- ===== src/Pubsub/Server/Preservation/Connection.antt =====
-- A new connection keeps the invariant.
use teme_pcom_anul_2_sem.Prelude.{
  ℕ, ◌≡◌, refl, [], ◌∷◌, ◌++◌, Text, none, some, arith, Option-cases, inl, inr, max, ◌==◌,
  Bool-cases, length,
}
use teme_pcom_anul_2_sem.Dict.{lookup, insert, lookup-insert}
use teme_pcom_anul_2_sem.Pubsub.Message.{buff_len}
use teme_pcom_anul_2_sem.Pubsub.Client.{Client, new_client}
use teme_pcom_anul_2_sem.Pubsub.Server.State.{Server, print, ClientMap, fd_set}
use teme_pcom_anul_2_sem.Pubsub.Server.Sessions.{already_connected}
use teme_pcom_anul_2_sem.Pubsub.Server.Reconnection.{send_missed-Reconnects, send_missed-none}
use teme_pcom_anul_2_sem.Pubsub.Server.Loop.{
  Env, welcome, admit_client, handle_id, handle_connection,
}
use teme_pcom_anul_2_sem.Pubsub.Server.Invariant.{
  Inv, ClientsInv-insert, ClientsInv-reconnect, SocketsInv-join,
}
use teme_pcom_anul_2_sem.Pubsub.Server.Preservation.Defs.{IsSane, IsFresh, Keeps, Handles}
use teme_pcom_anul_2_sem.Pubsub.Server.Preservation.Frames.{c_string-zero_filled, received-ok}

module _ (env : Env) (s : Server) (i : ℕ) (inv : Inv s) where
  Keeps-same : Keeps env s i s
  Keeps-same = record {
    inv = inv;
    tcp = refl;
    udp = refl;
    gained = λ j h. inl h;
    still = λ j n h. h;
    below = omega arith;
  }

  module _ (fresh : IsFresh env s) (at_tcp : i ≡ s.tcp_sockfd) (id : Text)
      (away : lookup id s.connected ≡ none) where
    -- The state after the client `id` came to the accepted descriptor.
    abbrev arrived : ClientMap → ClientMap → Server
    arrived connected' saved' = record s {
      connected = connected';
      saved = saved';
      read_fds = fd_set env.accepted s.read_fds;
      fdmax = max s.fdmax env.accepted;
    }

    Keeps-arrived :
        (connected' saved' : ClientMap)
        → Inv (arrived connected' saved')
        → Keeps env s i (arrived connected' saved')
    Keeps-arrived connected' saved' inv' = record {
      inv = inv';
      tcp = refl;
      udp = refl;
      gained = λ j h. ground arith;
      still = λ j n h. ground arith;
      below = omega arith;
    }

    handle_id-new : lookup id s.saved ≡ none → Handles env s i (handle_id env s id)
    unfolding handle_id already_connected admit_client new_client
    handle_id-new unknown =
        let client = new_client env.accepted id in
        let connected' = insert id client s.connected in
        (
          arrived connected' s.saved,
          [] ++ print (welcome env.client_addr id) ∷ [],
          ground (arith, send_missed-none s.saved s.connected id env.accepted unknown),
          Keeps-arrived connected' s.saved (record {
            clients = ClientsInv-insert inv.clients id env.accepted away unknown;
            topics = inv.topics;
            sockets =
                SocketsInv-join inv.sockets id env.accepted client connected' away fresh.unwatched
                  fresh.client refl (λ j. lookup-insert j id client s.connected away);
          }),
        )

    handle_id-back :
        (c : Client) → lookup id s.saved ≡ some c → Handles env s i (handle_id env s id)
    unfolding handle_id already_connected admit_client
    handle_id-back c held =
        let (r, e, rec) =
          send_missed-Reconnects s.saved s.connected id env.accepted c held away inv.clients.ordered
            inv.clients.ordered_saved in
        (
          arrived r.connected r.saved,
          r.sent ++ print (welcome env.client_addr id) ∷ [],
          ground arith,
          Keeps-arrived r.connected r.saved (record {
            clients = ClientsInv-reconnect inv.clients id env.accepted c r held rec;
            topics = inv.topics;
            sockets =
                SocketsInv-join inv.sockets id env.accepted
                  (record c { client_socket = env.accepted; missed = [] }) r.connected away
                  fresh.unwatched fresh.client refl rec.joined;
          }),
        )

  handle_id-Handles :
      IsFresh env s → i ≡ s.tcp_sockfd → (id : Text) → Handles env s i (handle_id env s id)
  unfolding handle_id already_connected
  handle_id-Handles fresh at_tcp id = elim (Option-cases (lookup id s.connected)) [
    | inr (c, held) ↦
        (s, (already_connected env.accepted s.connected id).1, ground arith, Keeps-same)
    | inl away ↦ elim (Option-cases (lookup id s.saved)) [
      | inl unknown ↦ handle_id-new fresh at_tcp id away unknown
      | inr (c, held) ↦ handle_id-back fresh at_tcp id away c held
    ]
  ]

  pub handle_connection-Handles :
      IsSane env → IsFresh env s → i ≡ s.tcp_sockfd → Handles env s i (handle_connection env s)
  unfolding handle_connection
  handle_connection-Handles sane fresh at_tcp =
      let frame = env.frame_on env.accepted in
      let (id, e) = c_string-zero_filled buff_len frame sane.name in
      elim (Bool-cases (length frame == 0)) [
        | inl empty ↦
            (s, [], ground (arith, received-ok frame (omega (arith, sane.name))), Keeps-same)
        | inr full ↦
            let (s', es, f, k) = handle_id-Handles fresh at_tcp id in
            (s', es, ground (arith, received-ok frame (omega (arith, sane.name))), k)
      ]
