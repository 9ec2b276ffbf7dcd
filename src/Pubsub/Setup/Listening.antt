-- ===== src/Pubsub/Setup/Listening.antt =====
-- The setup of the server and of the subscriber when the system grants every call.
use teme_pcom_anul_2_sem.Prelude.{
  ℕ, ◌%◌, ◌^◌, ◌≡◌, refl, arith, none, some, List, [], ◌∷◌, Option, Text, strtol, to_size, be_bytes,
}
use teme_pcom_anul_2_sem.Pubsub.Setup.{
  SockaddrIn, Call, socket_stream, socket_dgram, no_delay, bind_to, listen_on, connect_to,
  send_frame, System, ready, exited_early, set_outside, initialise_sockets, sockaddr_struct_init,
  bind_sockets, disable_nagle, max_clients, positive_int, server_setup, subscriber_setup, af_inet,
}

-- Every call returns a number.
abbrev pub GrantsAll : System → Type 0
GrantsAll sys = (log : List Call) (c : Call) → (r : ℕ) × (sys log c ≡ some r)

module _ (sys : System) (grants : GrantsAll sys) (program port : Text) where
  -- The descriptors of the three sockets that the server opens.
  abbrev unused : ℕ
  unused = (grants [] socket_stream).0

  abbrev udp : ℕ
  udp = (grants (socket_stream ∷ []) socket_dgram).0

  abbrev tcp : ℕ
  tcp = (grants (socket_stream ∷ socket_dgram ∷ []) socket_stream).0

  -- With a positive port the server listens on the second socket for TCP and is bound to the port
  -- on both sockets that it keeps; the first one is not used again.
  server_setup_listens :
      (port_no : ℕ)
      → positive_int port ≡ some port_no
      → let addr = sockaddr_struct_init port_no in
        server_setup sys (program ∷ port ∷ []) [] ≡ (
          ready (tcp, udp),
          socket_stream
              ∷ socket_dgram
              ∷ socket_stream
              ∷ no_delay tcp
              ∷ bind_to tcp addr
              ∷ bind_to udp addr
              ∷ listen_on tcp max_clients
              ∷ [],
        )
  unfolding server_setup initialise_sockets bind_sockets disable_nagle
  server_setup_listens port_no h =
      let addr = sockaddr_struct_init port_no in
      let three = socket_stream ∷ socket_dgram ∷ socket_stream ∷ [] in
      ground (
        arith,
        (grants [] socket_stream).1,
        (grants (socket_stream ∷ []) socket_dgram).1,
        (grants (socket_stream ∷ socket_dgram ∷ []) socket_stream).1,
        (grants three (no_delay tcp)).1,
        h,
        (grants (socket_stream ∷ socket_dgram ∷ socket_stream ∷ no_delay tcp ∷ [])
            (bind_to tcp addr)).1,
        (grants
            (socket_stream ∷ socket_dgram ∷ socket_stream ∷ no_delay tcp ∷ bind_to tcp addr ∷ [])
            (bind_to udp addr)).1,
        (grants
            (socket_stream
              ∷ socket_dgram
              ∷ socket_stream
              ∷ no_delay tcp
              ∷ bind_to tcp addr
              ∷ bind_to udp addr
              ∷ [])
            (listen_on tcp max_clients)).1,
      )

  -- Without one it leaves before it binds a socket.
  server_setup_rejects :
      positive_int port ≡ none
      → server_setup sys (program ∷ port ∷ []) []
        ≡ (exited_early, socket_stream ∷ socket_dgram ∷ socket_stream ∷ no_delay tcp ∷ [])
  unfolding server_setup initialise_sockets disable_nagle
  server_setup_rejects h = ground (
    arith,
    (grants [] socket_stream).1,
    (grants (socket_stream ∷ []) socket_dgram).1,
    (grants (socket_stream ∷ socket_dgram ∷ []) socket_stream).1,
    (grants (socket_stream ∷ socket_dgram ∷ socket_stream ∷ []) (no_delay tcp)).1,
    h,
  )

-- A second socket that does not open goes into the set all the same.
server_setup_outside :
    (sys : System) (program port : Text) (a b : ℕ)
    → sys [] socket_stream ≡ some a
    → sys (socket_stream ∷ []) socket_dgram ≡ some b
    → sys (socket_stream ∷ socket_dgram ∷ []) socket_stream ≡ none
    → server_setup sys (program ∷ port ∷ []) []
      ≡ (set_outside, socket_stream ∷ socket_dgram ∷ socket_stream ∷ [])
unfolding server_setup initialise_sockets
server_setup_outside sys program port a b ha hb hc = ground (arith, ha, hb, hc)

-- A port that does not fit 16 bits is cut.
port_is_cut : (sockaddr_struct_init 65616).sin_port ≡ (sockaddr_struct_init 80).sin_port
port_is_cut = refl

-- The subscriber connects one socket and sends its name first.
subscriber_setup_connects :
    (sys : System) (grants : GrantsAll sys) (inet_aton : Text → Option ℕ)
    (program id server_ip port : Text) (address : ℕ)
    → inet_aton server_ip ≡ some address
    → let sockfd = (grants [] socket_stream).0 in
      let addr : SockaddrIn = record {
        sin_family = af_inet;
        sin_port = be_bytes (to_size (strtol port) % 2 ^ 16);
        s_addr = address;
      } in
      subscriber_setup sys inet_aton (program ∷ id ∷ server_ip ∷ port ∷ []) []
      ≡ (ready sockfd, socket_stream ∷ connect_to sockfd addr ∷ send_frame sockfd id ∷ [])
unfolding subscriber_setup
subscriber_setup_connects sys grants inet_aton program id server_ip port address h =
    let sockfd = (grants [] socket_stream).0 in
    let addr : SockaddrIn = record {
      sin_family = af_inet;
      sin_port = be_bytes (to_size (strtol port) % 2 ^ 16);
      s_addr = address;
    } in
    ground (
      arith,
      h,
      (grants [] socket_stream).1,
      (grants (socket_stream ∷ []) (connect_to sockfd addr)).1,
      (grants (socket_stream ∷ connect_to sockfd addr ∷ []) (send_frame sockfd id)).1,
    )
