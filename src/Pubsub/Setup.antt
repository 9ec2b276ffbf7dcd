-- ===== src/Pubsub/Setup.antt =====
-- What the two programs of Tema-2-PCom do before their loops: the sockets of server_funs.cpp and
-- server.cpp, and those of subscriber.cpp. The answers of the system are an argument: the number
-- that a call returns after the calls before it, `none` for a negative one, on which DIE ends the
-- process.
pub mod Listening
use teme_pcom_anul_2_sem.Prelude.{
  ℕ, ◌+◌, ◌%◌, ◌^◌, ◌*◌, Bool, true, false, ◌||◌, not, Option, none, some, List, [], ◌∷◌, ◌++◌,
  ◌==◌, if◌then◌else◌, length, Text, strtol, to_size, be_bytes, ltb,
}

-- `struct sockaddr_in`, its port as it lies in memory.
pub record SockaddrIn : Type 0 where
  pub sin_family : ℕ
  pub sin_port : List ℕ
  pub s_addr : ℕ

-- The calls with which a program sets itself up; `send_frame` is `proto_send`.
pub data Call : Type 0 where
  socket_stream : Call
  socket_dgram : Call
  no_delay : ℕ → Call
  bind_to : ℕ → SockaddrIn → Call
  listen_on : ℕ → ℕ → Call
  connect_to : ℕ → SockaddrIn → Call
  send_frame : ℕ → Text → Call

abbrev pub System : Type 0
System = List Call → Call → Option ℕ

-- How the setup ends: with its result, by an exit, or with a descriptor that is no descriptor in a
-- set.
pub data Readiness {ℓ} (A : Type ℓ) : Type ℓ where
  ready : A → Readiness A
  exited_early : Readiness A
  set_outside : Readiness A

-- A part of the setup: how it ends after the calls so far, and the calls.
abbrev pub Setup {ℓ} : Type ℓ → Type ℓ
Setup A = List Call → Readiness A × List Call

infixl 5 ◌>>=◌
abbrev pub ◌>>=◌ {ℓ κ} : {A : Type ℓ} {B : Type κ} → Setup A → (A → Setup B) → Setup B
(m >>= f) log = elim (m log).0 [
  | ready a ↦ f a (m log).1
  | exited_early ↦ (exited_early, (m log).1)
  | set_outside ↦ (set_outside, (m log).1)
]

abbrev pub give {ℓ} : {A : Type ℓ} → A → Setup A
give a log = (ready a, log)

abbrev pub leave {ℓ} : {A : Type ℓ} → Setup A
leave log = (exited_early, log)

-- A call whose result DIE checks.
abbrev pub call : System → Call → Setup ℕ
call sys c log = (elim (sys log c) [ none ↦ exited_early | some r ↦ ready r ], log ++ (c ∷ []))

-- The second call of `socket` in `main`, whose result nothing checks before FD_SET.
abbrev pub call_unchecked : System → Call → Setup ℕ
call_unchecked sys c log =
    (elim (sys log c) [ none ↦ set_outside | some r ↦ ready r ], log ++ (c ∷ []))

-- `initialise_sockets`: the TCP and the UDP socket.
unfoldable pub initialise_sockets : System → Setup (ℕ × ℕ)
initialise_sockets sys = do
  tcp ← call sys socket_stream
  udp ← call sys socket_dgram
  give (tcp, udp)

-- `AF_INET` and `INADDR_ANY`
abbrev pub af_inet : ℕ
af_inet = 2

abbrev pub inaddr_any : ℕ
inaddr_any = 0

-- `sockaddr_struct_init`; `htons` takes the low 16 bits of the port.
abbrev pub sockaddr_struct_init : ℕ → SockaddrIn
sockaddr_struct_init port = record {
  sin_family = af_inet;
  sin_port = be_bytes port;
  s_addr = inaddr_any;
}

-- `bind_sockets`
unfoldable pub bind_sockets : System → ℕ → ℕ → SockaddrIn → SockaddrIn → Setup ℕ
bind_sockets sys tcp udp tcp_addr udp_addr = do
  bound ← call sys (bind_to tcp tcp_addr)
  call sys (bind_to udp udp_addr)

-- `disable_nagle`
unfoldable pub disable_nagle : System → ℕ → Setup ℕ
disable_nagle sys tcp = call sys (no_delay tcp)

-- `MAX_CLIENTS`
abbrev pub max_clients : ℕ
max_clients = 10

-- `(int) strtol(...)`, if it is positive.
abbrev pub positive_int : Text → Option ℕ
positive_int t =
    let n = to_size (strtol t) % 2 ^ 32 in if n == 0 || not (ltb n (2 ^ 31)) then none else some n

-- `main` of server.cpp up to its loop, with the second socket for TCP that it opens: the two
-- descriptors.
unfoldable pub server_setup : System → List Text → Setup (ℕ × ℕ)
unfolding initialise_sockets bind_sockets disable_nagle
server_setup sys [] = leave
server_setup sys (program ∷ []) = leave
server_setup sys (program ∷ port ∷ rest) = do
  first ← initialise_sockets sys
  tcp ← call_unchecked sys socket_stream
  nagle ← disable_nagle sys tcp
  elim (positive_int port) [
    | none ↦ leave
    | some port_no ↦ (do
      let addr = sockaddr_struct_init port_no
      bound ← bind_sockets sys tcp first.1 addr addr
      listening ← call sys (listen_on tcp max_clients)
      give (tcp, first.1))
  ]

-- `main` of subscriber.cpp up to its loop; `inet_aton` gives an address, or `none` for 0.
unfoldable pub subscriber_setup : System → (Text → Option ℕ) → List Text → Setup ℕ
subscriber_setup sys inet_aton (program ∷ id ∷ server_ip ∷ port ∷ []) = do
  sockfd ← call sys socket_stream
  elim (inet_aton server_ip) [
    | none ↦ leave
    | some address ↦ (do
      let addr : SockaddrIn = record {
        sin_family = af_inet;
        sin_port = be_bytes (to_size (strtol port) % 2 ^ 16);
        s_addr = address;
      }
      connected ← call sys (connect_to sockfd addr)
      sent ← call sys (send_frame sockfd id)
      give sockfd)
  ]
subscriber_setup sys inet_aton argv = leave
