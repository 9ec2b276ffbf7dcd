-- ===== src/Pubsub/Server/Limits.antt =====
-- Where server_funs.cpp and server.cpp do less than they mean to, and what `close_all` tells the
-- clients.
use teme_pcom_anul_2_sem.Prelude.{
  ℕ, zero, suc, ◌+◌, ◌≡◌, ◌≢◌, ◌≤◌, ◌<◌, ◌⊎◌, refl, List, [], ◌∷◌, ◌++◌, true, Text, none, some,
  arith, map, ap, length, c_string, inl, inr, Bool-cases, ◌==◌, Option-cases,
}
use teme_pcom_anul_2_sem.Dict.{Dict, lookup}
use teme_pcom_anul_2_sem.Pubsub.Message.{CliMsg, FromTcp, tcp_topic, udp_topic, from_tcp_size}
use teme_pcom_anul_2_sem.Pubsub.Client.{Client}
use teme_pcom_anul_2_sem.Pubsub.Server.State.{
  Server, Effect, send, close, opcode, message, ok, fault, overrun, unterminated, ClientMap, FdSet,
  exit_code,
}
use teme_pcom_anul_2_sem.Pubsub.Server.Sessions.{close_clients, close_all}
use teme_pcom_anul_2_sem.Pubsub.Server.Topics.{subscribe}
use teme_pcom_anul_2_sem.Pubsub.Server.Delivery.{online}
use teme_pcom_anul_2_sem.Pubsub.Server.Loop.{
  Env, handle_datagram, handle_client, message_of, received, request_of,
}
use teme_pcom_anul_2_sem.Pubsub.Server.Forward.{handle_datagram-sent}
use teme_pcom_anul_2_sem.Pubsub.Server.Invariant.{Inv}

-- No entry of the topic has the socket `fd`.
abbrev pub NoneOn : ℕ → ClientMap → Type 0
NoneOn fd [] = Unit
NoneOn fd ((_, c) ∷ m) = (c.client_socket ≢ fd) × NoneOn fd m

-- No effect is a message to `fd`.
abbrev pub NotTo : ℕ → List Effect → Type 0
NotTo fd [] = Unit
NotTo fd (e ∷ es) = ((m : CliMsg) → e ≢ send fd (message m)) × NotTo fd es

online-NotTo :
    (fd : ℕ) (connected m : ClientMap) (msg : CliMsg)
    → NoneOn fd m
    → NotTo fd (map (λ c. send c.client_socket (message msg)) (online connected m))
online-NotTo fd connected [] msg h = tt
online-NotTo fd connected ((k, c) ∷ m) msg h = elim (Option-cases (lookup c.id connected)) [
  | inl gone ↦ rw gone (online-NotTo fd connected m msg h.1)
  | inr (d, there) ↦ rw there ((λ n e. h.0 (ground arith)), online-NotTo fd connected m msg h.1)
]

-- A connected client whose socket is not that of any entry of a topic, as after a reconnection on
-- another descriptor, is sent no message of that topic.
pub reconnected_gets_nothing :
    (env : Env) (s : Server) (t : Text) (m : ClientMap) (id : Text) (c : Client)
    → udp_topic env.datagram ≡ some t
    → lookup t s.topics ≡ some m
    → lookup id s.connected ≡ some c
    → NoneOn c.client_socket m
    → (s' : Server) × (es : List Effect) × (handle_datagram env s ≡ ok (s', es))
      × NotTo c.client_socket es
      × (s'.connected ≡ s.connected)
reconnected_gets_nothing env s t m id c named held there stale =
    let (s', e, same, topics) = handle_datagram-sent env s t m named held in
    (
      s',
      map (λ d. send d.client_socket (message (message_of env))) (online s.connected m),
      e,
      online-NotTo c.client_socket s.connected m (message_of env) stale,
      same,
    )

abbrev pub NoNul : List ℕ → Type 0
NoNul [] = Unit
NoNul (b ∷ bs) = (b ≢ 0) × NoNul bs

pub c_string-NoNul : (t rest : List ℕ) → NoNul t → c_string (t ++ 0 ∷ rest) ≡ some t
unfolding c_string
c_string-NoNul [] rest h = refl
c_string-NoNul (b ∷ t) rest h = ground (arith, c_string-NoNul t rest h.1)

c_string_unterminated : (t : List ℕ) → NoNul t → c_string t ≡ none
unfolding c_string
c_string_unterminated [] h = refl
c_string_unterminated (b ∷ t) h = ground (arith, c_string_unterminated t h.1)

NoNul-append : (a b : List ℕ) → NoNul a → NoNul b → NoNul (a ++ b)
NoNul-append [] b h k = k
NoNul-append (x ∷ a) b h k = (h.0, NoNul-append a b h.1 k)

-- Of a request with the store-and-forward flag whose topic array has no NUL, subscribe reads the
-- topic past the end of the request, while the same request without the flag has the topic that it
-- holds.
full_topic :
    (msg : FromTcp) (topics : Dict ClientMap) (connected : ClientMap) (id : Text) (sockfd : ℕ)
    → NoNul msg.topic
    → msg.sf ≢ 0
    → (tcp_topic (record msg { sf = 0 }) ≡ some msg.topic)
      × (subscribe sockfd msg topics connected id ≡ fault unterminated)
unfolding tcp_topic subscribe
full_topic msg topics connected id sockfd h set = (
  c_string-NoNul msg.topic [] h,
  rw (c_string_unterminated (msg.topic ++ msg.sf ∷ []) (NoNul-append msg.topic _ h (set, tt))),
)

-- A frame of more than the 52 bytes of a request overruns the structure, whichever client sends it
-- and whatever the state.
long_request :
    (env : Env) (s : Server) (i : ℕ)
    → from_tcp_size < length (env.frame_on i)
    → handle_client env s i ≡ fault overrun
unfolding handle_client received request_of
long_request env s i h = ground arith

abbrev pub Has : Effect → List Effect → Type 0
Has e [] = ⊥
Has e (f ∷ fs) = (e ≡ f) ⊎ Has e fs

Has-append_left : (e : Effect) (xs ys : List Effect) → Has e xs → Has e (xs ++ ys)
Has-append_left e [] ys h = absurd h
Has-append_left e (a ∷ xs) ys (inl h) = inl h
Has-append_left e (a ∷ xs) ys (inr h) = inr (Has-append_left e xs ys h)

close_clients-Has :
    (n i : ℕ) (fds : FdSet) (tcp udp fd : ℕ)
    → i ≤ fd
    → fd < i + n
    → fds fd ≡ true
    → fd ≢ tcp
    → fd ≢ udp
    → Has (send fd (opcode exit_code)) (close_clients n i fds tcp udp)
      × Has (close fd) (close_clients n i fds tcp udp)
unfolding close_clients
close_clients-Has zero i fds tcp udp fd low high w nt nu = absurd (omega arith)
close_clients-Has (suc n) i fds tcp udp fd low high w nt nu = elim (Bool-cases (i == fd)) [
  | inl here ↦ (ground (arith, ap fds), ground (arith, ap fds))
  | inr later ↦
      let rest = close_clients-Has n (i + 1) fds tcp udp fd (ground arith) (omega arith) w nt nu in
      (ground (arith, rest.0), ground (arith, rest.1))
]

-- In a state of the invariant close_all sends the exit code to the socket of every connected
-- client and closes it.
close_all-connected :
    (s : Server) (k : Text) (c : Client)
    → Inv s
    → lookup k s.connected ≡ some c
    → let es = close_all s.read_fds s.tcp_sockfd s.udp_sockfd s.fdmax in
      Has (send c.client_socket (opcode exit_code)) es × Has (close c.client_socket) es
unfolding close_all
close_all-connected s k c inv h =
    let fd = c.client_socket in
    let own = inv.sockets.apart k c h in
    let w = inv.sockets.watched k c h in
    let both =
      close_clients-Has s.fdmax 1 s.read_fds s.tcp_sockfd s.udp_sockfd fd
        (ground (arith, own.not_stdin)) (omega (arith, inv.sockets.bound fd w)) w own.not_tcp
        own.not_udp in
    (Has-append_left _ _ _ both.0, Has-append_left _ _ _ both.1)
