-- ===== src/Pubsub/Server/Examples.antt =====
-- The server at concrete inputs: tests of its functions, and its theorems at small states.
use teme_pcom_anul_2_sem.Prelude.{
  ℕ, ◌≡◌, refl, List, [], ◌∷◌, ◌++◌, Text, text_discrete, none, some, arith, codes, map, subst,
  ◌==◌, c_string, replicate,
}
use teme_pcom_anul_2_sem.Dict.{Dict, lookup, insert, place}
use teme_pcom_anul_2_sem.Pubsub.Message.{FromTcp, CliMsg, Address, tcp_topic, udp_topic}
use teme_pcom_anul_2_sem.Pubsub.Client.{Client}
use teme_pcom_anul_2_sem.Pubsub.Server.State.{
  Server, Effect, send, print, message, Result, ok, ClientMap, fd_set,
}
use teme_pcom_anul_2_sem.Pubsub.Server.Sessions.{
  send_missed, client_disconnected, Reconnection, Disconnection,
}
use teme_pcom_anul_2_sem.Pubsub.Server.Topics.{
  find_sf, send_new_msg, subscribe, unsubscribe, Subscription,
}
use teme_pcom_anul_2_sem.Pubsub.Server.Loop.{
  Env, continued, welcome, handle_datagram, handle_id, start, round, message_of, request_of,
}
use teme_pcom_anul_2_sem.Pubsub.Server.Reconnection.{Reconnects, send_missed-Reconnects}
use teme_pcom_anul_2_sem.Pubsub.Server.Disconnection.{Disconnects, client_disconnected-Disconnects}
use teme_pcom_anul_2_sem.Pubsub.Server.Delivery.{lookup-send_new_msg}
use teme_pcom_anul_2_sem.Pubsub.Server.Subscriptions.{
  subscribers, Subscribes, subscribe-Subscribes, unsubscribe-subscribe,
}
use teme_pcom_anul_2_sem.Pubsub.Server.Invariant.{Inv, TopicsInv, ClientsInv}
use teme_pcom_anul_2_sem.Pubsub.Server.Preservation.{IsSane}
use teme_pcom_anul_2_sem.Pubsub.Server.Rounds.{Admits, Reach, starts, rounds, Reach-Inv}
use teme_pcom_anul_2_sem.Pubsub.Server.Forward.{
  handle_datagram-sent, handle_datagrams, Awaits, store_and_forward,
}
use teme_pcom_anul_2_sem.Pubsub.Server.Limits.{NotTo, reconnected_gets_nothing}

abbrev pub alice : Text
alice = codes "alice"

abbrev pub news : Text
news = codes "news"

abbrev pub client : ℕ → List Text → List CliMsg → Client
client fd sf missed = record { client_socket = fd; id = alice; sf = sf; missed = missed }

abbrev address : Address
address = record { ip = 127 ∷ 0 ∷ 0 ∷ 1 ∷ []; port = 31 ∷ 144 ∷ [] }

-- A datagram on `news`, a connection on descriptor 7, and `alice` on every descriptor.
abbrev pub env : Env
env = record {
  datagram = record { topic = news ++ 0 ∷ []; type = 3; payload = codes "hi" ++ 0 ∷ [] };
  sender = address;
  accepted = 7;
  client_addr = address;
  frame_on = λ fd. alice;
}

abbrev old_msg : CliMsg
old_msg = record { recv_msg = env.datagram; ip = 10 ∷ []; port = [] }

-- `alice` subscribes to `news` from descriptor 6, and is away.
abbrev away : Server
away = record {
  tcp_sockfd = 5;
  udp_sockfd = 4;
  connected = [];
  saved = (alice, client 6 (news ∷ []) (old_msg ∷ [])) ∷ [];
  topics = (news, (alice, client 6 [] []) ∷ []) ∷ [];
  read_fds = (start 5 4).read_fds;
  fdmax = 6;
}

welcome_runs : welcome address alice ≡ codes "New client alice connected from 127.0.0.1:8080"
unfolding welcome
welcome_runs = refl

-- `alice` connects to a fresh server.
first_round :
    (t : Server) × (round 10 env (λ j. j == 5) [] (start 5 4)
      ≡ ok (continued t (print (welcome address alice) ∷ [])))
    × (t.connected ≡ (alice, client 7 [] []) ∷ [])
    × (t.fdmax ≡ 7)
unfolding round start send_missed lookup insert place c_string text_discrete
first_round = (_, refl, refl, refl)

ok_injective : {A : Type 0} {a b : A} → ◌≡◌ {A = Result A} (ok a) (ok b) → a ≡ b
ok_injective e = cc

env-IsSane : IsSane env
unfolding udp_topic c_string request_of tcp_topic
env-IsSane = record {
  datagram = (news, refl);
  name = omega arith;
  request = λ fd n. omega arith;
  topic = λ fd m e.
      (codes "lice", subst (λ m. tcp_topic m ≡ some (codes "lice")) (ok_injective e) refl);
}

start-Admits : Admits env (λ j. j == 5) (start 5 4) 10
unfolding start
start-Admits = record {
  sane = env-IsSane;
  fresh = record {
    unwatched = λ e. cc;
    client = record { not_stdin = omega arith; not_tcp = omega arith; not_udp = omega arith };
  };
  watched = λ j h. ground arith;
  enough = omega arith;
}

start-Reach : Reach (start 5 4)
start-Reach = starts 5 4

unfoldable pub second : Server
unfolding first_round
second = first_round.0

pub second-Reach : Reach second
unfolding second
second-Reach = rounds env (λ j. j == 5) [] 10 _ start-Reach start-Admits first_round.1

Reach-Inv_example : Inv second
Reach-Inv_example = Reach-Inv second-Reach

away-TopicsInv : TopicsInv away.topics
unfolding lookup
away-TopicsInv = record { ordered = λ t m h. ground arith; named = λ t m k c h e. ground arith }

away-ClientsInv : ClientsInv away.connected away.saved
unfolding lookup
away-ClientsInv = record {
  ordered = tt;
  ordered_saved = (tt, tt);
  named = λ k c h. cc;
  idle = λ k c h. cc;
  apart = λ k c h. cc;
  stored = λ k c h. ground arith;
  keeps = λ k c h e. ground arith;
}

away-Awaits :
    Awaits away alice news ((alice, client 6 [] []) ∷ []) (client 6 (news ∷ []) (old_msg ∷ []))
unfolding lookup find_sf text_discrete
away-Awaits = record {
  clients = away-ClientsInv;
  topics = away-TopicsInv;
  away = refl;
  stored = refl;
  held = refl;
  subscribed = (client 6 [] [], refl);
  wanted = refl;
}

store_and_forward_example :
    (s' : Server) × (es : List Effect) × (s'' : Server) × (out : List Effect) × (handle_datagrams
        (env ∷ env ∷ [])
        away
      ≡ ok (s', es))
    × (handle_id env s' alice ≡ ok (s'', out))
    × (out
        ≡ map (λ x. send 7 (message x)) (old_msg ∷ message_of env ∷ message_of env ∷ [])
          ++ print (welcome address alice) ∷ [])
    × (lookup alice s''.connected ≡ some (client 7 (news ∷ []) []))
    × (lookup alice s''.saved ≡ none)
unfolding udp_topic
store_and_forward_example =
    store_and_forward (env ∷ env ∷ []) env away alice news ((alice, client 6 [] []) ∷ [])
      (client 6 (news ∷ []) (old_msg ∷ [])) (refl, (refl, tt)) away-Awaits

send_missed-Reconnects_example :
    (r : Reconnection) × (send_missed away.saved [] alice 7 ≡ ok (some r))
    × Reconnects away.saved [] alice 7 (client 6 (news ∷ []) (old_msg ∷ [])) r
unfolding lookup text_discrete
send_missed-Reconnects_example =
    send_missed-Reconnects away.saved [] alice 7 (client 6 (news ∷ []) (old_msg ∷ [])) refl refl tt
      (tt, tt)

lookup-send_new_msg_example :
    lookup alice (send_new_msg old_msg [] news ((alice, client 6 [] []) ∷ []) away.saved).0
    ≡ some (client 6 (news ∷ []) (old_msg ∷ old_msg ∷ []))
unfolding lookup text_discrete find_sf
lookup-send_new_msg_example =
    lookup-send_new_msg old_msg [] news ((alice, client 6 [] []) ∷ []) away.saved alice
      (client 6 (news ∷ []) (old_msg ∷ [])) refl

-- `alice` is connected on descriptor 7, and subscribed from descriptor 6.
abbrev back : Server
back = record away {
  connected = (alice, client 7 (news ∷ []) []) ∷ [];
  saved = [];
  read_fds = fd_set 7 away.read_fds;
  fdmax = 7;
}

handle_datagram-sent_example :
    (s' : Server) × (handle_datagram env back ≡ ok (s', send 6 (message (message_of env)) ∷ []))
    × (s'.connected ≡ back.connected)
    × (s'.topics ≡ back.topics)
unfolding lookup text_discrete udp_topic c_string
handle_datagram-sent_example =
    handle_datagram-sent env back news ((alice, client 6 [] []) ∷ []) refl refl

reconnected_gets_nothing_example :
    (s' : Server) × (es : List Effect) × (handle_datagram env back ≡ ok (s', es))
    × NotTo 7 es
    × (s'.connected ≡ back.connected)
unfolding lookup text_discrete udp_topic c_string
reconnected_gets_nothing_example =
    reconnected_gets_nothing env back news ((alice, client 6 [] []) ∷ []) alice
      (client 7 (news ∷ []) []) refl refl refl ((λ e. omega arith), tt)

-- A subscription for `news` with store-and-forward.
abbrev subscription : FromTcp
subscription = record { type = 1; topic = news ++ 0 ∷ []; sf = 1 }

abbrev withdrawal : FromTcp
withdrawal = record { type = 0; topic = news ++ 0 ∷ []; sf = 0 }

subscribe-Subscribes_example :
    (r : Subscription) × (subscribe 7 subscription [] back.connected alice ≡ ok r)
    × Subscribes 7 subscription news [] back.connected alice (client 7 (news ∷ []) []) r
unfolding tcp_topic c_string lookup text_discrete
subscribe-Subscribes_example =
    subscribe-Subscribes 7 subscription [] back.connected alice news (client 7 (news ∷ []) []) refl
      refl refl (tt, tt) tt

unsubscribe-subscribe_example :
    (r : Subscription) × (u : Dict ClientMap × List Effect) × (subscribe 7 subscription []
        back.connected alice
      ≡ ok r)
    × (unsubscribe 7 withdrawal r.topics alice ≡ ok u)
    × ((t j : Text) → lookup j (subscribers t u.0) ≡ lookup j (subscribers t []))
unfolding tcp_topic c_string lookup text_discrete
unsubscribe-subscribe_example =
    unsubscribe-subscribe 7 subscription withdrawal [] back.connected alice news
      (client 7 (news ∷ []) []) refl refl refl refl (tt, tt) tt

client_disconnected-Disconnects_example :
    (d : Disconnection) × (client_disconnected 7 back.read_fds alice back.connected [] ≡ ok d)
    × Disconnects 7 back.read_fds alice back.connected [] (client 7 (news ∷ []) []) d
unfolding lookup text_discrete
client_disconnected-Disconnects_example =
    client_disconnected-Disconnects 7 back.read_fds alice back.connected []
      (client 7 (news ∷ []) []) refl refl (tt, tt) tt

second_holds : lookup alice second.connected ≡ some (client 7 [] [])
unfolding second lookup text_discrete
second_holds = refl

abbrev full : FromTcp
full = record { type = 1; topic = replicate 50 97; sf = 1 }
