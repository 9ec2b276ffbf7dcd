-- ===== src/Pubsub/Server/Forward.antt =====
-- Store-and-forward, from the datagrams that arrive while a client is away to its reconnection.
use teme_pcom_anul_2_sem.Prelude.{
  ◌≡◌, refl, List, [], ◌∷◌, ◌++◌, true, Text, none, some, arith, map, ap, ◌∙◌, sym, All, subst, max,
  text_discrete, append_assoc, append-nil,
}
use teme_pcom_anul_2_sem.Dict.{lookup, IsOrdered, lookup_behind, IsAbove-lookup}
use teme_pcom_anul_2_sem.Pubsub.Message.{CliMsg, udp_topic}
use teme_pcom_anul_2_sem.Pubsub.Client.{Client}
use teme_pcom_anul_2_sem.Pubsub.Server.State.{
  Server, Effect, send, print, message, ok, ◌>>=◌, ClientMap, fd_set,
}
use teme_pcom_anul_2_sem.Pubsub.Server.Sessions.{already_connected}
use teme_pcom_anul_2_sem.Pubsub.Server.Topics.{find_sf, send_new_msg}
use teme_pcom_anul_2_sem.Pubsub.Server.Reconnection.{send_missed-Reconnects}
use teme_pcom_anul_2_sem.Pubsub.Server.Delivery.{
  copies, online, lookup-send_new_msg, send_new_msg-sent,
}
use teme_pcom_anul_2_sem.Pubsub.Server.Loop.{
  Env, Outcome, message_of, welcome, admit_client, handle_datagram, handle_id,
}
use teme_pcom_anul_2_sem.Pubsub.Server.Invariant.{ClientsInv, TopicsInv, ClientsInv-send_new_msg}

copies-none :
    (id : Text) (m : ClientMap)
    → ((k : Text) (c : Client) → lookup k m ≡ some c → c.id ≡ k)
    → IsOrdered m
    → lookup id m ≡ none
    → copies id m ≡ 0
unfolding lookup
copies-none id [] named o h = refl
copies-none id ((j, w) ∷ m) named o h =
    let own : w.id ≡ j = named j w (ground arith) in
    let rest =
      copies-none id m (λ k c held. named k c (ground (arith, lookup_behind j k m o.0 held))) o.1
        (ground arith) in
    ground arith

-- In an ordered topic whose entries have their own names, a subscriber stands once.
copies_once :
    (id : Text) (m : ClientMap) (e : Client)
    → ((k : Text) (c : Client) → lookup k m ≡ some c → c.id ≡ k)
    → IsOrdered m
    → lookup id m ≡ some e
    → copies id m ≡ 1
unfolding lookup
copies_once id [] e named o h = cc
copies_once id ((j, w) ∷ m) e named o h =
    let own : w.id ≡ j = named j w (ground arith) in
    let named' : (k : Text) (c : Client) → lookup k m ≡ some c → c.id ≡ k =
      λ k c held. named k c (ground (arith, lookup_behind j k m o.0 held)) in
    elim (text_discrete j id) [
      | yes p ↦
          let gone : lookup id m ≡ none = sym (ap (λ i. lookup i m) p) ∙ IsAbove-lookup j m o.0 in
          ground (arith, copies-none id m named' o.1 gone)
      | no n ↦ ground (arith, copies_once id m e named' o.1)
    ]

handle_datagram_known :
    (env : Env) (s : Server) (t : Text) (m : ClientMap)
    → udp_topic env.datagram ≡ some t
    → lookup t s.topics ≡ some m
    → let r = send_new_msg (message_of env) s.connected t m s.saved in
      handle_datagram env s ≡ ok (record s { saved = r.0 }, r.1)
unfolding handle_datagram
handle_datagram_known env s t m named held = ground arith

-- A datagram on an existing topic is sent once to each connected subscriber, in the order of the
-- names, at the socket recorded when it subscribed, and leaves the connected clients and the
-- topics unchanged.
pub handle_datagram-sent :
    (env : Env) (s : Server) (t : Text) (m : ClientMap)
    → udp_topic env.datagram ≡ some t
    → lookup t s.topics ≡ some m
    → (s' : Server) × (handle_datagram env s
        ≡ ok
            (s', map (λ c. send c.client_socket (message (message_of env))) (online s.connected m)))
      × (s'.connected ≡ s.connected)
      × (s'.topics ≡ s.topics)
handle_datagram-sent env s t m named held = (
  record s { saved = (send_new_msg (message_of env) s.connected t m s.saved).0 },
  handle_datagram_known env s t m named held
      ∙ ap
          (λ es.
            ok (record s { saved = (send_new_msg (message_of env) s.connected t m s.saved).0 }, es))
          (send_new_msg-sent (message_of env) s.connected t m s.saved),
  refl,
  refl,
)

-- A run of datagrams.
pub handle_datagrams : List Env → Server → Outcome
handle_datagrams [] s = ok (s, [])
handle_datagrams (env ∷ envs) s = do
  (s', sent) ← handle_datagram env s
  (s'', later) ← handle_datagrams envs s'
  ok (s'', sent ++ later)

-- The stored client `id`, which subscribes to `t` and wants it kept, in a state of the invariant.
pub record Awaits (s : Server) (id t : Text) (m : ClientMap) (c : Client) : Type 0 where
  pub clients : ClientsInv s.connected s.saved
  pub topics : TopicsInv s.topics
  pub away : lookup id s.connected ≡ none
  pub stored : lookup id s.saved ≡ some c
  pub held : lookup t s.topics ≡ some m
  pub subscribed : (e : Client) × (lookup id m ≡ some e)
  pub wanted : find_sf t c.sf ≡ true

abbrev queued : Client → List CliMsg → Client
queued c ms = record c { missed = c.missed ++ ms }

queued_one :
    (c : Client) (m : CliMsg) (ms : List CliMsg) → queued (queued c (m ∷ [])) ms ≡ queued c (m ∷ ms)
queued_one c m ms = ground (arith, append_assoc c.missed (m ∷ []) ms)

module _ (id t : Text) (m : ClientMap) where
  Awaits-datagram :
      (env : Env) (s : Server) (c : Client)
      → udp_topic env.datagram ≡ some t
      → Awaits s id t m c
      → (s' : Server) × (es : List Effect) × (handle_datagram env s ≡ ok (s', es))
        × Awaits s' id t m (queued c (message_of env ∷ []))
  Awaits-datagram env s c named a =
      let msg = message_of env in
      let r = send_new_msg msg s.connected t m s.saved in
      let once =
        copies_once id m a.subscribed.0 (λ k d h. a.topics.named t m k d a.held h)
          (a.topics.ordered t m a.held) a.subscribed.1 in
      (
        record s { saved = r.0 },
        r.1,
        handle_datagram_known env s t m named a.held,
        record {
          clients = ClientsInv-send_new_msg a.clients msg t m;
          topics = a.topics;
          away = a.away;
          stored = ground (
            arith,
            lookup-send_new_msg msg s.connected t m s.saved id c a.stored,
            a.away,
            a.wanted,
            once,
          );
          held = a.held;
          subscribed = a.subscribed;
          wanted = a.wanted;
        },
      )

  handle_datagrams-Awaits :
      (envs : List Env) (s : Server) (c : Client)
      → All (λ env. udp_topic env.datagram ≡ some t) envs
      → Awaits s id t m c
      → (s' : Server) × (es : List Effect) × (handle_datagrams envs s ≡ ok (s', es))
        × Awaits s' id t m (queued c (map message_of envs))
  unfolding handle_datagrams
  handle_datagrams-Awaits [] s c named a = (s, [], refl, rw (append-nil c.missed) a)
  handle_datagrams-Awaits (env ∷ envs) s c named a =
      let (s', sent, e, a') = Awaits-datagram env s c named.0 a in
      let (s'', later, f, a'') = handle_datagrams-Awaits envs s' _ named.1 a' in
      (
        s'',
        sent ++ later,
        ground arith,
        subst (Awaits s'' id t m) (queued_one c (message_of env) (map message_of envs)) a'',
      )

-- The messages that a stored client already missed, followed by every datagram that arrives on its
-- store-and-forward topic while it is away, are sent to it in order when it reconnects; it is then
-- connected under the new descriptor with an empty queue, and no longer stored.
pub store_and_forward :
    (envs : List Env) (back : Env) (s : Server) (id t : Text) (m : ClientMap) (c : Client)
    → All (λ env. udp_topic env.datagram ≡ some t) envs
    → Awaits s id t m c
    → (s' : Server) × (es : List Effect) × (s'' : Server) × (out : List Effect) × (handle_datagrams
          envs s
        ≡ ok (s', es))
      × (handle_id back s' id ≡ ok (s'', out))
      × (out
          ≡ map (λ x. send back.accepted (message x)) (c.missed ++ map message_of envs)
            ++ print (welcome back.client_addr id) ∷ [])
      × (lookup id s''.connected ≡ some (record c { client_socket = back.accepted; missed = [] }))
      × (lookup id s''.saved ≡ none)
unfolding handle_id already_connected admit_client
store_and_forward envs back s id t m c named a =
    let (s', es, e, a') = handle_datagrams-Awaits id t m envs s c named a in
    let (r, f, rec) =
      send_missed-Reconnects s'.saved s'.connected id back.accepted (queued c (map message_of envs))
        a'.stored a'.away a'.clients.ordered a'.clients.ordered_saved in
    (
      s',
      es,
      record s' {
        connected = r.connected;
        saved = r.saved;
        read_fds = fd_set back.accepted s'.read_fds;
        fdmax = max s'.fdmax back.accepted;
      },
      r.sent ++ print (welcome back.client_addr id) ∷ [],
      e,
      ground (arith, a'.away),
      ap (λ sent. sent ++ print (welcome back.client_addr id) ∷ []) rec.sent,
      ground (arith, rec.joined id),
      ground (arith, rec.left id),
    )
