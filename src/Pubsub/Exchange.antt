-- ===== src/Pubsub/Exchange.antt =====
-- A command that is typed at the subscriber, handled by the server: subscriber_funs.cpp,
-- server.cpp and server_funs.cpp together.
mod Examples
use teme_pcom_anul_2_sem.Prelude.{
  ℕ, ◌≡◌, ◌≢◌, ◌<◌, ◌≤◌, refl, ap, sym, subst, ◌∙◌, List, [], ◌∷◌, ◌++◌, Text, text_discrete, codes,
  Option, some, none, ite, arith, length, strtol, ℤ, pos, NotIn, zero,
}
use teme_pcom_anul_2_sem.Dict.{lookup}
use teme_pcom_anul_2_sem.Pubsub.Message.{
  topic_len, subscribe_type, unsubscribe_type, from_tcp_size, buff_len, zero_filled,
}
use teme_pcom_anul_2_sem.Pubsub.Client.{Client, add_sf}
use teme_pcom_anul_2_sem.Pubsub.Server.State.{Server, Effect, ok, send, opcode, subscribed_code}
use teme_pcom_anul_2_sem.Pubsub.Server.Loop.{Env, handle_client, id_of_socket, request_of, received}
use teme_pcom_anul_2_sem.Pubsub.Server.Topics.{msg_from_client}
use teme_pcom_anul_2_sem.Pubsub.Server.Subscriptions.{subscribers, with_sf, subscribe-Subscribes}
use teme_pcom_anul_2_sem.Pubsub.Server.Invariant.{Inv, subscribers-IsOrdered}
use teme_pcom_anul_2_sem.Pubsub.Server.Limits.{NoNul}
use teme_pcom_anul_2_sem.Pubsub.Subscriber.Decode.{Action, say, say_open, transmit, quit}
use teme_pcom_anul_2_sem.Pubsub.Subscriber.Commands.{send_subscription}
use teme_pcom_anul_2_sem.Pubsub.Subscriber.Requests.{Reads, send_subscription-request}

-- The bytes of the first action.
abbrev bytes_of : List Action → List ℕ
bytes_of (transmit bytes ∷ rest) = bytes
bytes_of _ = []

-- The server after the subscription of a client that was none of the topic's.
pub record Joins (s s' : Server) (id topic : Text) (c : Client) (flag : ℕ) : Type 0 where
  pub joined :
      (j : Text)
      → lookup j (subscribers topic s'.topics)
        ≡ ite (text_discrete id j) (some c) (lookup j (subscribers topic s.topics))
  pub others : (t : Text) → t ≢ topic → lookup t s'.topics ≡ lookup t s.topics
  pub saved : s'.saved ≡ s.saved
  pub kept : flag ≡ 1 → lookup id s'.connected ≡ some (add_sf topic c)
  pub not_kept : flag ≡ 0 → lookup id s'.connected ≡ some c

-- A frame that is read as a subscription.
handle_client-subscribes :
    (env : Env) (s : Server) (i flag : ℕ) (topic : Text) (c : Client)
    → Inv s
    → lookup (id_of_socket i s.connected) s.connected ≡ some c
    → lookup (id_of_socket i s.connected) (subscribers topic s.topics) ≡ none
    → Reads (env.frame_on i) subscribe_type topic flag
    → (s' : Server) × (handle_client env s i ≡ ok (s', send i (opcode subscribed_code) ∷ []))
      × Joins s s' (id_of_socket i s.connected) topic c flag
unfolding handle_client received msg_from_client with_sf
handle_client-subscribes env s i flag topic c inv held new r =
    let id = id_of_socket i s.connected in
    let (sub, e, subs) =
      subscribe-Subscribes i r.msg s.topics s.connected id topic c r.named held new
        inv.clients.ordered (subscribers-IsOrdered inv.topics topic) in
    (
      record s { topics = sub.topics; connected = sub.connected },
      ground (arith, r.parsed, r.size, r.kind, e, subs.answered),
      record {
        joined = subs.joined;
        others = subs.others;
        saved = refl;
        kept = λ one. ground (arith, subs.marked id, r.flag);
        not_kept = λ clear. ground (arith, subs.marked id, r.flag);
      },
    )

-- In a state of the invariant, if the descriptor of a connected client that does not subscribe to
-- a topic delivers the frame of a typed subscription to it (fewer than 50 characters, no space and
-- no NUL in it, and a flag behind it), the server answers SUBSCRIBED, adds exactly this client to
-- the topic, changes no other topic and no stored client, and appends the topic to the
-- store-and-forward topics of the client if strtol of the typed flag is 1, and else leaves the
-- client as it was.
pub typed_subscription :
    (env : Env) (s : Server) (i : ℕ) (topic sf : Text) (c : Client)
    → Inv s
    → lookup (id_of_socket i s.connected) s.connected ≡ some c
    → lookup (id_of_socket i s.connected) (subscribers topic s.topics) ≡ none
    → NotIn 32 topic
    → NotIn 32 sf
    → topic ≢ []
    → sf ≢ []
    → NoNul topic
    → length topic < topic_len
    → send_subscription (codes "subscribe " ++ topic ++ 32 ∷ sf) ≡ transmit (env.frame_on i) ∷ []
    → (s' : Server) × (flag : ℕ) × (handle_client env s i
        ≡ ok (s', send i (opcode subscribed_code) ∷ []))
      × Joins s s' (id_of_socket i s.connected) topic c flag
      × (strtol sf ≡ pos 1 → flag ≡ 1)
      × (strtol sf ≢ pos 1 → flag ≡ 0)
typed_subscription env s i topic sf c inv held new t f tn fn nul short sent =
    let (frame, flag, e, r, set, clear) = send_subscription-request topic sf t f tn fn nul short in
    let same : frame ≡ env.frame_on i = ap bytes_of (sym e ∙ sent) in
    let (s', handled, joins) =
      handle_client-subscribes env s i flag topic c inv held new
        (subst (λ bs. Reads bs subscribe_type topic flag) same r) in
    (s', flag, handled, joins, set, clear)
