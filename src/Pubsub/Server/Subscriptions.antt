-- ===== src/Pubsub/Server/Subscriptions.antt =====
-- The outcomes of `subscribe`, `unsubscribe` and `msg_from_client` of server_funs.cpp.
use teme_pcom_anul_2_sem.Prelude.{
  ℕ, ◌≡◌, ◌≢◌, refl, List, [], ◌∷◌, Text, text_discrete, none, some, ite, arith, ap, ◌∙◌,
  if◌then◌else◌, ◌==◌, Option-cases, inl, inr,
}
use teme_pcom_anul_2_sem.Dict.{
  Dict, lookup, insert, erase, modify, lookup-insert, lookup-erase, lookup-modify, IsOrdered,
  insert-IsOrdered, erase-IsOrdered, modify-IsOrdered,
}
use teme_pcom_anul_2_sem.Pubsub.Message.{FromTcp, tcp_topic}
use teme_pcom_anul_2_sem.Pubsub.Client.{Client, add_sf}
use teme_pcom_anul_2_sem.Pubsub.Server.State.{
  Effect, send, opcode, ok, ClientMap, subscribed_code, already_sub_code, no_topic_code,
  unsubscribed_code,
}
use teme_pcom_anul_2_sem.Pubsub.Server.Topics.{
  new_topic, Subscription, add_subscriber, subscribe, unsubscribe,
}

-- The subscribers of a topic; nobody, if it does not exist.
abbrev pub subscribers : Text → Dict ClientMap → ClientMap
subscribers topic topics = elim (lookup topic topics) [ none ↦ [] | some m ↦ m ]

unfoldable pub with_sf : ℕ → Text → Client → Client
with_sf sf topic c = if sf == 0 then c else add_sf topic c

-- A new subscriber: it joins the topic as it is, and the topic is kept for it if it asked so.
pub record Subscribes (sockfd : ℕ) (msg : FromTcp) (topic : Text) (topics : Dict ClientMap)
    (connected : ClientMap) (id : Text) (c : Client) (r : Subscription) : Type 0 where
  pub joined :
      (j : Text)
      → lookup j (subscribers topic r.topics)
        ≡ ite (text_discrete id j) (some c) (lookup j (subscribers topic topics))
  pub others : (t : Text) → t ≢ topic → lookup t r.topics ≡ lookup t topics
  pub marked :
      (j : Text)
      → lookup j r.connected
        ≡ ite (text_discrete id j) (some (with_sf msg.sf topic c)) (lookup j connected)
  pub answered : r.sent ≡ send sockfd (opcode subscribed_code) ∷ []
  pub ordered : IsOrdered r.connected
  pub ordered_topic : IsOrdered (subscribers topic r.topics)

module _ (sockfd : ℕ) (msg : FromTcp) (topics : Dict ClientMap) (connected : ClientMap)
    (id topic : Text) (c : Client) (named : tcp_topic msg ≡ some topic)
    (present : lookup id connected ≡ some c) where
  lookup_created :
      (t : Text)
      → lookup topic topics ≡ none
      → lookup t (new_topic topics topic) ≡ ite (text_discrete topic t) (some []) (lookup t topics)
  unfolding new_topic
  lookup_created t h = lookup-insert t topic [] topics h

  add_subscriber-Subscribes :
      (topics' : Dict ClientMap) (m : ClientMap)
      → ((t : Text) → t ≢ topic → lookup t topics' ≡ lookup t topics)
      → lookup topic topics' ≡ some m
      → subscribers topic topics ≡ m
      → lookup id m ≡ none
      → IsOrdered connected
      → IsOrdered m
      → (r : Subscription) × (add_subscriber sockfd msg topic m topics' connected id ≡ ok r)
        × Subscribes sockfd msg topic topics connected id c r
  unfolding add_subscriber with_sf
  add_subscriber-Subscribes topics' m same here was away oc om = (
    record {
      topics = modify topic (insert id c) topics';
      connected = if msg.sf == 0 then connected else modify id (add_sf topic) connected;
      sent = send sockfd (opcode subscribed_code) ∷ [];
    },
    ground arith,
    record {
      joined = λ j.
          ground
            (arith, lookup-modify topic topic (insert id c) topics', lookup-insert j id c m away);
      others = λ t n. ground (arith, lookup-modify t topic (insert id c) topics', same t n);
      marked = λ j. ground (arith, lookup-modify j id (add_sf topic) connected);
      answered = refl;
      ordered = ground (arith, modify-IsOrdered id (add_sf topic) connected oc);
      ordered_topic =
          ground
            (arith, lookup-modify topic topic (insert id c) topics', insert-IsOrdered id c m om);
    },
  )

  -- With the connected clients and the subscribers of the topic in key order, a connected client
  -- that does not subscribe yet is added to the topic, which is made if it is missing; the other
  -- topics and clients are unchanged, the topic is appended to the store-and-forward topics of the
  -- client exactly if it asked for store-and-forward, what they held stays, and it is answered
  -- SUBSCRIBED.
  pub subscribe-Subscribes :
      lookup id (subscribers topic topics) ≡ none
      → IsOrdered connected
      → IsOrdered (subscribers topic topics)
      → (r : Subscription) × (subscribe sockfd msg topics connected id ≡ ok r)
        × Subscribes sockfd msg topic topics connected id c r
  unfolding subscribe lookup
  subscribe-Subscribes away oc ot = elim (Option-cases (lookup topic topics)) [
    | inl new ↦
        let made = new_topic topics topic in
        let (r, e, s) =
          add_subscriber-Subscribes made [] (λ t n. ground (arith, lookup_created t new))
            (ground (arith, lookup_created topic new)) (ground arith) refl oc tt in
        (r, ground (arith, lookup_created topic new), s)
    | inr (m, old) ↦
        let (r, e, s) =
          add_subscriber-Subscribes topics m (λ t n. refl) old (ground arith) (ground arith) oc
            (ground arith) in
        (r, ground arith, s)
  ]

  -- A second subscription changes nothing, its store-and-forward flag included.
  pub subscribe_again :
      (e : Client)
      → lookup id (subscribers topic topics) ≡ some e
      → subscribe sockfd msg topics connected id
        ≡ ok (record {
          topics = topics;
          connected = connected;
          sent = send sockfd (opcode already_sub_code) ∷ [];
        })
  unfolding subscribe add_subscriber lookup
  subscribe_again e old = elim (Option-cases (lookup topic topics)) [
    | inl new ↦ ground arith
    | inr (m, held) ↦ ground arith
  ]

-- What a request to unsubscribe does to an existing topic.
pub record Unsubscribes (sockfd : ℕ) (topic : Text) (topics : Dict ClientMap) (id : Text)
    (r : Dict ClientMap × List Effect) : Type 0 where
  pub left :
      (j : Text)
      → lookup j (subscribers topic r.0)
        ≡ ite (text_discrete id j) none (lookup j (subscribers topic topics))
  pub others : (t : Text) → t ≢ topic → lookup t r.0 ≡ lookup t topics
  pub answered : r.1 ≡ send sockfd (opcode unsubscribed_code) ∷ []
  pub ordered_topic : IsOrdered (subscribers topic r.0)

module _ (sockfd : ℕ) (msg : FromTcp) (topics : Dict ClientMap) (id topic : Text)
    (named : tcp_topic msg ≡ some topic) where
  -- The client is removed from an existing topic, whether it subscribes to it or not.
  pub unsubscribe-Unsubscribes :
      (m : ClientMap)
      → lookup topic topics ≡ some m
      → IsOrdered m
      → (r : Dict ClientMap × List Effect) × (unsubscribe sockfd msg topics id ≡ ok r)
        × Unsubscribes sockfd topic topics id r
  unfolding unsubscribe
  unsubscribe-Unsubscribes m old om = (
    (modify topic (erase id) topics, send sockfd (opcode unsubscribed_code) ∷ []),
    ground arith,
    record {
      left = λ j. ground (arith, lookup-modify topic topic (erase id) topics, lookup-erase j id m);
      others = λ t n. ground (arith, lookup-modify t topic (erase id) topics);
      answered = refl;
      ordered_topic =
          ground (arith, lookup-modify topic topic (erase id) topics, erase-IsOrdered id m om);
    },
  )

  -- There is nothing to leave in a topic that does not exist.
  pub unsubscribe_missing :
      lookup topic topics ≡ none
      → unsubscribe sockfd msg topics id ≡ ok (topics, send sockfd (opcode no_topic_code) ∷ [])
  unfolding unsubscribe
  unsubscribe_missing new = ground arith

pub subscribers-eq :
    (t : Text) (a b : Dict ClientMap) → lookup t a ≡ lookup t b → subscribers t a ≡ subscribers t b
subscribers-eq t a b h = ground arith

-- The two effects on one topic cancel.
cancel :
    (id j : Text) (c : Client) (before after last : ClientMap)
    → lookup id before ≡ none
    → lookup j after ≡ ite (text_discrete id j) (some c) (lookup j before)
    → lookup j last ≡ ite (text_discrete id j) none (lookup j after)
    → lookup j last ≡ lookup j before
cancel id j c before after last away h k = ground (arith, ap (λ (i : Text). lookup i before))

-- With the connected clients and the subscribers of the topic in key order, a subscription of a
-- connected client that did not subscribe, followed by its withdrawal, leaves every topic with the
-- subscribers that it had before.
pub unsubscribe-subscribe :
    (sockfd : ℕ) (msg back : FromTcp) (topics : Dict ClientMap) (connected : ClientMap)
    (id topic : Text) (c : Client)
    → tcp_topic msg ≡ some topic
    → tcp_topic back ≡ some topic
    → lookup id connected ≡ some c
    → lookup id (subscribers topic topics) ≡ none
    → IsOrdered connected
    → IsOrdered (subscribers topic topics)
    → (r : Subscription) × (u : Dict ClientMap × List Effect) × (subscribe sockfd msg topics
          connected id
        ≡ ok r)
      × (unsubscribe sockfd back r.topics id ≡ ok u)
      × ((t j : Text) → lookup j (subscribers t u.0) ≡ lookup j (subscribers t topics))
unfolding lookup
unsubscribe-subscribe sockfd msg back topics connected id topic c named named' present away oc ot =
    let (r, e, s) =
      subscribe-Subscribes sockfd msg topics connected id topic c named present away oc ot in
    elim (Option-cases (lookup topic r.topics)) [
      | inl gone ↦ absurd (ground (arith, s.joined id))
      | inr (m, held) ↦
          let (u, f, w) =
            unsubscribe-Unsubscribes sockfd back r.topics id topic named' m held
              (ground (arith, s.ordered_topic)) in
          (
            r,
            u,
            e,
            f,
            λ t j. elim (text_discrete t topic) [
              | no n ↦ ap (lookup j) (subscribers-eq t _ _ (w.others t n ∙ s.others t n))
              | yes p ↦ rw p (
                  cancel id j c (subscribers topic topics) (subscribers topic r.topics)
                    (subscribers topic u.0) away (s.joined j) (w.left j))
            ],
          )
    ]
