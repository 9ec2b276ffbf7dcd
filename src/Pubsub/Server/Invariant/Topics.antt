-- ===== src/Pubsub/Server/Invariant/Topics.antt =====
-- The topics through a new topic, a subscription and its withdrawal.
use teme_pcom_anul_2_sem.Prelude.{
  ℕ, ◌≡◌, ◌≢◌, List, [], Text, text_discrete, some, arith, ap, sym, ◌∙◌, Option-cases, inl, inr,
  subst,
}
use teme_pcom_anul_2_sem.Dict.{Dict, lookup, IsOrdered, lookup-insert, insert_present}
use teme_pcom_anul_2_sem.Pubsub.Message.{FromTcp}
use teme_pcom_anul_2_sem.Pubsub.Client.{Client}
use teme_pcom_anul_2_sem.Pubsub.Server.State.{ClientMap, Effect}
use teme_pcom_anul_2_sem.Pubsub.Server.Topics.{new_topic, Subscription}
use teme_pcom_anul_2_sem.Pubsub.Server.Subscriptions.{
  subscribers, subscribers-eq, Subscribes, Unsubscribes,
}
use teme_pcom_anul_2_sem.Pubsub.Server.Invariant.Defs.{TopicsInv}

-- The invariant by the subscribers of each topic, a topic that does not exist having none.
record SubscribersInv (topics : Dict ClientMap) (t : Text) : Type 0 where
  ordered : IsOrdered (subscribers t topics)
  named : (k : Text) (c : Client) → lookup k (subscribers t topics) ≡ some c → c.id ≡ k

subscribers_held :
    (topics : Dict ClientMap) (t : Text) (m : ClientMap)
    → lookup t topics ≡ some m
    → subscribers t topics ≡ m
subscribers_held topics t m h = ground arith

of_subscribers :
    (topics : Dict ClientMap) → ((t : Text) → SubscribersInv topics t) → TopicsInv topics
of_subscribers topics h = record {
  ordered = λ t m held. rw (subscribers_held topics t m held) at (h t).ordered;
  named = λ t m k c held e. (h t).named k c (ap (lookup k) (subscribers_held topics t m held) ∙ e);
}

module _ {topics : Dict ClientMap} (inv : TopicsInv topics) where
  to_subscribers : (t : Text) → SubscribersInv topics t
  unfolding lookup
  to_subscribers t = elim (Option-cases (lookup t topics)) [
    | inl new ↦ record { ordered = ground arith; named = λ k c h. ground arith }
    | inr (m, held) ↦ record {
      ordered = rw (subscribers_held topics t m held) (inv.ordered t m held);
      named = λ k c h.
          inv.named t m k c held (ap (lookup k) (sym (subscribers_held topics t m held)) ∙ h);
    }
  ]

  pub subscribers-IsOrdered : (t : Text) → IsOrdered (subscribers t topics)
  subscribers-IsOrdered t = (to_subscribers t).ordered

  pub TopicsInv-new_topic : (topic : Text) → TopicsInv (new_topic topics topic)
  unfolding new_topic lookup
  TopicsInv-new_topic topic = elim (Option-cases (lookup topic topics)) [
    | inl new ↦ record {
      ordered = λ t m h. ground (arith, lookup-insert t topic [] topics new, inv.ordered t m);
      named = λ t m k c h e. ground (arith, lookup-insert t topic [] topics new, inv.named t m k c);
    }
    | inr (m, held) ↦ rw (insert_present topic [] m topics held) inv
  ]

  -- A change of one topic needs a proof for that topic alone.
  TopicsInv-change :
      (topics' : Dict ClientMap) (topic : Text)
      → ((t : Text) → t ≢ topic → lookup t topics' ≡ lookup t topics)
      → SubscribersInv topics' topic
      → TopicsInv topics'
  TopicsInv-change topics' topic others here = of_subscribers topics' λ t.
      elim (text_discrete t topic) [
        | yes p ↦ subst (SubscribersInv topics') (sym p) here
        | no n ↦
            let same = sym (subscribers-eq t topics' topics (others t n)) in
            record {
              ordered = subst IsOrdered same (to_subscribers t).ordered;
              named = λ k c h. (to_subscribers t).named k c (ap (lookup k) same ∙ h);
            }
      ]

  pub TopicsInv-subscribe :
      (fd : ℕ) (msg : FromTcp) (topic : Text) (connected : ClientMap) (id : Text) (c : Client)
      (r : Subscription)
      → c.id ≡ id
      → Subscribes fd msg topic topics connected id c r
      → TopicsInv r.topics
  TopicsInv-subscribe fd msg topic connected id c r own s =
      TopicsInv-change r.topics topic s.others (record {
        ordered = s.ordered_topic;
        named = λ k d h. ground (arith, s.joined k, (to_subscribers topic).named k d);
      })

  pub TopicsInv-unsubscribe :
      (fd : ℕ) (topic : Text) (id : Text) (r : Dict ClientMap × List Effect)
      → Unsubscribes fd topic topics id r
      → TopicsInv r.0
  TopicsInv-unsubscribe fd topic id r u = TopicsInv-change r.0 topic u.others (record {
    ordered = u.ordered_topic;
    named = λ k d h. ground (arith, u.left k, (to_subscribers topic).named k d);
  })
