-- ===== src/Pubsub/Server/Invariant/Clients.antt =====
-- The two client maps through a message, a new connection, a reconnection and a disconnection.
use teme_pcom_anul_2_sem.Prelude.{
  ℕ, ◌≡◌, ◌≢◌, [], Text, text_discrete, none, some, ite, arith, ap, sym, ◌∙◌, Option-cases,
  nil-cases, ◌⊎◌, inl, inr,
}
use teme_pcom_anul_2_sem.Dict.{lookup, insert, IsOrdered, lookup-insert, insert-IsOrdered}
use teme_pcom_anul_2_sem.Pubsub.Message.{CliMsg, FromTcp}
use teme_pcom_anul_2_sem.Pubsub.Client.{Client, new_client, add_sf}
use teme_pcom_anul_2_sem.Pubsub.Server.State.{ClientMap, FdSet}
use teme_pcom_anul_2_sem.Pubsub.Server.Sessions.{Reconnection, Disconnection}
use teme_pcom_anul_2_sem.Pubsub.Server.Topics.{send_new_msg, Subscription}
use teme_pcom_anul_2_sem.Pubsub.Server.Reconnection.{Reconnects}
use teme_pcom_anul_2_sem.Pubsub.Server.Disconnection.{Disconnects}
use teme_pcom_anul_2_sem.Pubsub.Server.Delivery.{
  lookup-send_new_msg, lookup-send_new_msg-none, send_new_msg-IsOrdered,
}
use teme_pcom_anul_2_sem.Pubsub.Server.Subscriptions.{with_sf}
use teme_pcom_anul_2_sem.Pubsub.Server.Invariant.Defs.{ClientsInv}

module _ {connected saved : ClientMap} (inv : ClientsInv connected saved) where
  module _ (m : CliMsg) (topic : Text) (topic_map : ClientMap) where
    saved_after : ClientMap
    saved_after = (send_new_msg m connected topic topic_map saved).0

    -- A stored client after the message is one from before it, with a longer queue at most.
    before :
        (k : Text) (c : Client)
        → lookup k saved_after ≡ some c
        → (d : Client) × (lookup k saved ≡ some d) × (c.id ≡ d.id) × (c.sf ≡ d.sf)
    unfolding saved_after
    before k c h = elim (Option-cases (lookup k saved)) [
      | inl gone ↦ absurd (cc (lookup-send_new_msg-none m connected topic topic_map saved k gone))
      | inr (d, old) ↦
          let new = lookup-send_new_msg m connected topic topic_map saved k d old in
          (d, old, ground (arith, new), ground (arith, new))
    ]

    pub ClientsInv-send_new_msg :
        ClientsInv connected (send_new_msg m connected topic topic_map saved).0
    unfolding saved_after
    ClientsInv-send_new_msg = record {
      ordered = inv.ordered;
      ordered_saved = send_new_msg-IsOrdered m connected topic topic_map saved inv.ordered_saved;
      named = inv.named;
      idle = inv.idle;
      apart =
          λ k c h. lookup-send_new_msg-none m connected topic topic_map saved k (inv.apart k c h);
      stored = λ k c h. let (d, old, i, s) = before k c h in i ∙ inv.stored k d old;
      keeps = λ k c h e. let (d, old, i, s) = before k c h in inv.keeps k d old (sym s ∙ e);
    }

  pub ClientsInv-insert :
      (id : Text) (fd : ℕ)
      → lookup id connected ≡ none
      → lookup id saved ≡ none
      → ClientsInv (insert id (new_client fd id) connected) saved
  unfolding new_client
  ClientsInv-insert id fd away fresh = record {
    ordered = insert-IsOrdered id _ connected inv.ordered;
    ordered_saved = inv.ordered_saved;
    named = λ k c h.
        ground (arith, lookup-insert k id (new_client fd id) connected away, inv.named k c);
    idle =
        λ k c h. ground (arith, lookup-insert k id (new_client fd id) connected away, inv.idle k c);
    apart = λ k c h. ground (
      arith,
      lookup-insert k id (new_client fd id) connected away,
      inv.apart k c,
      ap (λ (i : Text). lookup i saved),
    );
    stored = inv.stored;
    keeps = inv.keeps;
  }

  pub ClientsInv-reconnect :
      (id : Text) (fd : ℕ) (c : Client) (r : Reconnection)
      → lookup id saved ≡ some c
      → Reconnects saved connected id fd c r
      → ClientsInv r.connected r.saved
  ClientsInv-reconnect id fd d r held rec = record {
    ordered = rec.ordered;
    ordered_saved = rec.ordered_saved;
    named = λ k c h. ground (arith, rec.joined k, inv.named k c, inv.stored id d held);
    idle = λ k c h. ground (arith, rec.joined k, inv.idle k c);
    apart = λ k c h. ground (arith, rec.joined k, rec.left k, inv.apart k c);
    stored = λ k c h. ground (arith, rec.left k, inv.stored k c);
    keeps = λ k c h e. ground (arith, rec.left k, inv.keeps k c);
  }

  module _ (i : ℕ) (fds : FdSet) (id : Text) (e : Client) (d : Disconnection)
      (held : lookup id connected ≡ some e) (dis : Disconnects i fds id connected saved e d) where
    -- A stored client is an old one, or the one that leaves.
    stored_after :
        (k : Text) (c : Client)
        → lookup k d.saved ≡ some c
        → (lookup k saved ≡ some c) ⊎ ((id ≡ k) × (e ≡ c) × (e.sf ≢ []))
    stored_after k c h = elim (nil-cases e.sf) [
      | inl none_kept ↦ ground (arith, dis.stored k)
      | inr kept ↦ ground (arith, dis.stored k)
    ]

    apart_after : (k : Text) (c : Client) → lookup k d.connected ≡ some c → lookup k d.saved ≡ none
    apart_after k c h = ground (arith, dis.stored k, dis.left k, inv.apart k c)

    pub ClientsInv-disconnect : ClientsInv d.connected d.saved
    ClientsInv-disconnect = record {
      ordered = dis.ordered;
      ordered_saved = dis.ordered_saved;
      named = λ k c h. ground (arith, dis.left k, inv.named k c);
      idle = λ k c h. ground (arith, dis.left k, inv.idle k c);
      apart = apart_after;
      stored = λ k c h. ground (arith, stored_after k c h, inv.stored k c, inv.named id e held);
      keeps = λ k c h. ground (arith, stored_after k c h, inv.keeps k c);
    }

  pub ClientsInv-subscribe :
      (fd : ℕ) (msg : FromTcp) (topic : Text) (id : Text) (c : Client) (r : Subscription)
      → lookup id connected ≡ some c
      → ((j : Text)
          → lookup j r.connected
            ≡ ite (text_discrete id j) (some (with_sf msg.sf topic c)) (lookup j connected))
      → IsOrdered r.connected
      → ClientsInv r.connected saved
  unfolding with_sf add_sf
  ClientsInv-subscribe fd msg topic id e r held marked ordered = record {
    ordered = ordered;
    ordered_saved = inv.ordered_saved;
    named = λ k c h. ground (arith, marked k, inv.named k c, inv.named id e held);
    idle = λ k c h. ground (arith, marked k, inv.idle k c, inv.idle id e held);
    apart = λ k c h.
        ground
          (arith, marked k, inv.apart k c, inv.apart id e held, ap (λ (i : Text). lookup i saved));
    stored = inv.stored;
    keeps = inv.keeps;
  }
