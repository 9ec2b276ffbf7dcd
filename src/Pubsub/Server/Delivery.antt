-- ===== src/Pubsub/Server/Delivery.antt =====
-- Who gets a message: `send_new_msg` of server_funs.cpp against a description of its outcome.
use teme_pcom_anul_2_sem.Prelude.{
  ℕ, zero, suc, ◌+◌, ◌≡◌, ◌≢◌, refl, List, [], ◌∷◌, ◌++◌, Text, text_discrete, none, some, ite,
  arith, map, ◌∙◌, ap, is_some, if◌then◌else◌, if_pos, if_neg, replicate, append_assoc, append-nil,
}
use native.Mathlib.Nat.{zero-add, suc-add}
use teme_pcom_anul_2_sem.Dict.{lookup, lookup-modify, modify-IsOrdered, IsOrdered}
use teme_pcom_anul_2_sem.Pubsub.Message.{CliMsg}
use teme_pcom_anul_2_sem.Pubsub.Client.{Client, add_missed}
use teme_pcom_anul_2_sem.Pubsub.Server.State.{send, message, ClientMap}
use teme_pcom_anul_2_sem.Pubsub.Server.Topics.{find_sf, store_msg, send_msg, send_new_msg}

-- How many entries of a topic stand for the client `id`.
abbrev pub copies : Text → ClientMap → ℕ
copies id [] = 0
copies id ((_, crt) ∷ m) = ite (text_discrete crt.id id) (suc (copies id m)) (copies id m)

-- The subscribers that are connected, in the order of iteration.
abbrev pub online : ClientMap → ClientMap → List Client
online connected [] = []
online connected ((_, crt) ∷ m) =
    if is_some (lookup crt.id connected) then crt ∷ online connected m else online connected m

one-add : (n : ℕ) → 1 + n ≡ suc n
one-add n = omega arith

replicate-add {ℓ} :
    {A : Type ℓ} (m n : ℕ) (a : A) → replicate m a ++ replicate n a ≡ replicate (m + n) a
replicate-add zero n a = rw zero-add
replicate-add (suc m) n a = rw suc-add (ap (◌∷◌ a) (replicate-add m n a))

module _ (for_client : CliMsg) (connected : ClientMap) (topic : Text) where
  -- How many of `n` copies are kept for the client `id` with the kept topics `sf`: none if it is
  -- connected, or does not want the topic kept.
  abbrev pub kept : Text → List Text → ℕ → ℕ
  kept id sf n = if is_some (lookup id connected) then 0 else if find_sf topic sf then n else 0

  abbrev pub stores : ℕ → Text → Client → Client
  stores n id c = record c { missed = c.missed ++ replicate (kept id c.sf n) for_client }

  stores_zero : (id : Text) (c : Client) → stores 0 id c ≡ c
  stores_zero id c = ground (arith, append-nil c.missed)

  stores_add :
      (a b : ℕ) (id : Text) (c : Client) → stores b id (stores a id c) ≡ stores (a + b) id c
  stores_add a b id c = ground (
    arith,
    append_assoc c.missed (replicate (kept id c.sf a) for_client)
        (replicate (kept id c.sf b) for_client),
    replicate-add a b for_client,
  )

  store_msg_other :
      (crt : Client) (saved : ClientMap) (j : Text)
      → crt.id ≢ j
      → lookup j (store_msg for_client connected topic crt saved) ≡ lookup j saved
  unfolding store_msg
  store_msg_other crt saved j h =
      ground (arith, lookup-modify j crt.id (add_missed for_client) saved)

  store_msg_self :
      (crt : Client) (saved : ClientMap) (j : Text) (c : Client)
      → crt.id ≡ j
      → lookup j saved ≡ some c
      → lookup j (store_msg for_client connected topic crt saved) ≡ some (stores 1 j c)
  unfolding store_msg add_missed
  store_msg_self crt saved j c e h = ground (
    arith,
    lookup-modify j crt.id (add_missed for_client) saved,
    append-nil c.missed,
    ap (λ (i : Text). lookup i connected) e,
    ap (λ (i : Text). lookup i saved) e,
  )

  store_msg-none :
      (crt : Client) (saved : ClientMap) (j : Text)
      → lookup j saved ≡ none
      → lookup j (store_msg for_client connected topic crt saved) ≡ none
  unfolding store_msg
  store_msg-none crt saved j h =
      ground (arith, lookup-modify j crt.id (add_missed for_client) saved)

  -- After send_new_msg a stored client has one more copy of the message at the end of its queue
  -- for each of its entries in the topic if it is not connected and keeps that topic, and is
  -- unchanged otherwise.
  pub lookup-send_new_msg :
      (topic_map saved : ClientMap) (j : Text) (c : Client)
      → lookup j saved ≡ some c
      → lookup j (send_new_msg for_client connected topic topic_map saved).0
        ≡ some (stores (copies j topic_map) j c)
  unfolding send_new_msg
  lookup-send_new_msg [] saved j c h = rw (stores_zero j c) h
  lookup-send_new_msg ((k, crt) ∷ m) saved j c h = elim (text_discrete crt.id j) [
    | yes e ↦ rw (if_pos (text_discrete crt.id j) e) (
        lookup-send_new_msg m _ j (stores 1 j c) (store_msg_self crt saved j c e h)
        ∙ ap some (stores_add 1 (copies j m) j c ∙ ap (λ n. stores n j c) (one-add (copies j m))))
    | no n ↦
        rw (if_neg (text_discrete crt.id j) n)
          (lookup-send_new_msg m _ j c (store_msg_other crt saved j n ∙ h))
  ]

  -- Nobody is added to the stored clients.
  pub lookup-send_new_msg-none :
      (topic_map saved : ClientMap) (j : Text)
      → lookup j saved ≡ none
      → lookup j (send_new_msg for_client connected topic topic_map saved).0 ≡ none
  unfolding send_new_msg
  lookup-send_new_msg-none [] saved j h = h
  lookup-send_new_msg-none ((k, crt) ∷ m) saved j h =
      lookup-send_new_msg-none m _ j (store_msg-none crt saved j h)

  pub send_new_msg-sent :
      (topic_map saved : ClientMap)
      → (send_new_msg for_client connected topic topic_map saved).1
        ≡ map (λ c. send c.client_socket (message for_client)) (online connected topic_map)
  unfolding send_new_msg send_msg
  send_new_msg-sent [] saved = refl
  send_new_msg-sent ((k, crt) ∷ m) saved =
      ground (arith, send_new_msg-sent m (store_msg for_client connected topic crt saved))

  store_msg-IsOrdered :
      (crt : Client) (saved : ClientMap)
      → IsOrdered saved
      → IsOrdered (store_msg for_client connected topic crt saved)
  unfolding store_msg
  store_msg-IsOrdered crt saved o =
      ground (arith, modify-IsOrdered crt.id (add_missed for_client) saved)

  pub send_new_msg-IsOrdered :
      (topic_map saved : ClientMap)
      → IsOrdered saved
      → IsOrdered (send_new_msg for_client connected topic topic_map saved).0
  unfolding send_new_msg
  send_new_msg-IsOrdered [] saved o = o
  send_new_msg-IsOrdered ((k, crt) ∷ m) saved o =
      send_new_msg-IsOrdered m _ (store_msg-IsOrdered crt saved o)
