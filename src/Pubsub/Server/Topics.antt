-- ===== src/Pubsub/Server/Topics.antt =====
-- Topics in server_funs.cpp: `new_topic`, `send_new_msg`, `subscribe`, `unsubscribe` and
-- `msg_from_client`.
use teme_pcom_anul_2_sem.Prelude.{
  ℕ, Bool, true, false, List, [], ◌∷◌, ◌++◌, Text, text_discrete, codes, none, some, ◌==◌, ite,
  if◌then◌else◌, is_some,
}
use teme_pcom_anul_2_sem.Dict.{Dict, lookup, insert, erase, modify}
use teme_pcom_anul_2_sem.Pubsub.Message.{
  FromTcp, CliMsg, tcp_topic, unsubscribe_type, subscribe_type,
}
use teme_pcom_anul_2_sem.Pubsub.Client.{Client, add_sf, add_missed}
use teme_pcom_anul_2_sem.Pubsub.Server.State.{
  Effect, send, print_error, opcode, message, Result, ok, ◌>>=◌, or_fault, out_of_range,
  unterminated, ClientMap, no_topic_code, subscribed_code, unsubscribed_code, already_sub_code,
}

unfoldable pub new_topic : Dict ClientMap → Text → Dict ClientMap
new_topic topics topic = insert topic [] topics

-- `std::find(sfs.begin(), sfs.end(), topic) != sfs.end()`
unfoldable pub find_sf : Text → List Text → Bool
find_sf topic [] = false
find_sf topic (t ∷ ts) = ite (text_discrete t topic) true (find_sf topic ts)

module _ (for_client : CliMsg) (connected : ClientMap) (topic : Text) where
  -- The saved clients after one round of the loop of `send_new_msg`, for the entry `crt`.
  unfoldable pub store_msg : Client → ClientMap → ClientMap
  store_msg crt saved = elim (lookup crt.id connected) [
    | some _ ↦ saved
    | none ↦ elim (lookup crt.id saved) [
      | none ↦ saved
      | some client ↦
          if find_sf topic client.sf then modify crt.id (add_missed for_client) saved else saved
    ]
  ]

  -- What that round sends. A `send` that fails ends the process in main_round of Pubsub/Server/Main.
  unfoldable pub send_msg : Client → List Effect
  send_msg crt = elim (lookup crt.id connected) [
    | some _ ↦ send crt.client_socket (message for_client) ∷ []
    | none ↦ []
  ]

  unfoldable pub send_new_msg : ClientMap → ClientMap → ClientMap × List Effect
  unfolding store_msg send_msg
  send_new_msg [] saved = (saved, [])
  send_new_msg ((_, crt) ∷ topic_map) saved =
      let (saved', sent) = send_new_msg topic_map (store_msg crt saved) in
      (saved', send_msg crt ++ sent)

unfoldable pub unsubscribe :
    ℕ → FromTcp → Dict ClientMap → Text → Result (Dict ClientMap × List Effect)
unsubscribe sockfd msg topics id = do
  topic ← or_fault (tcp_topic msg) unterminated
  elim (lookup topic topics) [
    | none ↦ ok (topics, send sockfd (opcode no_topic_code) ∷ [])
    | some _ ↦ ok (modify topic (erase id) topics, send sockfd (opcode unsubscribed_code) ∷ [])
  ]

pub record Subscription : Type 0 where
  pub topics : Dict ClientMap
  pub connected : ClientMap
  pub sent : List Effect

-- `subscribe` behind its first test: the topic exists in `topics`, with the clients `topic_map`.
unfoldable pub add_subscriber :
    ℕ → FromTcp → Text → ClientMap → Dict ClientMap → ClientMap → Text → Result Subscription
add_subscriber sockfd msg topic topic_map topics connected id = elim (lookup id topic_map) [
  | some _ ↦ ok (record {
    topics = topics;
    connected = connected;
    sent = send sockfd (opcode already_sub_code) ∷ [];
  })
  | none ↦ do
    client ← or_fault (lookup id connected) out_of_range
    ok (record {
      topics = modify topic (insert id client) topics;
      connected = if msg.sf == 0 then connected else modify id (add_sf topic) connected;
      sent = send sockfd (opcode subscribed_code) ∷ [];
    })
]

unfoldable pub subscribe : ℕ → FromTcp → Dict ClientMap → ClientMap → Text → Result Subscription
unfolding add_subscriber new_topic
subscribe sockfd msg topics connected id = do
  topic ← or_fault (tcp_topic msg) unterminated
  let topics' = if is_some (lookup topic topics) then topics else new_topic topics topic
  topic_map ← or_fault (lookup topic topics') out_of_range
  add_subscriber sockfd msg topic topic_map topics' connected id

unfoldable pub msg_from_client :
    ℕ → FromTcp → Dict ClientMap → ClientMap → Text → Result Subscription
unfolding unsubscribe subscribe
msg_from_client sockfd msg topics connected id =
    if msg.type == unsubscribe_type
    then (do
      (topics', sent) ← unsubscribe sockfd msg topics id
      ok (record { topics = topics'; connected = connected; sent = sent }))
    else if msg.type == subscribe_type
    then subscribe sockfd msg topics connected id
    else ok (record {
      topics = topics;
      connected = connected;
      sent = print_error (codes "Unknown message type.") ∷ [];
    })
