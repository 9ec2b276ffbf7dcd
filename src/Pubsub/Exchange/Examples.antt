-- ===== src/Pubsub/Exchange/Examples.antt =====
-- A subscription that is typed at a concrete subscriber.
use teme_pcom_anul_2_sem.Prelude.{
  ℕ, ◌≡◌, ◌≢◌, refl, [], ◌∷◌, ◌++◌, text_discrete, codes, some, none, arith, strtol, pos,
}
use teme_pcom_anul_2_sem.Dict.{lookup}
use teme_pcom_anul_2_sem.Pubsub.Message.{from_tcp_bytes, subscribe_type}
use teme_pcom_anul_2_sem.Pubsub.Server.State.{Server, ok, send, opcode, subscribed_code}
use teme_pcom_anul_2_sem.Pubsub.Server.Loop.{Env, handle_client, id_of_socket}
use teme_pcom_anul_2_sem.Pubsub.Server.Subscriptions.{subscribers}
use teme_pcom_anul_2_sem.Pubsub.Server.Rounds.{Reach-Inv}
use teme_pcom_anul_2_sem.Pubsub.Server.Examples.{alice, news, client, env, second, second-Reach}
use teme_pcom_anul_2_sem.Pubsub.Subscriber.Decode.{transmit}
use teme_pcom_anul_2_sem.Pubsub.Subscriber.Commands.{request, send_subscription}
use teme_pcom_anul_2_sem.Pubsub.Exchange.{Joins, typed_subscription}

-- The server's descriptor 7 delivers the request that the subscriber sends.
abbrev delivery : Env
delivery = record env { frame_on = λ fd. from_tcp_bytes (request subscribe_type news 1) }

sent_frame :
    send_subscription (codes "subscribe " ++ news ++ 32 ∷ codes "1")
    ≡ transmit (delivery.frame_on 7) ∷ []
unfolding send_subscription
sent_frame = refl

second_id : id_of_socket 7 second.connected ≡ alice
unfolding second id_of_socket
second_id = refl

second_client : lookup (id_of_socket 7 second.connected) second.connected ≡ some (client 7 [] [])
unfolding second id_of_socket lookup text_discrete
second_client = refl

second_new : lookup (id_of_socket 7 second.connected) (subscribers news second.topics) ≡ none
unfolding second id_of_socket lookup text_discrete
second_new = refl

typed_subscription_example :
    (s' : Server) × (flag : ℕ) × (handle_client delivery second 7
      ≡ ok (s', send 7 (opcode subscribed_code) ∷ []))
    × Joins second s' (id_of_socket 7 second.connected) news (client 7 [] []) flag
    × (strtol (codes "1") ≡ pos 1 → flag ≡ 1)
    × (strtol (codes "1") ≢ pos 1 → flag ≡ 0)
typed_subscription_example =
    typed_subscription delivery second 7 news (codes "1") (client 7 [] []) (Reach-Inv second-Reach)
      second_client second_new (ground arith) (ground arith) (λ e. cc) (λ e. cc) (ground arith)
      (omega arith) sent_frame
