-- ===== src/Pubsub/Server/Preservation/Datagram.antt =====
-- A datagram keeps the invariant.
use teme_pcom_anul_2_sem.Prelude.{ℕ, ◌≡◌, refl, [], Text, some, arith, Option-cases, inl, inr}
use teme_pcom_anul_2_sem.Dict.{lookup}
use teme_pcom_anul_2_sem.Pubsub.Message.{udp_topic}
use teme_pcom_anul_2_sem.Pubsub.Server.State.{Server}
use teme_pcom_anul_2_sem.Pubsub.Server.Topics.{new_topic, send_new_msg}
use teme_pcom_anul_2_sem.Pubsub.Server.Loop.{Env, message_of, handle_datagram}
use teme_pcom_anul_2_sem.Pubsub.Server.Invariant.{Inv, ClientsInv-send_new_msg, TopicsInv-new_topic}
use teme_pcom_anul_2_sem.Pubsub.Server.Preservation.Defs.{Handles}

pub handle_datagram-Handles :
    (env : Env) (s : Server) (i : ℕ) (t : Text)
    → udp_topic env.datagram ≡ some t
    → Inv s
    → Handles env s i (handle_datagram env s)
unfolding handle_datagram
handle_datagram-Handles env s i t named inv = elim (Option-cases (lookup t s.topics)) [
  | inl new ↦ (
    record s { topics = new_topic s.topics t },
    [],
    ground arith,
    record {
      inv = record {
        clients = inv.clients;
        topics = TopicsInv-new_topic inv.topics t;
        sockets = inv.sockets;
      };
      tcp = refl;
      udp = refl;
      gained = λ j h. inl h;
      still = λ j n h. h;
      below = omega arith;
    },
  )
  | inr (m, held) ↦
      let r = send_new_msg (message_of env) s.connected t m s.saved in
      (
        record s { saved = r.0 },
        r.1,
        ground arith,
        record {
          inv = record {
            clients = ClientsInv-send_new_msg inv.clients (message_of env) t m;
            topics = inv.topics;
            sockets = inv.sockets;
          };
          tcp = refl;
          udp = refl;
          gained = λ j h. inl h;
          still = λ j n h. h;
          below = omega arith;
        },
      )
]
