-- ===== src/Pubsub/Subscriber/Examples.antt =====
-- The subscriber at concrete inputs.
use teme_pcom_anul_2_sem.Prelude.{
  ℕ, pos, ◌+◌, ◌/◌, ◌%◌, ◌≡◌, ◌≢◌, refl, List, [], ◌∷◌, ◌++◌, Text, codes, some, arith, replicate,
  true, text_discrete, to_string, int_to_string, strtol,
}
use teme_pcom_anul_2_sem.Pubsub.Message.{CliMsg, cli_msg_bytes, subscribe_type, udp_topic}
use teme_pcom_anul_2_sem.Pubsub.Server.State.{ok, fault, overrun}
use teme_pcom_anul_2_sem.Pubsub.Subscriber.Decode.{say, transmit, Floats, print_line}
use teme_pcom_anul_2_sem.Pubsub.Subscriber.Commands.{send_subscription, recv_from_stdin, typed}
use teme_pcom_anul_2_sem.Pubsub.Subscriber.Loop.{from_server, turn}
use teme_pcom_anul_2_sem.Pubsub.Subscriber.Requests.{Reads, send_subscription-request}
use teme_pcom_anul_2_sem.Pubsub.Subscriber.Printing.{IsWhole, from_server-int, signed_value}

-- A number that stands for itself over a hundred.
abbrev hundredths : Floats
hundredths = record {
  Double = ℕ;
  of_nat = λ n. n;
  over = λ a b. a;
  negated = λ a. a;
  pow = λ a b. a;
  show = λ n. to_string (n / 100) ++ 46 ∷ (48 + n / 10 % 10) ∷ (48 + n % 10) ∷ codes "0000";
}

abbrev news : Text
news = codes "news"

abbrev value : ℕ → List ℕ → CliMsg
value type bytes = record {
  recv_msg = record {
    topic = news ++ replicate 46 0;
    type = type;
    payload = bytes ++ replicate 1490 0;
  };
  ip = 127 ∷ 0 ∷ 0 ∷ 1 ∷ [];
  port = 31 ∷ 144 ∷ [];
}

abbrev int_msg : CliMsg
int_msg = value 0 (1 ∷ 0 ∷ 0 ∷ 1 ∷ 2 ∷ 0 ∷ 0 ∷ 0 ∷ 0 ∷ 0 ∷ [])

abbrev short_msg : CliMsg
short_msg = value 1 (9 ∷ 41 ∷ 0 ∷ 0 ∷ 0 ∷ 0 ∷ 0 ∷ 0 ∷ 0 ∷ 0 ∷ [])

abbrev string_msg : CliMsg
string_msg = value 3 (codes "hello" ++ 0 ∷ 0 ∷ 0 ∷ 0 ∷ 0 ∷ [])

-- At the end of the input the byte in front of the buffer is read.
end_of_input : recv_from_stdin (some []) ≡ fault overrun
unfolding recv_from_stdin
end_of_input = refl

-- A closed connection is taken for a message of zeros.
closed_connection : from_server hundredths [] ≡ ok (say (codes "0.0.0.0:0  - INT - 0"))
unfolding from_server text_discrete
closed_connection = refl

leaves : turn hundredths (some (codes "exit" ++ 10 ∷ [])) (some []) ≡ ok (true, [])
unfolding turn
leaves = refl

spaced_usage : (typed (codes "subscribe news")).1 ≡ say (codes "Usage: subscribe <TOPIC> <SF>") ∷ []
unfolding typed
spaced_usage = refl

send_subscription-request_example :
    (frame : List ℕ) × (flag : ℕ) × (send_subscription (codes "subscribe news 1")
      ≡ transmit frame ∷ [])
    × Reads frame subscribe_type news flag
    × (strtol (codes "1") ≡ pos 1 → flag ≡ 1)
    × (strtol (codes "1") ≢ pos 1 → flag ≡ 0)
send_subscription-request_example =
    send_subscription-request news (codes "1") (ground arith) (ground arith) (λ e. cc) (λ e. cc)
      (ground arith) (omega arith)

int_msg-IsWhole : IsWhole int_msg
int_msg-IsWhole = record { topic = refl; payload = refl; ip = refl; port = refl }

short_msg-IsWhole : IsWhole short_msg
short_msg-IsWhole = record { topic = refl; payload = refl; ip = refl; port = refl }

string_msg-IsWhole : IsWhole string_msg
string_msg-IsWhole = record { topic = refl; payload = refl; ip = refl; port = refl }

from_server-int_example :
    from_server hundredths (cli_msg_bytes 0 (0 ∷ 0 ∷ []) int_msg)
    ≡ ok (
        say (
          print_line int_msg news
            (codes "INT")
            (int_to_string (signed_value int_msg.recv_msg.payload))))
unfolding udp_topic
from_server-int_example =
    from_server-int hundredths 0 (0 ∷ 0 ∷ []) int_msg news int_msg-IsWhole refl refl refl
      (omega arith)
