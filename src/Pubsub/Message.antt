-- ===== src/Pubsub/Message.antt =====
-- The three structures of Tema-2-PCom/proto.h, field by field. A character array is the list of its
-- bytes; an address and a port are their bytes in network order, as the socket calls leave them.
use teme_pcom_anul_2_sem.Prelude.{
  ℕ, ◌-◌, List, [], ◌∷◌, ◌++◌, length, take, drop, get_or, replicate, Text, c_string, Option,
}

abbrev pub buff_len : ℕ
buff_len = 1600

abbrev pub topic_len : ℕ
topic_len = 50

abbrev pub unsubscribe_type : ℕ
unsubscribe_type = 0

abbrev pub subscribe_type : ℕ
subscribe_type = 1

pub record FromTcp : Type 0 where
  pub type : ℕ
  pub topic : List ℕ
  pub sf : ℕ

pub record FromUdp : Type 0 where
  pub topic : List ℕ
  pub type : ℕ
  pub payload : List ℕ

pub record Address : Type 0 where
  pub ip : List ℕ
  pub port : List ℕ

pub record CliMsg : Type 0 where
  pub recv_msg : FromUdp
  pub ip : List ℕ
  pub port : List ℕ

-- `sizeof(from_tcp)`
abbrev pub from_tcp_size : ℕ
from_tcp_size = 52

-- A structure's bytes after `memset(.., 0, n)` and the write of `bs` at its start.
unfoldable pub zero_filled : ℕ → List ℕ → List ℕ
zero_filled n bs = bs ++ replicate (n - length bs) 0

-- The fields of a `from_tcp` in the bytes of its object.
unfoldable pub from_tcp_of : List ℕ → FromTcp
from_tcp_of bs = record {
  type = get_or bs 0 0;
  topic = take topic_len (drop 1 bs);
  sf = get_or bs 51 0;
}

-- The bytes of a `from_tcp`, which has no padding.
unfoldable pub from_tcp_bytes : FromTcp → List ℕ
from_tcp_bytes m = m.type ∷ m.topic ++ m.sf ∷ []

-- `std::string(msg.topic)`: the read goes on into the fields behind `topic` if that has no NUL.
unfoldable pub tcp_topic : FromTcp → Option Text
unfolding c_string
tcp_topic m = c_string (m.topic ++ m.sf ∷ [])

unfoldable pub udp_topic : FromUdp → Option Text
unfolding c_string
udp_topic m = c_string (m.topic ++ m.type ∷ m.payload)

-- `sizeof(cli_msg)`: one byte of padding stands before the address, two behind the port.
abbrev pub cli_msg_size : ℕ
cli_msg_size = 1560

-- The fields of a `cli_msg` in the bytes of its object.
unfoldable pub cli_msg_of : List ℕ → CliMsg
cli_msg_of bs = record {
  recv_msg = record {
    topic = take topic_len bs;
    type = get_or bs 50 0;
    payload = take 1500 (drop 51 bs);
  };
  ip = take 4 (drop 1552 bs);
  port = take 2 (drop 1556 bs);
}

-- The bytes of a `cli_msg`, with those of the padding.
unfoldable pub cli_msg_bytes : ℕ → List ℕ → CliMsg → List ℕ
cli_msg_bytes before behind m =
    m.recv_msg.topic
    ++ (m.recv_msg.type ∷ (m.recv_msg.payload ++ (before ∷ (m.ip ++ (m.port ++ behind)))))
