-- ===== src/Pubsub/Subscriber/Printing.antt =====
-- What the subscriber shows of a frame of the server: subscriber_funs.cpp and subscriber.cpp.
use teme_pcom_anul_2_sem.Prelude.{
  be16, be32, ℕ, NotIn, zero, suc, ◌+◌, ◌-◌, ◌/◌, ◌%◌, ◌^◌, ◌≡◌, ◌≢◌, ◌<◌, ◌↔◌, refl, ap, ◌∙◌, List,
  [], ◌∷◌, ◌++◌, Text, codes, some, arith, length, drop, replicate, get_or, c_string, take-append,
  drop-append, length-append, append_assoc, get_or-append, drop_past, ℤ, pos, negsuc, minus, int32,
  int_to_string, if◌then◌else◌, ◌==◌, find_char, to_string, take_past, Bool, true, false, decimal,
  ltb,
}
use teme_pcom_anul_2_sem.Pubsub.Message.{
  CliMsg, topic_len, cli_msg_size, cli_msg_of, cli_msg_bytes, zero_filled, buff_len, udp_topic,
}
use teme_pcom_anul_2_sem.Pubsub.Server.State.{
  ok, exit_code, no_topic_code, subscribed_code, unsubscribed_code, already_sub_code,
}
use teme_pcom_anul_2_sem.Pubsub.Server.Loop.{received}
use teme_pcom_anul_2_sem.Pubsub.Subscriber.Decode.{
  say, Floats, get_srv_opcode, identify_msg, int_value, print_line, printed, int_type, string_type,
  short_type, two_decimals, short_value,
}
use teme_pcom_anul_2_sem.Pubsub.Subscriber.Loop.{from_server}

NotIn-if : (d : ℕ) (s t : Text) (b : Bool) → NotIn d s → NotIn d t → NotIn d (if b then s else t)
NotIn-if d s t true h k = h
NotIn-if d s t false h k = k

NotIn-decimal : (fuel n : ℕ) (acc : Text) → NotIn 46 acc → NotIn 46 (decimal fuel n acc)
unfolding decimal
NotIn-decimal zero n acc h = h
NotIn-decimal (suc fuel) n acc h =
    NotIn-if 46 _ _ (ltb n 10) ((λ e. omega arith), h)
      (NotIn-decimal fuel (n / 10) ((48 + n % 10) ∷ acc) ((λ e. omega arith), h))

to_string-NotIn : (n : ℕ) → NotIn 46 (to_string n)
unfolding to_string
to_string-NotIn n = NotIn-decimal (suc n) n [] tt

-- The fields of a message fill their arrays.
pub record IsWhole (m : CliMsg) : Type 0 where
  pub topic : length m.recv_msg.topic ≡ topic_len
  pub payload : length m.recv_msg.payload ≡ 1500
  pub ip : length m.ip ≡ 4
  pub port : length m.port ≡ 2

module _ (b : ℕ) (behind rest : List ℕ) (m : CliMsg) (w : IsWhole m) where
  -- What stands behind the payload, behind the padding and behind the address.
  abbrev ported : List ℕ
  ported = m.port ++ (behind ++ rest)

  abbrev addressed : List ℕ
  addressed = m.ip ++ ported

  abbrev padded : List ℕ
  padded = b ∷ addressed

  abbrev bytes : List ℕ
  bytes = m.recv_msg.topic ++ (m.recv_msg.type ∷ (m.recv_msg.payload ++ padded))

  bytes_lem : cli_msg_bytes b behind m ++ rest ≡ bytes
  unfolding cli_msg_bytes
  bytes_lem = ground (
    arith,
    append_assoc m.recv_msg.topic
        (m.recv_msg.type ∷ (m.recv_msg.payload ++ (b ∷ (m.ip ++ (m.port ++ behind))))) rest,
    append_assoc m.recv_msg.payload (b ∷ (m.ip ++ (m.port ++ behind))) rest,
    append_assoc m.ip (m.port ++ behind) rest,
    append_assoc m.port behind rest,
  )

  drop-bytes : (n k : ℕ) → n ≡ 1552 + k → drop n bytes ≡ drop k addressed
  drop-bytes n k e =
      drop_past m.recv_msg.topic (m.recv_msg.type ∷ (m.recv_msg.payload ++ padded)) n
        (suc (1501 + k)) (omega (arith, w.topic))
      ∙ drop_past m.recv_msg.payload padded (1501 + k) (suc k) (omega (arith, w.payload))

  cli_msg_of_lem : cli_msg_of bytes ≡ m
  unfolding cli_msg_of
  cli_msg_of_lem =
      let behind_topic = m.recv_msg.type ∷ (m.recv_msg.payload ++ padded) in
      ground (
        arith,
        take-append m.recv_msg.topic behind_topic 50 (omega (arith, w.topic)),
        get_or-append m.recv_msg.topic behind_topic 50 0 (omega (arith, w.topic)),
        drop_past m.recv_msg.topic behind_topic 51 1 (omega (arith, w.topic)),
        take-append m.recv_msg.payload padded 1500 (omega (arith, w.payload)),
        drop-bytes 1552 0 refl,
        take-append m.ip ported 4 (omega (arith, w.ip)),
        drop-bytes 1556 4 refl,
        drop-append m.ip ported 4 (omega (arith, w.ip)),
        take-append m.port (behind ++ rest) 2 (omega (arith, w.port)),
      )

  -- The bytes of a message, with anything behind them, are read back as the message.
  pub cli_msg_of-cli_msg_bytes : cli_msg_of (cli_msg_bytes b behind m ++ rest) ≡ m
  cli_msg_of-cli_msg_bytes = ap cli_msg_of bytes_lem ∙ cli_msg_of_lem

-- Get_srv_opcode gives -1 exactly to the texts that are none of the five codes that the server
-- sends.
get_srv_opcode_lem :
    (t : Text)
    → (get_srv_opcode t ≡ negsuc 0) ↔ (
        (t ≢ exit_code)
        × (t ≢ no_topic_code)
        × (t ≢ subscribed_code)
        × (t ≢ unsubscribed_code)
        × (t ≢ already_sub_code))
unfolding get_srv_opcode
get_srv_opcode_lem t = ground arith

int32-minus : (n : ℕ) → n < 2 ^ 31 → int32 ((2 ^ 32 - n) % 2 ^ 32) ≡ minus n
int32-minus zero h = ground arith
int32-minus (suc n) h = ground arith

-- An INT payload has a sign byte and a number in network order.
abbrev pub signed_value : List ℕ → ℤ
signed_value payload =
    if get_or payload 0 0 == 1 then minus (be32 payload 1) else pos (be32 payload 1)

int_value-signed_value :
    (payload : List ℕ) → be32 payload 1 < 2 ^ 31 → int_value payload ≡ signed_value payload
unfolding int_value
int_value-signed_value payload h = ground (arith, int32-minus (be32 payload 1) h)

length-cli_msg_bytes :
    (b : ℕ) (behind : List ℕ) (m : CliMsg)
    → IsWhole m
    → length behind ≡ 2
    → length (cli_msg_bytes b behind m) ≡ cli_msg_size
unfolding cli_msg_bytes
length-cli_msg_bytes b behind m w two = omega (
  arith,
  length-append m.recv_msg.topic
      (m.recv_msg.type ∷ (m.recv_msg.payload ++ (b ∷ (m.ip ++ (m.port ++ behind))))),
  length-append m.recv_msg.payload (b ∷ (m.ip ++ (m.port ++ behind))),
  length-append m.ip (m.port ++ behind),
  length-append m.port behind,
  w.topic,
  w.payload,
  w.ip,
  w.port,
)

-- A frame that is a whole message goes to `identify_msg`.
pub from_server-message :
    (f : Floats) (b : ℕ) (behind : List ℕ) (m : CliMsg)
    → IsWhole m
    → length behind ≡ 2
    → from_server f (cli_msg_bytes b behind m) ≡ identify_msg f m
unfolding from_server received zero_filled
from_server-message f b behind m w two = ground (
  arith,
  length-cli_msg_bytes b behind m w two,
  cli_msg_of-cli_msg_bytes b behind (replicate (buff_len - length (cli_msg_bytes b behind m)) 0) m
      w,
)

-- The frame of a whole message with an INT payload below 2^31 is printed with the address and port
-- of the publisher, the topic and the number, negative exactly if the sign byte is 1 and the
-- number is not 0, whatever the padding bytes.
pub from_server-int :
    (f : Floats) (b : ℕ) (behind : List ℕ) (m : CliMsg) (topic : Text)
    → IsWhole m
    → length behind ≡ 2
    → m.recv_msg.type ≡ int_type
    → udp_topic m.recv_msg ≡ some topic
    → be32 m.recv_msg.payload 1 < 2 ^ 31
    → from_server f (cli_msg_bytes b behind m)
      ≡ ok
          (say (print_line m topic (codes "INT") (int_to_string (signed_value m.recv_msg.payload))))
unfolding identify_msg printed
from_server-int f b behind m topic w two kind named small =
    from_server-message f b behind m w two
    ∙ ground (arith, int_value-signed_value m.recv_msg.payload small)

-- The frame of a whole message with a STRING payload that has a NUL is printed with the text
-- before that NUL.
from_server-string :
    (f : Floats) (b : ℕ) (behind : List ℕ) (m : CliMsg) (topic text : Text)
    → IsWhole m
    → length behind ≡ 2
    → m.recv_msg.type ≡ string_type
    → udp_topic m.recv_msg ≡ some topic
    → c_string m.recv_msg.payload ≡ some text
    → from_server f (cli_msg_bytes b behind m) ≡ ok (say (print_line m topic (codes "STRING") text))
unfolding identify_msg printed
from_server-string f b behind m topic text w two kind named ends =
    from_server-message f b behind m w two ∙ ground arith

find_char-append :
    (a rest : Text) (d : ℕ) → NotIn d a → find_char d (a ++ d ∷ rest) ≡ some (length a)
find_char-append [] rest d h = ground arith
find_char-append (c ∷ a) rest d h = ground (arith, find_char-append a rest d h.1)

two_decimals_lem :
    (a rest : Text) (x y : ℕ)
    → NotIn 46 a
    → two_decimals (a ++ 46 ∷ x ∷ y ∷ rest) ≡ a ++ 46 ∷ x ∷ y ∷ []
two_decimals_lem a rest x y h =
    let behind = x ∷ y ∷ rest in
    ground (arith, find_char-append a behind 46 h, take_past a (46 ∷ behind) (length a + 3) 3 refl)

-- If std::to_string of n / 100 is its integer part, a dot and the decimals, the frame of a whole
-- message with a SHORT_REAL payload n is printed with exactly two decimals.
from_server-short :
    (f : Floats) (b : ℕ) (behind : List ℕ) (m : CliMsg) (topic : Text)
    → ((n : ℕ)
        → n < 2 ^ 16
        → (rest : Text) × (f.show (f.over (f.of_nat n) (f.of_nat 100))
            ≡ to_string (n / 100) ++ 46 ∷ (48 + n / 10 % 10) ∷ (48 + n % 10) ∷ rest))
    → IsWhole m
    → length behind ≡ 2
    → m.recv_msg.type ≡ short_type
    → udp_topic m.recv_msg ≡ some topic
    → be16 m.recv_msg.payload 0 < 2 ^ 16
    → let n = be16 m.recv_msg.payload 0 in
      from_server f (cli_msg_bytes b behind m)
      ≡ ok (
          say (
            print_line m topic
              (codes "SHORT_REAL")
              (to_string (n / 100) ++ 46 ∷ (48 + n / 10 % 10) ∷ (48 + n % 10) ∷ [])))
unfolding identify_msg printed short_value
from_server-short f b behind m topic shows w two kind named small =
    let n = be16 m.recv_msg.payload 0 in
    let (rest, s) = shows n small in
    from_server-message f b behind m w two
    ∙ ground (
      arith,
      s,
      two_decimals_lem (to_string (n / 100)) rest (48 + n / 10 % 10) (48 + n % 10)
          (to_string-NotIn (n / 100)),
    )
