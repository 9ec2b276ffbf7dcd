-- ===== src/Pubsub/Subscriber/Decode.antt =====
-- subscriber_funs.cpp: what the subscriber does with an opcode and with a message of the server.
use teme_pcom_anul_2_sem.Prelude.{
  be16, be32, ℕ, ◌+◌, ◌-◌, ◌%◌, ◌^◌, List, [], ◌∷◌, ◌++◌, Text, text_discrete, codes, none, some,
  ◌==◌, if◌then◌else◌, ite, take, get_or, c_string, to_string, inet_ntoa, ℤ, pos, negsuc, int32,
  int8, int_to_string, find_char,
}
use teme_pcom_anul_2_sem.Pubsub.Message.{CliMsg, udp_topic}
use teme_pcom_anul_2_sem.Pubsub.Server.State.{Result, ok, ◌>>=◌, or_fault, unterminated}
use teme_pcom_anul_2_sem.Pubsub.Server.Loop.{port_number}

-- What the subscriber does: it prints a line, prints a text without the end of its line, gives
-- bytes to `proto_send`, or exits.
pub data Action : Type 0 where
  say : Text → Action
  say_open : Text → Action
  transmit : List ℕ → Action
  quit : Action

-- EXIT_CODE and the other codes of subscriber.h.
abbrev pub exit_number : ℤ
exit_number = pos 0

abbrev pub no_topic : ℤ
no_topic = pos 404

abbrev pub subscribed : ℤ
subscribed = pos 100

abbrev pub unsubscribed : ℤ
unsubscribed = pos 101

abbrev pub already_sub : ℤ
already_sub = pos 200

abbrev pub int_type : ℕ
int_type = 0

abbrev pub short_type : ℕ
short_type = 1

abbrev pub float_type : ℕ
float_type = 2

abbrev pub string_type : ℕ
string_type = 3

-- `srv_codes`
abbrev pub srv_codes : List (Text × ℤ)
srv_codes =
    (92 ∷ codes "$EXIT", exit_number)
    ∷ (92 ∷ codes "$NO_TOPIC", no_topic)
    ∷ (92 ∷ codes "$SUBSCRIBED", subscribed)
    ∷ (92 ∷ codes "$UNSUBSCRIBED", unsubscribed)
    ∷ (92 ∷ codes "$ALREADY_SUB", already_sub)
    ∷ []

abbrev pub find_code : Text → List (Text × ℤ) → ℤ
find_code opcode [] = negsuc 0
find_code opcode ((key, code) ∷ rest) = ite (text_discrete key opcode) code (find_code opcode rest)

-- The code of a text, −1 if it is none of the server's.
unfoldable pub get_srv_opcode : Text → ℤ
get_srv_opcode opcode = find_code opcode srv_codes

unfoldable pub opcode_received : ℤ → Action
opcode_received (negsuc n) = say (codes "Unknown opcode (this shouldn't be reached)")
opcode_received (pos n) =
    if n == 0
    then quit
    else if n == 404
    then say (codes "No such topic.")
    else if n == 100
    then say (codes "Subscribed to topic.")
    else if n == 101
    then say (codes "Unsubscribed from topic.")
    else if n == 200
    then say (codes "Already subscribed to topic.")
    else say (codes "Unknown opcode (this shouldn't be reached)")

-- What the subscriber uses of `double`: conversion, division, a change of sign, the powers of a
-- number, and `std::to_string`.
pub record Floats : Type 1 where
  pub Double : Type 0
  pub of_nat : ℕ → Double
  pub over : Double → Double → Double
  pub negated : Double → Double
  pub pow : ℕ → ℤ → Double
  pub show : Double → Text

-- `full_val.substr(0, full_val.find('.') + 3)`, where `find` gives 2^64 − 1 if there is no dot.
abbrev pub two_decimals : Text → Text
two_decimals t = elim (find_char 46 t) [ none ↦ take 2 t | some i ↦ take (i + 3) t ]

unfoldable pub int_value : List ℕ → ℤ
int_value payload =
    let int_val = be32 payload 1 in
    if get_or payload 0 0 == 1 then int32 ((2 ^ 32 - int_val) % 2 ^ 32) else int32 int_val

unfoldable pub short_value : Floats → List ℕ → Text
short_value f payload = two_decimals (f.show (f.over (f.of_nat (be16 payload 0)) (f.of_nat 100)))

unfoldable pub float_value : Floats → List ℕ → Text
float_value f payload =
    let scaled = f.over (f.of_nat (be32 payload 1)) (f.pow 10 (int8 (get_or payload 5 0))) in
    f.show (if get_or payload 0 0 == 1 then f.negated scaled else scaled)

-- The line for a message whose payload is printed as `print_val`.
unfoldable pub print_line : CliMsg → Text → Text → Text → Text
unfolding inet_ntoa to_string port_number
print_line new_msg topic print_type print_val =
    inet_ntoa new_msg.ip
    ++ (codes ":"
        ++ (to_string (port_number new_msg.port)
            ++ (codes " "
                ++ (topic ++ (codes " - " ++ (print_type ++ (codes " - " ++ print_val)))))))

-- The end of `identify_msg`: the topic is printed as a C string of the message.
unfoldable pub printed : CliMsg → Text → Text → Result Action
unfolding udp_topic print_line
printed new_msg print_type print_val = do
  topic ← or_fault (udp_topic new_msg.recv_msg) unterminated
  ok (say (print_line new_msg topic print_type print_val))

-- A payload that is a string without a NUL is read past its end.
unfoldable pub identify_msg : Floats → CliMsg → Result Action
unfolding printed int_value short_value float_value int_to_string c_string
identify_msg f new_msg =
    let type = new_msg.recv_msg.type in
    let payload = new_msg.recv_msg.payload in
    if type == int_type
    then printed new_msg (codes "INT") (int_to_string (int_value payload))
    else if type == short_type
    then printed new_msg (codes "SHORT_REAL") (short_value f payload)
    else if type == float_type
    then printed new_msg (codes "FLOAT") (float_value f payload)
    else if type == string_type
    then or_fault (c_string payload) unterminated >>= printed new_msg (codes "STRING")
    else ok (say (codes "Unknown type!"))
