-- ===== src/Pubsub/Subscriber/Commands.antt =====
-- subscriber_funs.cpp: the commands that are typed on standard input.
use teme_pcom_anul_2_sem.Prelude.{
  ℕ, Bool, true, false, List, [], ◌∷◌, ◌++◌, Text, codes, Option, none, some, ◌==◌, ltb,
  if◌then◌else◌, length, take, c_string, ℤ, pos, negsuc, strtok, strtol, starts_with,
}
use teme_pcom_anul_2_sem.Pubsub.Message.{
  FromTcp, buff_len, topic_len, unsubscribe_type, subscribe_type, zero_filled, from_tcp_bytes,
}
use teme_pcom_anul_2_sem.Pubsub.Server.State.{
  Result, ok, fault, ◌>>=◌, or_fault, overrun, unterminated,
}
use teme_pcom_anul_2_sem.Pubsub.Subscriber.Decode.{Action, say, say_open, transmit}

abbrev pub subscribe_usage : Action
subscribe_usage = say (codes "Usage: subscribe <TOPIC> <SF>")

abbrev pub unsubscribe_usage : Action
unsubscribe_usage = say (codes "Usage: unsubscribe <TOPIC>")

-- The topic, cut to 50 characters with a warning if it is longer.
abbrev pub warning : Text → List Action
warning topic =
    if ltb 50 (length topic)
    then say (codes "Warning! Topic should be less than 50 characters.") ∷ []
    else []

abbrev pub cut : Text → Text
cut topic = if ltb 50 (length topic) then take 50 topic else topic

-- `strtol(sf, nullptr, 10) == 1`
abbrev pub booled : ℤ → ℕ
booled (pos n) = if n == 1 then 1 else 0
booled (negsuc n) = 0

-- `new_msg`, zeroed and filled.
unfoldable pub request : ℕ → Text → ℕ → FromTcp
unfolding zero_filled
request type topic sf = record { type = type; topic = zero_filled topic_len topic; sf = sf }

-- Where `strtok(nullptr, " ")` goes on after the command.
unfoldable pub behind_command : Text → Text
unfolding strtok
behind_command t = elim (strtok 32 t) [ none ↦ [] | some (w, rest) ↦ rest ]

unfoldable pub send_subscription : Text → List Action
unfolding strtok strtol request from_tcp_bytes behind_command
send_subscription buffer = elim (strtok 32 (behind_command buffer)) [
  | none ↦ subscribe_usage ∷ []
  | some (topic, rest) ↦ warning topic ++ elim (strtok 32 rest) [
    | none ↦ subscribe_usage ∷ []
    | some (sf, end) ↦ elim (strtok 32 end) [
      | some _ ↦ subscribe_usage ∷ []
      | none ↦
          transmit (from_tcp_bytes (request subscribe_type (cut topic) (booled (strtol sf)))) ∷ []
    ]
  ]
]

unfoldable pub remove_subscription : Text → List Action
unfolding strtok request from_tcp_bytes behind_command
remove_subscription buffer = elim (strtok 32 (behind_command buffer)) [
  | none ↦ unsubscribe_usage ∷ []
  | some (topic, rest) ↦ elim (strtok 32 rest) [
    | some _ ↦ say_open (codes "Usage: unsubscribe <TOPIC>") ∷ []
    | none ↦
        warning topic ++ transmit (from_tcp_bytes (request unsubscribe_type (cut topic) 0)) ∷ []
  ]
]

-- Without the newline at the end.
abbrev pub without_newline : Text → Text
without_newline [] = []
without_newline (c ∷ []) = if c == 10 then [] else c ∷ []
without_newline (c ∷ d ∷ cs) = c ∷ without_newline (d ∷ cs)

-- `buffer` after `read`, as text. At the end of the input `read` gives nothing, and
-- `buffer[strlen(buffer) - 1]` stands before the buffer.
unfoldable pub stdin_text : List ℕ → Result Text
unfolding zero_filled c_string
stdin_text input = do
  t ← or_fault (c_string (zero_filled buff_len input)) unterminated
  elim t [ [] ↦ fault overrun | c ∷ cs ↦ ok (without_newline (c ∷ cs)) ]

-- The command in the buffer: whether to leave, and what is done.
unfoldable pub typed : Text → Bool × List Action
unfolding send_subscription remove_subscription
typed buffer =
    if starts_with (codes "exit") buffer
    then (true, [])
    else if starts_with (codes "subscribe") buffer
    then (false, send_subscription buffer)
    else if starts_with (codes "unsubscribe") buffer
    then (false, remove_subscription buffer)
    else (false, [])

-- `recv_from_stdin`, with what `read` gives if there is input.
unfoldable pub recv_from_stdin : Option (List ℕ) → Result (Bool × List Action)
unfolding stdin_text typed
recv_from_stdin none = ok (false, [])
recv_from_stdin (some input) = stdin_text input >>= λ t. ok (typed t)
