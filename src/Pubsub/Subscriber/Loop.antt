-- ===== src/Pubsub/Subscriber/Loop.antt =====
-- The loop of `main` of subscriber.cpp.
use teme_pcom_anul_2_sem.Prelude.{
  ℕ, zero, Bool, true, false, List, [], ◌∷◌, ◌++◌, Option, none, some, ltb, if◌then◌else◌, length,
  c_string, ℤ, negsuc,
}
use teme_pcom_anul_2_sem.Pubsub.Message.{cli_msg_size, cli_msg_of}
use teme_pcom_anul_2_sem.Pubsub.Server.State.{Result, ok, ◌>>=◌, or_fault, unterminated}
use teme_pcom_anul_2_sem.Pubsub.Server.Loop.{received}
use teme_pcom_anul_2_sem.Pubsub.Subscriber.Decode.{
  Action, Floats, get_srv_opcode, opcode_received, identify_msg,
}
use teme_pcom_anul_2_sem.Pubsub.Subscriber.Commands.{recv_from_stdin}

-- A code of the server, or `buffer` read as a message.
abbrev pub dispatch : Floats → List ℕ → ℤ → Result Action
dispatch f buffer (negsuc zero) = identify_msg f (cli_msg_of buffer)
dispatch f buffer code = ok (opcode_received code)

-- The branch of the socket, with the frame that `proto_recv` reads.
unfoldable pub from_server : Floats → List ℕ → Result Action
unfolding received get_srv_opcode opcode_received identify_msg cli_msg_of c_string
from_server f frame = do
  buffer ← received frame
  if ltb (length frame) cli_msg_size
      then or_fault (c_string buffer) unterminated >>= (λ t. dispatch f buffer (get_srv_opcode t))
      else identify_msg f (cli_msg_of buffer)

-- One round: the input and the frame that `select` announces. The Boolean says whether the loop is
-- left.
unfoldable pub turn : Floats → Option (List ℕ) → Option (List ℕ) → Result (Bool × List Action)
unfolding recv_from_stdin from_server
turn f input frame = do
  (leave, done) ← recv_from_stdin input
  if leave then ok (true, done) else elim frame [
    | none ↦ ok (false, done)
    | some bytes ↦ from_server f bytes >>= λ a. ok (false, done ++ a ∷ [])
  ]
