-- ===== src/Pubsub/Server/State.antt =====
-- What the server's functions share: what they send and print, the ways in which the process can
-- go wrong, and sets of file descriptors (server.cpp, server.h).
use teme_pcom_anul_2_sem.Prelude.{
  ℕ, Bool, true, false, ◌∷◌, Text, codes, Option, none, some, ◌==◌, if◌then◌else◌,
}
use teme_pcom_anul_2_sem.Dict.{Dict}
use teme_pcom_anul_2_sem.Pubsub.Message.{CliMsg}
use teme_pcom_anul_2_sem.Pubsub.Client.{Client}

-- What `proto_send` is given: a code as text, or a message for a subscriber.
pub data Payload : Type 0 where
  opcode : Text → Payload
  message : CliMsg → Payload

pub data Effect : Type 0 where
  send : ℕ → Payload → Effect
  close : ℕ → Effect
  print : Text → Effect
  print_error : Text → Effect

-- `std::map::at` without the key throws and ends the process; a `memcpy` that is longer than its
-- object and a string that runs past its object are undefined.
pub data Fault : Type 0 where
  out_of_range overrun unterminated out_of_fuel : Fault

pub data Result {ℓ} (A : Type ℓ) : Type ℓ where
  ok : A → Result A
  fault : Fault → Result A

infixl 5 ◌>>=◌
abbrev pub ◌>>=◌ {ℓ κ} : {A : Type ℓ} {B : Type κ} → Result A → (A → Result B) → Result B
ok a >>= f = f a
fault e >>= f = fault e

abbrev pub or_fault {ℓ} : {A : Type ℓ} → Option A → Fault → Result A
or_fault none e = fault e
or_fault (some a) e = ok a

abbrev pub ClientMap : Type 0
ClientMap = Dict Client

-- An `fd_set`.
abbrev pub FdSet : Type 0
FdSet = ℕ → Bool

abbrev pub fd_set : ℕ → FdSet → FdSet
fd_set fd fds j = if j == fd then true else fds j

abbrev pub fd_clr : ℕ → FdSet → FdSet
fd_clr fd fds j = if j == fd then false else fds j

-- The variables of `main`. The two sockets do not change once the loop runs.
pub record Server : Type 0 where
  pub tcp_sockfd : ℕ
  pub udp_sockfd : ℕ
  pub connected : ClientMap
  pub saved : ClientMap
  pub topics : Dict ClientMap
  pub read_fds : FdSet
  pub fdmax : ℕ

-- `"\\$EXIT"` and the other codes: a backslash, a dollar sign and the name.
abbrev pub exit_code : Text
exit_code = 92 ∷ codes "$EXIT"

abbrev pub no_topic_code : Text
no_topic_code = 92 ∷ codes "$NO_TOPIC"

abbrev pub subscribed_code : Text
subscribed_code = 92 ∷ codes "$SUBSCRIBED"

abbrev pub unsubscribed_code : Text
unsubscribed_code = 92 ∷ codes "$UNSUBSCRIBED"

abbrev pub already_sub_code : Text
already_sub_code = 92 ∷ codes "$ALREADY_SUB"
