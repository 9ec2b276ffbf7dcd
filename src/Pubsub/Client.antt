-- ===== src/Pubsub/Client.antt =====
-- Tema-2-PCom/Client.cpp: what the server keeps of a client.
use teme_pcom_anul_2_sem.Prelude.{ℕ, ◌≡◌, arith, List, [], ◌∷◌, ◌++◌, Text}
use teme_pcom_anul_2_sem.Pubsub.Message.{CliMsg}

-- The head of `missed` is the front of the queue.
pub record Client : Type 0 where
  pub client_socket : ℕ
  pub id : Text
  pub sf : List Text
  pub missed : List CliMsg

unfoldable pub new_client : ℕ → Text → Client
new_client fd id = record { client_socket = fd; id = id; sf = []; missed = [] }

unfoldable pub set_client_socket : ℕ → Client → Client
set_client_socket fd c = record c { client_socket = fd }

unfoldable pub add_sf : Text → Client → Client
add_sf topic c = record c { sf = c.sf ++ topic ∷ [] }

unfoldable pub add_missed : CliMsg → Client → Client
add_missed msg c = record c { missed = c.missed ++ msg ∷ [] }

tail_of : List CliMsg → List CliMsg
tail_of [] = []
tail_of (m ∷ ms) = ms

-- `pop` of an empty `std::queue` is undefined; the server pops only what it has seen.
unfoldable pub pop_missed : Client → Client
unfolding tail_of
pop_missed c = record c { missed = tail_of c.missed }

pub pop_missed_lem :
    (c : Client) {m : CliMsg} {queue : List CliMsg}
    → c.missed ≡ m ∷ queue
    → pop_missed c ≡ record c { missed = queue }
unfolding pop_missed
pop_missed_lem c h = ground arith
