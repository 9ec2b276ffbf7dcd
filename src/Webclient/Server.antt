-- ===== src/Webclient/Server.antt =====
-- Tema-3-PCom/server_ops.cpp: a request is written to the server, and its response read.
pub mod Framing
use teme_pcom_anul_2_sem.Prelude.{
  ℕ, zero, suc, ◌+◌, ◌-◌, ◌%◌, ◌^◌, Bool, true, false, List, [], ◌∷◌, ◌++◌, Text, codes, Option,
  none, some, ◌==◌, ltb, leb, min, if◌then◌else◌, length, take, drop, strtol_in, to_size,
}
use teme_pcom_anul_2_sem.Webclient.Buffer.{
  Buffer, size_max, buffer_init, buffer_add, buffer_find, buffer_find_insensitive, contents,
}

-- How a call ends: it returns, reads outside an object, does not end, or throws what nobody
-- catches.
pub data Result {ℓ} (A : Type ℓ) : Type ℓ where
  ok : A → Result A
  overrun : Result A
  endless : Result A
  uncaught : Result A

infixl 5 ◌>>=◌
abbrev pub ◌>>=◌ {ℓ κ} : {A : Type ℓ} {B : Type κ} → Result A → (A → Result B) → Result B
ok a >>= f = f a
overrun >>= f = overrun
endless >>= f = endless
uncaught >>= f = uncaught

-- What one call of `read` gives: bytes, or −1. At the end of the list it gives 0.
pub data Read : Type 0 where
  chunk : List ℕ → Read
  failed : Read

abbrev pub header_terminator : Text
header_terminator = 13 ∷ 10 ∷ 13 ∷ 10 ∷ []

abbrev pub content_length_name : Text
content_length_name = codes "Content-Length: "

-- The loop of `send_to_server`. What each call of `write` takes at most is given by its number.
-- The result has the returned number and the bytes written; `none` is a loop that did not end.
unfoldable pub write_loop : ℕ → (ℕ → Option ℕ) → ℕ → List ℕ → ℕ → ℕ → List ℕ → Option (ℕ × List ℕ)
write_loop zero grant call message bytes_sent bytes_remaining out = none
write_loop (suc fuel) grant call message bytes_sent bytes_remaining out =
    if ltb 0 bytes_remaining
    then elim (grant call) [
      | none ↦ some (size_max, out)
      | some k ↦
          let status = min k bytes_remaining in
          write_loop fuel grant (suc call) message (bytes_sent + status) (bytes_remaining - status)
            (out ++ take status (drop bytes_sent message))
    ]
    else some (bytes_sent, out)

unfoldable pub send_to_server : ℕ → (ℕ → Option ℕ) → Text → Option (ℕ × List ℕ)
unfolding write_loop
send_to_server fuel grant message = write_loop fuel grant 0 message 0 (length message) []

-- The variables of `recv_from_server` after its first loop, and the calls of `read` that are left.
pub record Header : Type 0 where
  pub buffer : Buffer
  pub header_end : ℕ
  pub content_length : ℕ
  pub reads : List Read

-- `strtol(buffer.data + start, nullptr, 10)`
abbrev pub number_at : ℕ → Buffer → Result ℕ
number_at start b = elim (strtol_in (drop start (contents b.bytes))) [
  | none ↦ overrun
  | some n ↦ ok (to_size n)
]

-- The first loop. The tests for a negative `size_t` are those of the code. After a failed `read`
-- the size −1 is neither negative nor 0, and `buffer_add` reads past `response`.
unfoldable pub recv_header : List Read → Buffer → ℕ → Result Header
unfolding buffer_add buffer_find buffer_find_insensitive strtol_in
recv_header [] b header_end =
    ok (record { buffer = b; header_end = header_end; content_length = 0; reads = [] })
recv_header (failed ∷ reads) b header_end = overrun
recv_header (chunk response ∷ reads) b header_end =
    let b' = buffer_add b response in
    let found = buffer_find b' header_terminator in
    let found_end = (found + 4) % 2 ^ 64 in
    let start = buffer_find_insensitive b' content_length_name in
    let again = recv_header reads b' (if leb 0 found then found_end else found) in
    if length response == 0
    then ok (record { buffer = b; header_end = header_end; content_length = 0; reads = reads })
    else if leb 0 found
    then if ltb start 0
      then again
      else number_at ((start + 16) % 2 ^ 64) b' >>= (λ n.
        ok (record { buffer = b'; header_end = found_end; content_length = n; reads = reads }))
    else again

-- The second loop.
unfoldable pub recv_body : List Read → Buffer → ℕ → Result Buffer
unfolding buffer_add
recv_body [] b total = ok b
recv_body (failed ∷ reads) b total = if ltb b.size total then overrun else ok b
recv_body (chunk response ∷ reads) b total =
    let more = recv_body reads (buffer_add b response) total in
    if ltb b.size total then (if length response == 0 then ok b else more) else ok b

-- The bytes of the response, with the NUL behind them.
unfoldable pub recv_from_server : List Read → Result (List ℕ)
unfolding recv_header recv_body buffer_add buffer_init
recv_from_server reads = do
  h ← recv_header reads buffer_init 0
  b ← recv_body h.reads h.buffer ((h.content_length + h.header_end) % 2 ^ 64)
  ok (contents (buffer_add b (0 ∷ [])).bytes)
