-- ===== src/Webclient/Server/Framing.antt =====
-- How server_ops.cpp splits what it sends, and puts together what it receives.
use teme_pcom_anul_2_sem.Prelude.{
  ℕ, zero, suc, ◌+◌, ◌-◌, ◌%◌, ◌^◌, ◌≡◌, ◌≢◌, ◌≤◌, ◌<◌, refl, ap, sym, ◌∙◌, List, [], ◌∷◌, ◌++◌,
  map, Text, Option, some, arith, min, length, take, drop, append_assoc, append-nil, length-append,
  drop_all, drop_moved, All,
}
use teme_pcom_anul_2_sem.Webclient.Buffer.{
  Buffer, size_max, buffer_init, buffer_add, buffer_find, buffer_find_insensitive, contents,
}
use teme_pcom_anul_2_sem.Webclient.Buffer.Search.{IsBuffer, buffer_add-contents}
use teme_pcom_anul_2_sem.Webclient.Server.{
  ok, Read, chunk, failed, header_terminator, content_length_name, write_loop, send_to_server,
  number_at, recv_header, recv_body, recv_from_server,
}

write_loop_lem :
    (fuel : ℕ) (grant : ℕ → Option ℕ) (call : ℕ) (message : List ℕ) (sent left : ℕ) (out : List ℕ)
    → ((j : ℕ) → (k : ℕ) × (grant j ≡ some (suc k)))
    → sent + left ≡ length message
    → left < fuel
    → write_loop fuel grant call message sent left out
      ≡ some (length message, out ++ drop sent message)
unfolding write_loop
write_loop_lem zero grant call message sent left out moves e enough = absurd (omega arith)
write_loop_lem (suc fuel) grant call message sent zero out moves e enough =
    ground (arith, drop_all sent message (omega arith), append-nil out)
write_loop_lem (suc fuel) grant call message sent (suc left) out moves e enough =
    let (k, g) = moves call in
    let n = min (suc k) (suc left) in
    let rest =
      write_loop_lem fuel grant (suc call) message (sent + n) (suc left - n)
        (out ++ take n (drop sent message)) moves (omega arith) (omega arith) in
    ground (arith, g, rest, drop_moved n sent out message)

-- If every write takes at least one byte, send_to_server writes the whole message once and in
-- order and returns its length; fuel above the length is enough.
pub send_to_server_lem :
    (fuel : ℕ) (grant : ℕ → Option ℕ) (message : Text)
    → ((j : ℕ) → (k : ℕ) × (grant j ≡ some (suc k)))
    → length message < fuel
    → send_to_server fuel grant message ≡ some (length message, message)
unfolding send_to_server
send_to_server_lem fuel grant message moves enough =
    write_loop_lem fuel grant 0 message 0 (length message) [] moves (omega arith) enough

abbrev pub joined : List (List ℕ) → List ℕ
joined [] = []
joined (c ∷ cs) = c ++ joined cs

recv_body-joined :
    (cs : List (List ℕ)) (reads : List Read) (b : Buffer) (total : ℕ)
    → IsBuffer b
    → All (λ c. c ≢ []) cs
    → b.size + length (joined cs) ≡ total
    → (b' : Buffer) × (recv_body (map chunk cs ++ reads) b total ≡ ok b')
      × IsBuffer b'
      × (contents b'.bytes ≡ contents b.bytes ++ joined cs)
unfolding recv_body
recv_body-joined [] [] b total w n e = (b, refl, w, sym (append-nil _))
recv_body-joined [] (failed ∷ reads) b total w n e = (b, ground arith, w, sym (append-nil _))
recv_body-joined [] (chunk c ∷ reads) b total w n e = (b, ground arith, w, sym (append-nil _))
recv_body-joined (c ∷ cs) reads b total w n e =
    let (w', added) = buffer_add-contents b c w in
    let long : length c ≢ 0 = λ z. n.0 (ground arith) in
    let lens = length-append c (joined cs) in
    let (b', e', w'', all) =
      recv_body-joined cs reads (buffer_add b c) total w' n.1
        (omega (arith, w', length-append (contents b.bytes) c, ap length added, lens)) in
    (
      b',
      ground (arith, e', lens),
      w'',
      all ∙ (ap (λ xs. xs ++ joined cs) added ∙ append_assoc (contents b.bytes) c (joined cs)),
    )

-- What the code reads of the header in the first bytes that arrive.
pub record Announces (first : List ℕ) (header_end content_length : ℕ) : Type 0 where
  pub some_bytes : first ≢ []
  pub ends : buffer_find (buffer_add buffer_init first) header_terminator ≡ header_end
  pub announced :
      number_at
        ((buffer_find_insensitive (buffer_add buffer_init first) content_length_name + 16) % 2 ^ 64)
        (buffer_add buffer_init first)
      ≡ ok content_length

recv_header-Announces :
    (first : List ℕ) (reads : List Read) (header_end content_length : ℕ)
    → Announces first header_end content_length
    → recv_header (chunk first ∷ reads) buffer_init 0
      ≡ ok (record {
        buffer = buffer_add buffer_init first;
        header_end = (header_end + 4) % 2 ^ 64;
        content_length = content_length;
        reads = reads;
      })
unfolding recv_header
recv_header-Announces first reads header_end content_length a =
    let long : length first ≢ 0 = λ z. a.some_bytes (ground arith) in
    ground (arith, a.ends, a.announced)

recv_body_done :
    (reads : List Read) (b : Buffer) (total : ℕ) → total ≤ b.size → recv_body reads b total ≡ ok b
unfolding recv_body
recv_body_done [] b total h = refl
recv_body_done (failed ∷ reads) b total h = ground arith
recv_body_done (chunk c ∷ reads) b total h = ground arith

-- The two loops one after the other, and the NUL.
recv_from_server_lem :
    (first : List ℕ) (reads : List Read) (header_end content_length : ℕ) (b : Buffer)
    → Announces first header_end content_length
    → recv_body reads
        (buffer_add buffer_init first)
        ((content_length + (header_end + 4) % 2 ^ 64) % 2 ^ 64)
      ≡ ok b
    → IsBuffer b
    → recv_from_server (chunk first ∷ reads) ≡ ok (contents b.bytes ++ 0 ∷ [])
unfolding recv_from_server
recv_from_server_lem first reads header_end content_length b a e w = ground (
  arith,
  recv_header-Announces first reads header_end content_length a,
  e,
  (buffer_add-contents b (0 ∷ []) w).1,
)

first-IsBuffer : (first : List ℕ) → IsBuffer (buffer_add buffer_init first)
unfolding buffer_add buffer_init
first-IsBuffer first = omega arith

start-size : (first : List ℕ) → (buffer_add buffer_init first).size ≡ length first
unfolding buffer_add buffer_init
start-size first = omega arith

-- If the first bytes that arrive hold the end of the header and the Content-Length, and the pieces
-- that follow complete the announced number of bytes, recv_from_server returns all of them with a
-- NUL behind, however they are split, and does not read further.
pub recv_from_server-framed :
    (first : List ℕ) (pieces : List (List ℕ)) (reads : List Read) (header_end content_length : ℕ)
    → Announces first header_end content_length
    → All (λ c. c ≢ []) pieces
    → header_end + 4 + content_length < 2 ^ 64
    → length first + length (joined pieces) ≡ header_end + 4 + content_length
    → recv_from_server (chunk first ∷ map chunk pieces ++ reads)
      ≡ ok ((first ++ joined pieces) ++ 0 ∷ [])
unfolding recv_from_server
recv_from_server-framed first pieces reads header_end content_length a full small e =
    let start = buffer_add buffer_init first in
    let total : ℕ = (content_length + (header_end + 4) % 2 ^ 64) % 2 ^ 64 in
    let (b, got, w, all) =
      recv_body-joined pieces reads start total (first-IsBuffer first) full
        (omega (arith, start-size first)) in
    recv_from_server_lem first (map chunk pieces ++ reads) header_end content_length b a got w
    ∙ ap (λ xs. ok (xs ++ 0 ∷ [])) all

-- If the first bytes that arrive have no end of the header, and no number where the code then
-- looks for the Content-Length, recv_from_server returns these bytes alone, whatever would arrive
-- next.
pub recv_from_server-split_header :
    (first : List ℕ) (reads : List Read)
    → Announces first size_max 0
    → 3 ≤ length first
    → recv_from_server (chunk first ∷ reads) ≡ ok (first ++ 0 ∷ [])
unfolding recv_from_server
recv_from_server-split_header first reads a long =
    recv_from_server_lem first reads size_max 0 (buffer_add buffer_init first) a
      (recv_body_done reads (buffer_add buffer_init first) ((0 + (size_max + 4) % 2 ^ 64) % 2 ^ 64)
        (omega (arith, start-size first)))
      (first-IsBuffer first)
