-- ===== src/Pubsub/Proto/Rounds.antt =====
-- What `proto_send` of proto.cpp puts under way, `proto_recv` takes back, however the calls of the
-- socket split it.
use teme_pcom_anul_2_sem.Prelude.{
  le_bytes, length-le_bytes, le_value-le_bytes, ℕ, zero, suc, ◌+◌, ◌-◌, ◌≡◌, ◌<◌, ◌≤◌, refl, sym,
  List, [], ◌∷◌, ◌++◌, some, min, arith, length, take, drop, append_assoc, append-nil,
  take-append-drop, length-drop, length-append, take-append, drop-append, take_all, drop_all,
  take_less, drop_less, drop_moved, ◌∙◌,
}
use teme_pcom_anul_2_sem.Pubsub.Message.{buff_len, zero_filled}
use teme_pcom_anul_2_sem.Pubsub.Proto.{
  returned, Grants, size_len, send_loop, proto_send, recv_loop, proto_recv,
}

-- From `call` on, a call of a blocking socket moves at least one byte.
abbrev pub Moves : Grants → ℕ → Type 0
Moves grant call = (j : ℕ) → call ≤ j → (k : ℕ) × (grant j ≡ some (suc k))

-- The call for the size moves its 8 bytes, and the calls for the data move at least one.
abbrev pub Carries : Grants → Type 0
Carries grant = ((k : ℕ) × (grant 0 ≡ some (size_len + k))) × Moves grant 1

send_loop_lem :
    (fuel : ℕ) (grant : Grants) (call : ℕ) (buffer : List ℕ) (sent left : ℕ) (out : List ℕ)
    → Moves grant call
    → sent + left ≡ length buffer
    → left < fuel
    → send_loop fuel grant call buffer sent left out ≡ returned (out ++ drop sent buffer)
unfolding send_loop
send_loop_lem zero grant call buffer sent left out moves e enough = absurd (omega arith)
send_loop_lem (suc fuel) grant call buffer sent zero out moves e enough =
    ground (arith, drop_all sent buffer (omega arith), append-nil out)
send_loop_lem (suc fuel) grant call buffer sent (suc left) out moves e enough =
    let (k, g) = moves call (omega arith) in
    let n = min (suc k) (suc left) in
    let rest =
      send_loop_lem fuel grant (suc call) buffer (sent + n) (suc left - n)
        (out ++ take n (drop sent buffer)) (λ j h. moves j (omega arith)) (omega arith)
        (omega arith) in
    ground (arith, g, rest, drop_moved n sent out buffer)

-- The frame of `buffer`: its size, and its bytes.
abbrev pub frame_of : List ℕ → List ℕ
frame_of buffer = le_bytes size_len (length buffer) ++ buffer

pub proto_send-frame :
    (fuel : ℕ) (grant : Grants) (buffer : List ℕ)
    → Carries grant
    → length buffer < fuel
    → proto_send fuel grant buffer ≡ returned (frame_of buffer)
unfolding proto_send
proto_send-frame fuel grant buffer ((k, g), moves) enough =
    let n = length buffer in
    let head = le_bytes size_len n in
    ground (
      arith,
      g,
      take_all (size_len + k) head (omega (arith, length-le_bytes size_len n)),
      send_loop_lem fuel grant 1 buffer 0 n head moves (omega arith) enough,
    )

-- One call of `recv` that delivers `n` bytes into the buffer.
pub recv_step :
    (fuel : ℕ) (grant : Grants) (call size got left : ℕ) (written pending : List ℕ) (k n : ℕ)
    → grant call ≡ some k
    → got < size
    → min (min k left) (length pending) ≡ n
    → got + n ≤ buff_len
    → recv_loop (suc fuel) grant call size got left written pending
      ≡ recv_loop fuel grant
          (suc call)
          size
          (got + n)
          (left - n)
          (written ++ take n pending)
          (drop n pending)
unfolding recv_loop
recv_step fuel grant call size got left written pending k n g more e fits = ground (arith, g, e)

recv_loop_lem :
    (fuel : ℕ) (grant : Grants) (call size got left : ℕ) (written data' rest : List ℕ)
    → Moves grant call
    → got + left ≡ size
    → length data' ≡ left
    → size ≤ buff_len
    → left < fuel
    → recv_loop fuel grant call size got left written (data' ++ rest)
      ≡ returned
          (record { size = size; buffer = zero_filled buff_len (written ++ data'); pending = rest })
unfolding recv_loop
recv_loop_lem zero grant call size got left written data' rest moves e l fits enough =
    absurd (omega arith)
recv_loop_lem (suc fuel) grant call size got zero written [] rest moves e l fits enough =
    ground (arith, append-nil written)
recv_loop_lem (suc fuel) grant call size got zero written (b ∷ bs) rest moves e l fits enough =
    absurd (omega arith)
recv_loop_lem (suc fuel) grant call size got (suc left) written data' rest moves e l fits enough =
    let (k, g) = moves call (omega arith) in
    let n = min (suc k) (suc left) in
    let next =
      recv_loop_lem fuel grant (suc call) size (got + n) (suc left - n) (written ++ take n data')
        (drop n data') rest (λ j h. moves j (omega arith)) (omega arith)
        (omega (arith, length-drop n data')) fits (omega arith) in
    let all = data' ++ rest in
    recv_step fuel grant call size got (suc left) written all (suc k) n g (omega arith)
      (omega (arith, length-append data' rest)) (omega arith)
    ∙ (rw (take_less n data' rest (omega arith), drop_less n data' rest (omega arith))
        (next ∙ rw (append_assoc written (take n data') (drop n data'), take-append-drop n data')))

pub proto_recv-frame :
    (fuel : ℕ) (grant : Grants) (buffer rest : List ℕ)
    → Carries grant
    → length buffer ≤ buff_len
    → length buffer < fuel
    → proto_recv fuel grant (frame_of buffer ++ rest)
      ≡ returned
          (record { size = length buffer; buffer = zero_filled buff_len buffer; pending = rest })
unfolding proto_recv
proto_recv-frame fuel grant buffer rest ((k, g), moves) fits enough =
    let n = length buffer in
    let head = le_bytes size_len n in
    let next =
      recv_loop_lem fuel grant 1 n 0 n [] buffer rest moves (omega arith) refl fits enough in
    ground (
      arith,
      g,
      append_assoc head buffer rest,
      take-append head (buffer ++ rest) size_len (sym (length-le_bytes size_len n)),
      drop-append head (buffer ++ rest) size_len (sym (length-le_bytes size_len n)),
      le_value-le_bytes size_len n (omega arith),
      next,
    )

-- What proto_send puts under way for a buffer of at most BUFF_LEN bytes, proto_recv takes back
-- with its size, the rest of the buffer zero and what follows untouched, if the size goes in one
-- call and each further call moves at least one byte; fuel above the length is enough for both
-- loops.
pub proto_recv-proto_send :
    (fuel : ℕ) (sends recvs : Grants) (buffer rest : List ℕ)
    → Carries sends
    → Carries recvs
    → length buffer ≤ buff_len
    → length buffer < fuel
    → (out : List ℕ) × (proto_send fuel sends buffer ≡ returned out)
      × (proto_recv fuel recvs (out ++ rest)
          ≡ returned (record {
            size = length buffer;
            buffer = zero_filled buff_len buffer;
            pending = rest;
          }))
proto_recv-proto_send fuel sends recvs buffer rest s r fits enough = (
  frame_of buffer,
  proto_send-frame fuel sends buffer s enough,
  proto_recv-frame fuel recvs buffer rest r fits enough,
)
