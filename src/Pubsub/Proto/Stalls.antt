-- ===== src/Pubsub/Proto/Stalls.antt =====
-- Where the loop of `proto_recv` of proto.cpp does not end as it means to.
use teme_pcom_anul_2_sem.Prelude.{
  le_bytes, length-le_bytes, le_value-le_bytes, ℕ, zero, suc, ◌+◌, ◌-◌, ◌≡◌, ◌<◌, ◌≤◌, refl, List,
  [], ◌++◌, min, arith, length, take, drop, take-append, drop-append, length-drop, sym, ◌∙◌, dec_le,
  ◌^◌,
}
use teme_pcom_anul_2_sem.Pubsub.Message.{buff_len}
use teme_pcom_anul_2_sem.Pubsub.Proto.{looping, overran, Grants, size_len, recv_loop, proto_recv}
use teme_pcom_anul_2_sem.Pubsub.Proto.Rounds.{Moves, Carries, recv_step}

recv_loop-stalls :
    (fuel : ℕ) (grant : Grants) (call size got left : ℕ) (written pending : List ℕ)
    → Moves grant call
    → got + left ≡ size
    → length pending < left
    → size ≤ buff_len
    → recv_loop fuel grant call size got left written pending ≡ looping
unfolding recv_loop
recv_loop-stalls zero grant call size got left written pending moves e short fits = refl
recv_loop-stalls (suc fuel) grant call size got left written pending moves e short fits =
    let (k, g) = moves call (omega arith) in
    let n = min (min (suc k) left) (length pending) in
    recv_step fuel grant call size got left written pending (suc k) n g (omega arith) refl
      (omega arith)
    ∙ recv_loop-stalls fuel grant (suc call) size (got + n) (left - n) (written ++ take n pending)
        (drop n pending) (λ j h. moves j (omega arith)) (omega arith)
        (omega (arith, length-drop n pending)) fits

-- If the peer closes the connection in the middle of a frame of at most BUFF_LEN bytes, the loop
-- of proto_recv does not end, whatever the fuel.
pub proto_recv-stalls :
    (fuel : ℕ) (grant : Grants) (size : ℕ) (pending : List ℕ)
    → Carries grant
    → length pending < size
    → size ≤ buff_len
    → proto_recv fuel grant (le_bytes size_len size ++ pending) ≡ looping
unfolding proto_recv
proto_recv-stalls fuel grant size pending ((k, g), moves) short fits =
    let head = le_bytes size_len size in
    ground (
      arith,
      g,
      take-append head pending size_len (sym (length-le_bytes size_len size)),
      drop-append head pending size_len (sym (length-le_bytes size_len size)),
      le_value-le_bytes size_len size (omega arith),
      recv_loop-stalls fuel grant 1 size 0 size [] pending moves (omega arith) short fits,
    )

recv_loop-overruns :
    (fuel : ℕ) (grant : Grants) (call size got left : ℕ) (written pending : List ℕ)
    → Moves grant call
    → got + left ≡ size
    → buff_len < size
    → got ≤ buff_len
    → left ≤ length pending
    → left < fuel
    → recv_loop fuel grant call size got left written pending ≡ overran
unfolding recv_loop
recv_loop-overruns zero grant call size got left written pending moves e big low all enough =
    absurd (omega arith)
recv_loop-overruns (suc fuel) grant call size got left written pending moves e big low all enough =
    let (k, g) = moves call (omega arith) in
    let n = min (min (suc k) left) (length pending) in
    elim (dec_le (got + n) buff_len) [
      | yes fits ↦
          recv_step fuel grant call size got left written pending (suc k) n g (omega arith) refl
            fits
          ∙ recv_loop-overruns fuel grant (suc call) size (got + n) (left - n)
              (written ++ take n pending) (drop n pending) (λ j h. moves j (omega arith))
              (omega arith) big fits (omega (arith, length-drop n pending)) (omega arith)
      | no past ↦ ground (arith, g)
    ]

-- A frame that announces more than BUFF_LEN bytes, and has them, is written past the end of the
-- buffer.
proto_recv-overruns :
    (fuel : ℕ) (grant : Grants) (size : ℕ) (pending : List ℕ)
    → Carries grant
    → buff_len < size
    → size < 2 ^ 64
    → size ≤ length pending
    → size < fuel
    → proto_recv fuel grant (le_bytes size_len size ++ pending) ≡ overran
unfolding proto_recv
proto_recv-overruns fuel grant size pending ((k, g), moves) big word all enough =
    let head = le_bytes size_len size in
    ground (
      arith,
      g,
      take-append head pending size_len (sym (length-le_bytes size_len size)),
      drop-append head pending size_len (sym (length-le_bytes size_len size)),
      le_value-le_bytes size_len size (omega arith),
      recv_loop-overruns fuel grant 1 size 0 size [] pending moves (omega arith) big (omega arith)
          all enough,
    )
