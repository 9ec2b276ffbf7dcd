-- ===== src/Pubsub/Proto.antt =====
-- Tema-2-PCom/proto.cpp: `proto_send` and `proto_recv` over partial `send` and `recv` calls. A
-- direction of a connection is the list of the bytes that are under way. What each call of the
-- socket accepts or delivers at most is given by its number; `none` is a failure, on which `DIE`
-- ends the process.
mod Rounds
mod Stalls
mod Examples
use teme_pcom_anul_2_sem.Prelude.{
  le_bytes, le_value, ℕ, zero, suc, ◌+◌, ◌-◌, ◌*◌, ◌/◌, ◌%◌, List, [], ◌∷◌, ◌++◌, Option, none,
  some, min, ltb, if◌then◌else◌, length, take, drop,
}
use teme_pcom_anul_2_sem.Pubsub.Message.{buff_len, zero_filled}

-- How a call of the protocol ends: it returns, `DIE` ends the process, it writes past the buffer,
-- or it is still in its loop when the fuel is spent.
pub data Ending {ℓ} (A : Type ℓ) : Type ℓ where
  returned : A → Ending A
  died : Ending A
  overran : Ending A
  looping : Ending A

abbrev pub Grants : Type 0
Grants = ℕ → Option ℕ

-- `sizeof(size_t)`
abbrev pub size_len : ℕ
size_len = 8

-- The loop of `proto_send`: the result is what it adds to the bytes under way.
unfoldable pub send_loop : ℕ → Grants → ℕ → List ℕ → ℕ → ℕ → List ℕ → Ending (List ℕ)
send_loop zero grant call buffer bytes_sent bytes_to_send out = looping
send_loop (suc fuel) grant call buffer bytes_sent bytes_to_send out =
    if ltb bytes_sent (length buffer)
    then elim (grant call) [
      | none ↦ died
      | some k ↦
          let status = min k bytes_to_send in
          send_loop fuel grant (suc call) buffer (bytes_sent + status) (bytes_to_send - status)
            (out ++ take status (drop bytes_sent buffer))
    ]
    else returned out

-- `proto_send` of the bytes of `buffer`: the size is given to one call of `send`.
unfoldable pub proto_send : ℕ → Grants → List ℕ → Ending (List ℕ)
unfolding send_loop
proto_send fuel grant buffer = elim (grant 0) [
  | none ↦ died
  | some k ↦
      send_loop fuel grant 1 buffer 0 (length buffer) (take k (le_bytes size_len (length buffer)))
]

-- What `proto_recv` leaves: the size that it returns, the buffer, and the bytes still under way.
pub record Frame : Type 0 where
  pub size : ℕ
  pub buffer : List ℕ
  pub pending : List ℕ

-- The loop of `proto_recv`, with the bytes that it has written at the start of the buffer. The
-- peer sends no more than `pending`: a call that finds nothing there returns 0.
unfoldable pub recv_loop : ℕ → Grants → ℕ → ℕ → ℕ → ℕ → List ℕ → List ℕ → Ending Frame
unfolding zero_filled
recv_loop zero grant call size bytes_recv bytes_to_recv written pending = looping
recv_loop (suc fuel) grant call size bytes_recv bytes_to_recv written pending =
    if ltb bytes_recv size
    then elim (grant call) [
      | none ↦ died
      | some k ↦
          let status = min (min k bytes_to_recv) (length pending) in
          let next =
            recv_loop fuel grant (suc call) size (bytes_recv + status) (bytes_to_recv - status)
              (written ++ take status pending) (drop status pending) in
          if ltb buff_len (bytes_recv + status) then overran else next
    ]
    else returned (record { size = size; buffer = zero_filled buff_len written; pending = pending })

-- `proto_recv`: the size is read by one call of `recv`, into a variable that is 0 before.
unfoldable pub proto_recv : ℕ → Grants → List ℕ → Ending Frame
unfolding recv_loop
proto_recv fuel grant pending = elim (grant 0) [
  | none ↦ died
  | some k ↦
      let status = min k size_len in
      let size = le_value (take status pending) in
      recv_loop fuel grant 1 size 0 size [] (drop status pending)
]
