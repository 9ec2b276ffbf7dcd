-- ===== src/Pubsub/Proto/Examples.antt =====
-- The protocol of proto.cpp at concrete inputs.
use teme_pcom_anul_2_sem.Prelude.{le_bytes, ℕ, zero, suc, ◌≡◌, refl, List, ◌++◌, some, arith, codes}
use teme_pcom_anul_2_sem.Pubsub.Message.{buff_len, zero_filled}
use teme_pcom_anul_2_sem.Pubsub.Proto.{returned, looping, Grants, size_len, proto_send, proto_recv}
use teme_pcom_anul_2_sem.Pubsub.Proto.Rounds.{Moves, Carries, proto_recv-proto_send}
use teme_pcom_anul_2_sem.Pubsub.Proto.Stalls.{proto_recv-stalls}

-- The size in one call, and then two bytes a call.
abbrev by_twos : Grants
by_twos zero = some 8
by_twos (suc j) = some 2

by_twos-Moves : Moves by_twos 1
by_twos-Moves zero h = absurd (omega arith)
by_twos-Moves (suc j) h = (1, refl)

by_twos-Carries : Carries by_twos
by_twos-Carries = ((0, refl), by_twos-Moves)

proto_send_runs : proto_send 9 by_twos (codes "abc") ≡ returned (le_bytes 8 3 ++ codes "abc")
unfolding proto_send
proto_send_runs = refl

proto_recv-proto_send_example :
    (out : List ℕ) × (proto_send 9 by_twos (codes "alice") ≡ returned out)
    × (proto_recv 9 by_twos (out ++ codes "more")
        ≡ returned (record {
          size = 5;
          buffer = zero_filled buff_len (codes "alice");
          pending = codes "more";
        }))
proto_recv-proto_send_example =
    proto_recv-proto_send 9 by_twos by_twos (codes "alice") (codes "more") by_twos-Carries
      by_twos-Carries (omega arith) (omega arith)

proto_recv-stalls_example : proto_recv 99 by_twos (le_bytes size_len 52 ++ codes "ab") ≡ looping
proto_recv-stalls_example =
    proto_recv-stalls 99 by_twos 52 (codes "ab") by_twos-Carries (omega arith) (omega arith)
