-- ===== src/Router/Queue/Examples.antt =====
-- The queue at a sequence of calls.
use teme_pcom_anul_2_sem.Prelude.{◌≡◌, refl, List, [], ◌∷◌, some}
use teme_pcom_anul_2_sem.Router.Queue.{queue_create, queue_enq, queue_deq}
use teme_pcom_anul_2_sem.Router.Queue.Fresh.{behind, behind-unused}
use teme_pcom_anul_2_sem.Router.Queue.Runs.{enq, deq, Call, outputs, fifo, outputs-fifo}

abbrev calls : List Call
calls = enq 7 ∷ enq 9 ∷ deq ∷ enq 5 ∷ deq ∷ deq ∷ enq 4 ∷ deq ∷ []

in_order : outputs behind calls (queue_create, []) ≡ some (7 ∷ 9 ∷ 5 ∷ 4 ∷ [])
unfolding outputs queue_enq queue_deq
in_order = refl

outputs-fifo_example : outputs behind calls (queue_create, []) ≡ fifo calls []
outputs-fifo_example = outputs-fifo behind behind-unused calls []
