-- ===== src/Router/Queue/Runs.antt =====
-- Sequences of calls of queue.c, against a list.
use teme_pcom_anul_2_sem.Prelude.{ℕ, ◌≡◌, refl, List, [], ◌∷◌, ◌++◌, Option, none, some}
use teme_pcom_anul_2_sem.Router.Queue.{Cells, load, Que, queue_create, queue_enq, queue_deq, ◌>>=◌}
use teme_pcom_anul_2_sem.Router.Queue.Fifo.{Holds, queue_enq-Holds, queue_deq-Holds, queue_deq-nil}

pub data Call : Type 0 where
  enq : ℕ → Call
  deq : Call

-- What the calls of `queue_deq` return, unless one faults.
unfoldable pub outputs : (Cells → ℕ) → List Call → Que × Cells → Option (List ℕ)
outputs malloc [] s = some []
outputs malloc (enq x ∷ calls) s = do t ← queue_enq malloc s.0 x s.1; outputs malloc calls t
outputs malloc (deq ∷ calls) s = do
  r ← queue_deq s.0 s.1
  rest ← outputs malloc calls r.1
  some (r.0 ∷ rest)

-- The same of a list: first in, first out.
unfoldable pub fifo : List Call → List ℕ → Option (List ℕ)
fifo [] xs = some []
fifo (enq x ∷ calls) xs = fifo calls (xs ++ (x ∷ []))
fifo (deq ∷ calls) [] = none
fifo (deq ∷ calls) (x ∷ xs) = do rest ← fifo calls xs; some (x ∷ rest)

module _ (malloc : Cells → ℕ) (unused : (h : Cells) → load h (malloc h) ≡ none) where
  outputs-Holds :
      (calls : List Call) (s : Que × Cells) (xs : List ℕ)
      → Holds s xs
      → outputs malloc calls s ≡ fifo calls xs
  unfolding outputs fifo
  outputs-Holds [] s xs w = refl
  outputs-Holds (enq x ∷ calls) s xs w =
      let r = queue_enq-Holds malloc unused s xs x w in
      rw r.1 (outputs-Holds calls r.0 (xs ++ (x ∷ [])) r.2)
  outputs-Holds (deq ∷ calls) s [] w = rw (queue_deq-nil s w) refl
  outputs-Holds (deq ∷ calls) s (x ∷ xs) w =
      let r = queue_deq-Holds s x xs w in rw (r.1, outputs-Holds calls r.0 xs r.2) refl

  -- If malloc gives unused addresses, every sequence of calls of queue_enq and queue_deq on a new
  -- queue returns the elements that a list, first in and first out, returns, and faults exactly
  -- where queue_deq is called on an empty list.
  pub outputs-fifo :
      (calls : List Call) (h : Cells) → outputs malloc calls (queue_create, h) ≡ fifo calls []
  outputs-fifo calls h = outputs-Holds calls (queue_create, h) [] refl
