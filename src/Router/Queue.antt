-- ===== src/Router/Queue.antt =====
-- The queue of Tema-1-PCom/queue.c over the cells of list.c. `none` is a fault: an access through
-- a pointer to nothing, or an assertion that fails.
pub mod Fifo
pub mod Fresh
pub mod Runs
mod Examples
use teme_pcom_anul_2_sem.Prelude.{
  ℕ, Bool, true, false, Option, none, some, List, [], ◌∷◌, ◌==◌, if◌then◌else◌,
}

-- A pointer, `none` for NULL.
abbrev pub Ptr : Type 0
Ptr = Option ℕ

-- `struct cell`, whose element is an address.
pub record Cell : Type 0 where
  pub element : ℕ
  pub next : Ptr

-- The memory of the cells: what was written at each address, the latest first, with `none` for a
-- cell that is freed.
abbrev pub Cells : Type 0
Cells = List (ℕ × Option Cell)

abbrev pub load : Cells → ℕ → Option Cell
load [] q = none
load (w ∷ h) q = if q == w.0 then w.1 else load h q

abbrev pub update : Cells → ℕ → Option Cell → Cells
update h p c = (p, c) ∷ h

-- `que`
pub record Que : Type 0 where
  pub head : Ptr
  pub tail : Ptr

infixl 5 ◌>>=◌
abbrev pub ◌>>=◌ {ℓ κ} : {A : Type ℓ} {B : Type κ} → Option A → (A → Option B) → Option B
m >>= f = elim m [ none ↦ none | some a ↦ f a ]

-- `queue_create`
abbrev pub queue_create : Que
queue_create = record { head = none; tail = none }

abbrev pub queue_empty : Que → Bool
queue_empty q = elim q.head [ none ↦ true | some p ↦ false ]

abbrev pub cdr_and_free : ℕ → Cells → Option (Ptr × Cells)
cdr_and_free l h = do c ← load h l; some (c.next, update h l none)

-- `queue_deq`: the element that was in front, the queue, and the cells.
unfoldable pub queue_deq : Que → Cells → Option (ℕ × (Que × Cells))
queue_deq q h = do
  l ← q.head
  c ← load h l
  rest ← cdr_and_free l h
  some (c.element, (record q { head = rest.0 }, rest.1))

-- `malloc` gives the address where a new cell is put.
module _ (malloc : Cells → ℕ) where
  abbrev pub cons : ℕ → Ptr → Cells → ℕ × Cells
  cons element l h =
      let temp = malloc h in (temp, update h temp (some (record { element = element; next = l })))

  -- `queue_enq`
  unfoldable pub queue_enq : Que → ℕ → Cells → Option (Que × Cells)
  queue_enq q element h =
      let made = cons element none h in
      if queue_empty q then some (record { head = some made.0; tail = some made.0 }, made.1) else do
        t ← q.tail
        c ← load made.1 t
        some (
          record q { tail = some made.0 },
          update made.1 t (some (record c { next = some made.0 })),
        )
