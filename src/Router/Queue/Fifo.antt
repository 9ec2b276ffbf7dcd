-- ===== src/Router/Queue/Fifo.antt =====
-- The queue of queue.c keeps a list, first in, first out.
use teme_pcom_anul_2_sem.Prelude.{
  ℕ, suc, ◌≡◌, ◌≢◌, ◌<◌, refl, sym, ap, ◌∙◌, subst, List, [], ◌∷◌, ◌++◌, Option, none, some, arith,
  length,
}
use teme_pcom_anul_2_sem.Router.Queue.{Cell, Cells, load, update, Que, cons, queue_enq, queue_deq}

-- The cells from `first` to `last` hold the elements of a list that is not empty.
abbrev pub Chain : Cells → ℕ → ℕ → List ℕ → Type 0
Chain h first last [] = ⊥
Chain h first last (x ∷ []) =
    (first ≡ last) × (load h first ≡ some (record { element = x; next = none }))
Chain h first last (x ∷ y ∷ ys) =
    (n : ℕ) × (load h first ≡ some (record { element = x; next = some n }))
    × Chain h n last (y ∷ ys)

-- The queue stands for a list.
abbrev pub Holds : Que × Cells → List ℕ → Type 0
Holds s [] = s.0.head ≡ none
Holds s (x ∷ xs) =
    (first last : ℕ) × (s.0.head ≡ some first)
    × (s.0.tail ≡ some last)
    × Chain s.1 first last (x ∷ xs)

pub update_other :
    (h : Cells) (q p : ℕ) (c : Option Cell) → q ≢ p → load (update h p c) q ≡ load h q
update_other h q p c n = ground arith

pub update_same : (h : Cells) (p : ℕ) (c : Option Cell) → load (update h p c) p ≡ c
update_same h p c = ground arith

-- The cells decide how long a chain is.
length-Chain :
    (h : Cells) (first last end : ℕ) (xs ys : List ℕ)
    → Chain h first last xs
    → Chain h first end ys
    → length xs ≡ length ys
length-Chain h first last end [] ys c d = absurd c
length-Chain h first last end (x ∷ xs) [] c d = absurd d
length-Chain h first last end (x ∷ []) (y ∷ []) c d = refl
length-Chain h first last end (x ∷ []) (y ∷ z ∷ ys) c d = absurd (cc (c.1, d.1))
length-Chain h first last end (x ∷ z ∷ xs) (y ∷ []) c d = absurd (cc (c.1, d.1))
length-Chain h first last end (x ∷ z ∷ xs) (y ∷ v ∷ ys) c d =
    let same : c.0 ≡ d.0 = cc (c.1, d.1) in
    let tail = subst (λ n. Chain h n last (z ∷ xs)) same c.2 in
    ap suc (length-Chain h d.0 last end (z ∷ xs) (v ∷ ys) tail d.2)

-- A cell in front of a chain is not in it, so it is freed without harm.
module _ (h : Cells) (p end : ℕ) (xs : List ℕ) (whole : Chain h p end xs) where
  apart_lem :
      (first last : ℕ) (ys : List ℕ) → length ys < length xs → Chain h first last ys → first ≢ p
  apart_lem first last ys l c e =
      absurd (
        omega
          (arith, l, length-Chain h p last end ys xs (subst (λ n. Chain h n last ys) e c) whole))

  free-Chain :
      (first last : ℕ) (ys : List ℕ)
      → length ys < length xs
      → Chain h first last ys
      → Chain (update h p none) first last ys
  free-Chain first last [] l c = c
  free-Chain first last (y ∷ []) l c =
      (c.0, update_other h first p none (apart_lem first last (y ∷ []) l c) ∙ c.1)
  free-Chain first last (y ∷ z ∷ ys) l c = (
    c.0,
    update_other h first p none (apart_lem first last (y ∷ z ∷ ys) l c) ∙ c.1,
    free-Chain c.0 last (z ∷ ys) (omega (arith, l)) c.2,
  )

last-Chain :
    (h : Cells) (first last : ℕ) (xs : List ℕ)
    → Chain h first last xs
    → (y : ℕ) × (load h last ≡ some (record { element = y; next = none }))
last-Chain h first last [] c = absurd c
last-Chain h first last (x ∷ []) c = (x, ap (load h) (sym c.0) ∙ c.1)
last-Chain h first last (x ∷ y ∷ xs) c = last-Chain h c.0 last (y ∷ xs) c.2

-- A new cell behind the last one.
module _ (h : Cells) (new last x y : ℕ) (unused : load h new ≡ none)
    (end : load h last ≡ some (record { element = y; next = none })) where
  abbrev linked : Cells
  linked =
      update (update h new (some (record { element = x; next = none }))) last
        (some (record { element = y; next = some new }))

  new-last : new ≢ last
  new-last e = absurd (cc (unused, end, e))

  linked-last : load linked last ≡ some (record { element = y; next = some new })
  linked-last = ground arith

  linked-new : load linked new ≡ some (record { element = x; next = none })
  linked-new = ground (arith, new-last)

  linked-other :
      (q n z : ℕ)
      → load h q ≡ some (record { element = z; next = some n })
      → load linked q ≡ some (record { element = z; next = some n })
  linked-other q n z e =
      let behind : q ≢ last = λ f. absurd (cc (e, end, f)) in
      let old : q ≢ new = λ f. absurd (cc (e, unused, f)) in ground (arith, behind, old, e)

  extend-Chain :
      (first : ℕ) (xs : List ℕ) → Chain h first last xs → Chain linked first new (xs ++ (x ∷ []))
  extend-Chain first [] w = absurd w
  extend-Chain first (z ∷ []) w =
      let same : y ≡ z = cc (end, w.1, w.0) in
      (new, rw (w.0, sym same) linked-last, (refl, linked-new))
  extend-Chain first (z ∷ v ∷ xs) w =
      (w.0, linked-other first w.0 z w.1, extend-Chain w.0 (v ∷ xs) w.2)

pub queue_deq-Holds :
    (s : Que × Cells) (x : ℕ) (xs : List ℕ)
    → Holds s (x ∷ xs)
    → (t : Que × Cells) × (queue_deq s.0 s.1 ≡ some (x, t)) × Holds t xs
unfolding queue_deq
queue_deq-Holds s x [] w =
    ((record s.0 { head = none }, update s.1 w.0 none), rw (w.2, w.4.1) refl, refl)
queue_deq-Holds s x (y ∷ ys) w =
    let c = w.4 in
    (
      (record s.0 { head = some c.0 }, update s.1 w.0 none),
      rw (w.2, c.1) refl,
      (
        c.0,
        w.1,
        refl,
        w.3,
        free-Chain s.1 w.0 w.1 (x ∷ y ∷ ys) c c.0 w.1 (y ∷ ys) (omega arith) c.2,
      ),
    )

pub queue_deq-nil : (s : Que × Cells) → Holds s [] → queue_deq s.0 s.1 ≡ none
unfolding queue_deq
queue_deq-nil s w = rw w refl

module _ (malloc : Cells → ℕ) (unused : (h : Cells) → load h (malloc h) ≡ none) where
  pub queue_enq-Holds :
      (s : Que × Cells) (xs : List ℕ) (x : ℕ)
      → Holds s xs
      → (t : Que × Cells) × (queue_enq malloc s.0 x s.1 ≡ some t) × Holds t (xs ++ (x ∷ []))
  unfolding queue_enq
  queue_enq-Holds s [] x w =
      let p = malloc s.1 in
      let made = cons malloc x none s.1 in
      (
        (record { head = some p; tail = some p }, made.1),
        rw w refl,
        (p, p, refl, refl, (refl, update_same s.1 p (some (record { element = x; next = none })))),
      )
  queue_enq-Holds s (y ∷ ys) x w =
      let p = malloc s.1 in
      let last = last-Chain s.1 w.0 w.1 (y ∷ ys) w.4 in
      let kept : load (cons malloc x none s.1).1 w.1
          ≡ some (record { element = last.0; next = none }) =
        update_other s.1 w.1 p (some (record { element = x; next = none }))
          (λ e. absurd (cc (unused s.1, last.1, e)))
        ∙ last.1 in
      (
        (record s.0 { tail = some p }, linked s.1 p w.1 x last.0 (unused s.1) last.1),
        rw (w.2, w.3, kept) refl,
        (w.0, p, w.2, refl, extend-Chain s.1 p w.1 x last.0 (unused s.1) last.1 w.0 (y ∷ ys) w.4),
      )
