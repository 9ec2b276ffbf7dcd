-- ===== src/Router/Queue/Fresh.antt =====
-- An allocation that takes the address behind all others.
use teme_pcom_anul_2_sem.Prelude.{ℕ, ◌+◌, ◌≡◌, ◌<◌, refl, [], ◌∷◌, none, max, arith}
use teme_pcom_anul_2_sem.Router.Queue.{Cells, load}

abbrev pub behind : Cells → ℕ
behind [] = 1
behind (w ∷ h) = max (w.0 + 1) (behind h)

load-nothing : (h : Cells) (p : ℕ) → behind h < p + 1 → load h p ≡ none
load-nothing [] p l = refl
load-nothing (w ∷ h) p l = ground (arith, load-nothing h p)

pub behind-unused : (h : Cells) → load h (behind h) ≡ none
behind-unused h = load-nothing h (behind h) (omega arith)
