-- ===== src/Pubsub/Server/Preservation/Frames.antt =====
-- A frame that is shorter than the buffer is a string in it.
use teme_pcom_anul_2_sem.Prelude.{
  ℕ, zero, suc, ◌-◌, ◌≡◌, ◌<◌, ◌≤◌, refl, List, [], ◌∷◌, ◌++◌, Text, some, arith, length, replicate,
  c_string, Bool-cases, ◌==◌, inl, inr,
}
use teme_pcom_anul_2_sem.Pubsub.Message.{zero_filled, buff_len}
use teme_pcom_anul_2_sem.Pubsub.Server.State.{ok}
use teme_pcom_anul_2_sem.Pubsub.Server.Loop.{received}

c_string-zeros :
    (bs : List ℕ) (n : ℕ) → 0 < n → (t : Text) × (c_string (bs ++ replicate n 0) ≡ some t)
unfolding c_string
c_string-zeros [] zero h = absurd (omega arith)
c_string-zeros [] (suc n) h = ([], refl)
c_string-zeros (b ∷ bs) n h = elim (Bool-cases (b == 0)) [
  | inl e ↦ ([], ground arith)
  | inr e ↦ let (t, f) = c_string-zeros bs n h in (b ∷ t, ground arith)
]

pub c_string-zero_filled :
    (n : ℕ) (bs : List ℕ) → length bs < n → (t : Text) × (c_string (zero_filled n bs) ≡ some t)
unfolding zero_filled
c_string-zero_filled n bs h = c_string-zeros bs (n - length bs) (omega arith)

pub received-ok :
    (frame : List ℕ) → length frame ≤ buff_len → received frame ≡ ok (zero_filled buff_len frame)
unfolding received
received-ok frame h = ground arith
