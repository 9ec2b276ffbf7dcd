-- ===== src/Router/Checksum/Sums.antt =====
-- The checksum of skel.c is the complement of the sum of the 16-bit words, modulo 2^16 − 1.
use teme_pcom_anul_2_sem.Prelude.{
  ℕ, suc, ◌+◌, ◌-◌, ◌*◌, ◌/◌, ◌%◌, ◌^◌, ◌≡◌, ◌≤◌, ◌<◌, ◌⊎◌, refl, List, [], ◌∷◌, arith, ◌==◌, min,
  length, IsBytes, Bool-cases, inl, inr,
}
use teme_pcom_anul_2_sem.Router.Checksum.{
  padded_word, sum_words, accumulate, fold_carries, ip_checksum,
}

-- The sum of the 16-bit words in network order.
abbrev pub sum16 : List ℕ → ℕ
sum16 [] = 0
sum16 (a ∷ []) = a * 256
sum16 (a ∷ b ∷ bs) = a * 256 + b + sum16 bs

sum_words-mod : (acc : ℕ) (bs : List ℕ) → sum_words acc bs % 65535 ≡ (acc + sum16 bs) % 65535
unfolding sum_words
sum_words-mod acc [] = omega arith
sum_words-mod acc (a ∷ []) = omega arith
sum_words-mod acc (a ∷ b ∷ []) = omega arith
sum_words-mod acc (a ∷ b ∷ c ∷ []) = omega arith
sum_words-mod acc (a ∷ b ∷ c ∷ d ∷ bs) =
    omega (arith, sum_words-mod (acc + padded_word 0 (a ∷ b ∷ c ∷ d ∷ [])) bs)

sum_words-le : (acc : ℕ) (bs : List ℕ) → acc ≤ sum_words acc bs
unfolding sum_words
sum_words-le acc [] = omega arith
sum_words-le acc (a ∷ []) = omega arith
sum_words-le acc (a ∷ b ∷ []) = omega arith
sum_words-le acc (a ∷ b ∷ c ∷ []) = omega arith
sum_words-le acc (a ∷ b ∷ c ∷ d ∷ bs) =
    omega (arith, sum_words-le (acc + padded_word 0 (a ∷ b ∷ c ∷ d ∷ [])) bs)

sum_words-lt : (acc : ℕ) (bs : List ℕ) → IsBytes bs → sum_words acc bs ≤ acc + 2 ^ 32 * length bs
unfolding sum_words
sum_words-lt acc [] w = omega arith
sum_words-lt acc (a ∷ []) w = omega arith
sum_words-lt acc (a ∷ b ∷ []) w = omega arith
sum_words-lt acc (a ∷ b ∷ c ∷ []) w = omega arith
sum_words-lt acc (a ∷ b ∷ c ∷ d ∷ bs) w =
    omega (arith, sum_words-lt (acc + padded_word 0 (a ∷ b ∷ c ∷ d ∷ [])) bs w.1.1.1.1)

-- What the folding keeps of the accumulator.
record Folds (acc r : ℕ) : Type 0 where
  fits : r < 2 ^ 16
  positive : 0 < r
  same : r % 65535 ≡ acc % 65535

fold_carries_last :
    (fuel acc : ℕ) → 0 < acc → acc < 2 ^ 16 → Folds acc (fold_carries (suc fuel) acc)
unfolding fold_carries
fold_carries_last fuel acc p h = ground arith

fold_carries_step :
    (fuel acc : ℕ)
    → 0 < acc
    → Folds (acc % 2 ^ 16 + acc / 2 ^ 16) (fold_carries (suc fuel) (acc % 2 ^ 16 + acc / 2 ^ 16))
    → Folds acc (fold_carries (suc (suc fuel)) acc)
unfolding fold_carries
fold_carries_step fuel acc p f = elim (Bool-cases (acc / 2 ^ 16 == 0)) [
  | inl done ↦ rw done (record { fits = ground arith; positive = p; same = refl })
  | inr more ↦
      rw more (record { fits = f.fits; positive = f.positive; same = omega (arith, f.same) })
]

fold_carries-Folds : (acc : ℕ) → 0 < acc → acc < 2 ^ 33 → Folds acc (fold_carries 4 acc)
fold_carries-Folds acc p h =
    let one = acc % 2 ^ 16 + acc / 2 ^ 16 in
    let two = one % 2 ^ 16 + one / 2 ^ 16 in
    fold_carries_step 2 acc p (
      fold_carries_step 1 one (omega arith) (
        fold_carries_step 0 two (omega arith)
          (fold_carries_last 0 (two % 2 ^ 16 + two / 2 ^ 16) (omega arith) (omega arith))))

-- The accumulator counts the words, at an even address.
record Counts (bs : List ℕ) (acc : ℕ) : Type 0 where
  above : 65535 ≤ acc
  below : acc ≤ 2 ^ 16 + 2 ^ 32 * length bs
  same : acc % 65535 ≡ sum16 bs % 65535

accumulate_aligned : (bs : List ℕ) → IsBytes bs → Counts bs (accumulate 0 bs)
unfolding accumulate
accumulate_aligned bs w = record {
  above = omega (arith, sum_words-le 0xffff bs);
  below = omega (arith, sum_words-lt 0xffff bs w);
  same = omega (arith, sum_words-mod 0xffff bs);
}

accumulate_halfway : (bs : List ℕ) → IsBytes bs → Counts bs (accumulate 2 bs)
unfolding accumulate
accumulate_halfway [] w = record { above = omega arith; below = omega arith; same = refl }
accumulate_halfway (a ∷ []) w = record {
  above = omega arith;
  below = omega arith;
  same = omega arith;
}
accumulate_halfway (a ∷ b ∷ bs) w =
    let count : min 2 (suc (suc (length bs))) ≡ 2 = omega arith in
    let word = 0xffff + padded_word 2 (a ∷ b ∷ []) in
    rw count (record {
      above = omega (arith, sum_words-le word bs);
      below = omega (arith, sum_words-lt word bs w.1.1);
      same = omega (arith, sum_words-mod word bs);
    })

module _ (bs : List ℕ) (w : IsBytes bs) (short : length bs < 2 ^ 31) where
  -- The end of ip_checksum, from any accumulator that counts the words.
  complement_lem :
      (acc : ℕ)
      → Counts bs acc
      → 2 ^ 16 - 1 - fold_carries 4 (acc % 2 ^ 32 + acc / 2 ^ 32) % 2 ^ 16
        ≡ (65535 - sum16 bs % 65535) % 65535
  complement_lem acc c =
      let once = acc % 2 ^ 32 + acc / 2 ^ 32 in
      let f = fold_carries-Folds once (omega (arith, c.above)) (omega (arith, c.below)) in
      omega (arith, f.fits, f.positive, f.same, c.same)

  -- Of fewer than 2^31 bytes at an address that is 0 or 2 modulo 4, ip_checksum gives the number
  -- below 2^16 - 1 that completes the sum of the 16-bit words, in network order and with a zero
  -- behind an odd last byte, to a multiple of 2^16 - 1.
  pub ip_checksum-sum16 :
      (offset : ℕ)
      → (offset ≡ 0) ⊎ (offset ≡ 2)
      → ip_checksum offset bs ≡ (65535 - sum16 bs % 65535) % 65535
  unfolding ip_checksum
  ip_checksum-sum16 offset (inl e) =
      rw e (complement_lem (accumulate 0 bs) (accumulate_aligned bs w))
  ip_checksum-sum16 offset (inr e) =
      rw e (complement_lem (accumulate 2 bs) (accumulate_halfway bs w))
