-- ===== src/Router/Checksum.antt =====
-- The checksums of Tema-1-PCom/skel.c. The 64-bit accumulator does not overflow below 2^31 words,
-- and a packet has far fewer.
pub mod Sums
use teme_pcom_anul_2_sem.Prelude.{
  ℕ, zero, suc, ◌+◌, ◌-◌, ◌*◌, ◌/◌, ◌%◌, ◌^◌, List, [], ◌∷◌, ◌++◌, ◌==◌, if◌then◌else◌, min, length,
  take, drop, replicate, be32,
}

-- `ntohl` of a word whose bytes are partly zero.
abbrev pub padded_word : ℕ → List ℕ → ℕ
padded_word offset bs = be32 (replicate offset 0 ++ (bs ++ replicate 4 0)) 0

-- The complete 32-bit blocks, and a partial one at the end.
unfoldable pub sum_words : ℕ → List ℕ → ℕ
sum_words acc (a ∷ b ∷ c ∷ d ∷ data') = sum_words (acc + padded_word 0 (a ∷ b ∷ c ∷ d ∷ [])) data'
sum_words acc [] = acc
sum_words acc (a ∷ []) = acc + padded_word 0 (a ∷ [])
sum_words acc (a ∷ b ∷ []) = acc + padded_word 0 (a ∷ b ∷ [])
sum_words acc (a ∷ b ∷ c ∷ []) = acc + padded_word 0 (a ∷ b ∷ c ∷ [])

-- The accumulator after the data, whose address is `offset` modulo 4.
unfoldable pub accumulate : ℕ → List ℕ → ℕ
unfolding sum_words
accumulate offset data' =
    let count = min (4 - offset) (length data') in
    if offset == 0
    then sum_words 0xffff data'
    else sum_words (0xffff + padded_word offset (take count data')) (drop count data')

-- `while (acc >> 16)`
unfoldable pub fold_carries : ℕ → ℕ → ℕ
fold_carries zero acc = acc
fold_carries (suc fuel) acc =
    let rest = fold_carries fuel (acc % 2 ^ 16 + acc / 2 ^ 16) in
    if acc / 2 ^ 16 == 0 then acc else rest

-- Data at an odd address is summed with its bytes the other way round.
abbrev pub reorder : ℕ → ℕ → ℕ
reorder offset acc = if offset % 2 == 0 then acc else acc % 2 ^ 16 / 256 + acc % 256 * 256

-- `ip_checksum`, before `htons` puts the result in the order of memory. The loop is given four
-- rounds.
unfoldable pub ip_checksum : ℕ → List ℕ → ℕ
unfolding accumulate fold_carries
ip_checksum offset data' =
    let acc = accumulate offset data' in
    let once = acc % 2 ^ 32 + acc / 2 ^ 32 in
    2 ^ 16 - 1 - reorder offset (fold_carries 4 once) % 2 ^ 16

-- The loop of `icmp_checksum` and the last byte: words in the order of memory. A last byte is read
-- together with the one behind it.
unfoldable pub sum_short : ℕ → List ℕ → ℕ → ℕ
sum_short cksum (a ∷ b ∷ data') behind = sum_short (cksum + (a + 256 * b)) data' behind
sum_short cksum [] behind = cksum
sum_short cksum (a ∷ []) behind = cksum + (a + 256 * behind)

-- `icmp_checksum`, which nothing calls, with the byte that stands behind the data.
unfoldable pub icmp_checksum : List ℕ → ℕ → ℕ
unfolding sum_short
icmp_checksum data' behind =
    let cksum = sum_short 0 data' behind in
    let once = cksum / 2 ^ 16 + cksum % 2 ^ 16 in 2 ^ 16 - 1 - (once + once / 2 ^ 16) % 2 ^ 16
