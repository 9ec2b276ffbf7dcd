-- ===== src/Webclient/Buffer.antt =====
-- Tema-3-PCom/buffer.cpp: a growing array of bytes, and the search in it.
pub mod Search
use teme_pcom_anul_2_sem.Prelude.{
  ℕ, zero, suc, ◌+◌, ◌-◌, ◌^◌, Bool, true, false, ◌&&◌, List, [], ◌∷◌, ◌++◌, Option, none, some,
  ◌==◌, ltb, leb, if◌then◌else◌, length, take, drop,
}

-- `data` is `nullptr` or the bytes of its allocation.
pub record Buffer : Type 0 where
  pub bytes : Option (List ℕ)
  pub size : ℕ

-- `(size_t) -1`
abbrev pub size_max : ℕ
size_max = 2 ^ 64 - 1

unfoldable pub buffer_init : Buffer
buffer_init = record { bytes = none; size = 0 }

unfoldable pub buffer_destroy : Buffer → Buffer
buffer_destroy b = record { bytes = none; size = 0 }

unfoldable pub buffer_is_empty : Buffer → Bool
buffer_is_empty b = elim b.bytes [ none ↦ true | some xs ↦ false ]

abbrev pub contents : Option (List ℕ) → List ℕ
contents none = []
contents (some xs) = xs

-- The allocation grows to the new size, and the data goes behind the first `size` bytes.
unfoldable pub buffer_add : Buffer → List ℕ → Buffer
buffer_add b added = record {
  bytes = some (take b.size (contents b.bytes) ++ added);
  size = b.size + length added;
}

-- The inner loop of the searches: whether the data stands at the start of the bytes.
abbrev pub same_at : (ℕ → ℕ → Bool) → List ℕ → List ℕ → Bool
same_at same xs [] = true
same_at same [] (d ∷ ds) = false
same_at same (x ∷ xs) (d ∷ ds) = same x d && same_at same xs ds

-- The outer loop, with the number of positions that are left and the bytes from `i` on.
unfoldable pub scan : (ℕ → ℕ → Bool) → ℕ → ℕ → List ℕ → List ℕ → ℕ
scan same zero i xs wanted = size_max
scan same (suc left) i xs wanted =
    let rest = scan same left (i + 1) (drop 1 xs) wanted in
    if same_at same xs wanted then i else rest

unfoldable pub search : (ℕ → ℕ → Bool) → Buffer → List ℕ → ℕ
unfolding scan
search same b wanted =
    if ltb b.size (length wanted)
    then size_max
    else scan same (b.size - length wanted + 1) 0 (contents b.bytes) wanted

-- `tolower` in the C locale.
abbrev pub tolower : ℕ → ℕ
tolower c = if leb 65 c && leb c 90 then c + 32 else c

unfoldable pub buffer_find : Buffer → List ℕ → ℕ
unfolding search
buffer_find b wanted = search (λ x d. x == d) b wanted

unfoldable pub buffer_find_insensitive : Buffer → List ℕ → ℕ
unfolding search
buffer_find_insensitive b wanted = search (λ x d. tolower x == tolower d) b wanted
