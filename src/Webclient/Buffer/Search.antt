-- ===== src/Webclient/Buffer/Search.antt =====
-- The searches of buffer.cpp find the first occurrence.
use teme_pcom_anul_2_sem.Prelude.{
  ℕ, zero, suc, ◌+◌, ◌-◌, ◌≡◌, ◌≤◌, ◌<◌, inl, inr, refl, ap, sym, ◌∙◌, true, ◌&&◌, List, [], ◌∷◌,
  ◌++◌, map, some, arith, ◌==◌, ltb, length, take, drop, Bool-cases, get_or, ℕ_discrete, ltb→lt,
  drop-drop, length-append, take_all,
}
use teme_pcom_anul_2_sem.Webclient.Buffer.{
  Buffer, size_max, buffer_add, contents, same_at, scan, search, tolower, buffer_find,
  buffer_find_insensitive,
}

-- The size counts the bytes of the allocation.
abbrev pub IsBuffer : Buffer → Type 0
IsBuffer b = b.size ≡ length (contents b.bytes)

-- A buffer holds what was added to it, in order.
pub buffer_add-contents :
    (b : Buffer) (added : List ℕ)
    → IsBuffer b
    → IsBuffer (buffer_add b added)
      × (contents (buffer_add b added).bytes ≡ contents b.bytes ++ added)
unfolding buffer_add
buffer_add-contents b added w =
    let all = take_all b.size (contents b.bytes) (omega arith) in
    (rw all (omega (arith, length-append (contents b.bytes) added)), rw all)

-- `wanted` stands at position `i` of the bytes.
abbrev pub OccursAt : List ℕ → ℕ → List ℕ → Type 0
OccursAt xs i wanted = (i + length wanted ≤ length xs) × (take (length wanted) (drop i xs) ≡ wanted)

-- The result of a search is the first occurrence, or SIZE_MAX if there is none.
pub data IsFound (xs wanted : List ℕ) : ℕ → Type 0 where
  found :
      (i : ℕ)
      → OccursAt xs i wanted
      → ((j : ℕ) → j < i → ¬ OccursAt xs j wanted)
      → IsFound xs wanted i
  missing : ((j : ℕ) → ¬ OccursAt xs j wanted) → IsFound xs wanted size_max

same_at-take :
    (xs wanted : List ℕ)
    → same_at (λ x d. x == d) xs wanted ≡ true
    → (length wanted ≤ length xs) × (take (length wanted) xs ≡ wanted)
same_at-take xs [] h = (omega arith, refl)
same_at-take [] (d ∷ ds) h = absurd (ground arith)
same_at-take (x ∷ xs) (d ∷ ds) h =
    let (l, e) = same_at-take xs ds (ground arith) in (omega arith, ground arith)

take-same_at :
    (xs wanted : List ℕ)
    → take (length wanted) xs ≡ wanted
    → same_at (λ x d. x == d) xs wanted ≡ true
take-same_at xs [] h = refl
take-same_at [] (d ∷ ds) h = absurd (ground arith)
take-same_at (x ∷ xs) (d ∷ ds) h =
    let rest = take-same_at xs ds (cc (ap (drop 1) h)) in
    let first : x ≡ d = cc (ap (λ zs. get_or zs 0 0) h) in ground arith

scan-IsFound :
    (left i : ℕ) (full xs wanted : List ℕ)
    → drop i full ≡ xs
    → left + i + length wanted ≡ length full + 1
    → ((j : ℕ) → j < i → ¬ OccursAt full j wanted)
    → IsFound full wanted (scan (λ x d. x == d) left i xs wanted)
unfolding scan
scan-IsFound zero i full xs wanted e n before = missing (λ j o. before j (omega (arith, o.0)) o)
scan-IsFound (suc left) i full xs wanted e n before =
    elim (Bool-cases (same_at (λ x d. x == d) xs wanted)) [
      | inl here ↦ rw here (found i (omega arith, rw e ((same_at-take xs wanted here).1)) before)
      | inr other ↦
          let next =
            scan-IsFound left (i + 1) full (drop 1 xs) wanted
              (sym (drop-drop 1 i full) ∙ ap (drop 1) e) (omega arith)
              (λ j h o. elim (ℕ_discrete j i) [
                | yes same ↦
                    let piece = ap (λ k. take (length wanted) (drop k full)) same in
                    let there : take (length wanted) xs ≡ wanted =
                      cc (o.1, piece, ap (take (length wanted)) e) in
                    absurd (ground (arith, take-same_at xs wanted there))
                | no less ↦ before j (omega arith) o
              ]) in
          rw other next
    ]

-- Buffer_find gives the position of the first occurrence of the data in the buffer, and SIZE_MAX
-- if there is none.
pub buffer_find-IsFound :
    (b : Buffer) (wanted : List ℕ)
    → IsBuffer b
    → IsFound (contents b.bytes) wanted (buffer_find b wanted)
unfolding buffer_find search
buffer_find-IsFound b wanted w = elim (Bool-cases (ltb b.size (length wanted))) [
  | inl long ↦ rw long (missing (λ j o. omega (arith, o.0, ltb→lt b.size (length wanted) long)))
  | inr fits ↦ rw fits (
      scan-IsFound (b.size - length wanted + 1) 0 (contents b.bytes) (contents b.bytes) wanted refl
        (ground arith) (λ j h o. omega arith))
]

length-map : (xs : List ℕ) → length (map tolower xs) ≡ length xs
length-map [] = refl
length-map (x ∷ xs) = ap suc (length-map xs)

drop-map : (n : ℕ) (xs : List ℕ) → drop n (map tolower xs) ≡ map tolower (drop n xs)
drop-map zero xs = refl
drop-map (suc n) [] = refl
drop-map (suc n) (x ∷ xs) = drop-map n xs

same_at-lower :
    (xs wanted : List ℕ)
    → same_at (λ x d. tolower x == tolower d) xs wanted
      ≡ same_at (λ x d. x == d) (map tolower xs) (map tolower wanted)
same_at-lower xs [] = refl
same_at-lower [] (d ∷ ds) = refl
same_at-lower (x ∷ xs) (d ∷ ds) = ap (λ b. (tolower x == tolower d) && b) (same_at-lower xs ds)

scan-lower :
    (left i : ℕ) (xs wanted : List ℕ)
    → scan (λ x d. tolower x == tolower d) left i xs wanted
      ≡ scan (λ x d. x == d) left i (map tolower xs) (map tolower wanted)
unfolding scan
scan-lower zero i xs wanted = refl
scan-lower (suc left) i xs wanted =
    rw (same_at-lower xs wanted, scan-lower left (i + 1) (drop 1 xs) wanted, drop-map 1 xs) refl

-- The buffer in lower case.
abbrev pub lowered : Buffer → Buffer
lowered b = record b { bytes = some (map tolower (contents b.bytes)) }

-- The search without regard to case is the plain search in lower case.
pub buffer_find_insensitive-lowered :
    (b : Buffer) (wanted : List ℕ)
    → buffer_find_insensitive b wanted ≡ buffer_find (lowered b) (map tolower wanted)
unfolding buffer_find buffer_find_insensitive search
buffer_find_insensitive-lowered b wanted =
    rw (length-map wanted, scan-lower (b.size - length wanted + 1) 0 (contents b.bytes) wanted) refl

-- Buffer_find_insensitive gives the position of the first occurrence of the data in lower case in
-- the buffer in lower case, and SIZE_MAX if there is none.
buffer_find_insensitive-IsFound :
    (b : Buffer) (wanted : List ℕ)
    → IsBuffer b
    → IsFound
        (map tolower (contents b.bytes))
        (map tolower wanted)
        (buffer_find_insensitive b wanted)
buffer_find_insensitive-IsFound b wanted w = rw (buffer_find_insensitive-lowered b wanted) (
    buffer_find-IsFound (lowered b) (map tolower wanted)
      (omega (arith, length-map (contents b.bytes))))
