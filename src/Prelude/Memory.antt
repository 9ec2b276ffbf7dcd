-- ===== src/Prelude/Memory.antt =====
-- Numbers and structures in an array of bytes: values in both byte orders, and the bytes of an
-- object that stands at an offset.
use Prim.Native.Nat.{ℕ, zero, suc, ◌+◌, ◌*◌, ◌/◌, ◌%◌, ◌^◌, ◌≤◌, ◌<◌}
use mathlib.Core.Path.{◌≡◌, refl, ap, ap₂, ◌∙◌, sym}
use mathlib.Core.List.{List, [], ◌∷◌, ◌++◌}
use native.Mathlib.Omega.{arith}
use teme_pcom_anul_2_sem.Prelude.Lists.{
  length, take, drop, get_or, All, replicate, length-append, length-take, length-drop, take-append,
  drop_past, drop-append,
}

-- The `k` low bytes of a number, the lowest first, as an integer lies in memory.
abbrev pub le_bytes : ℕ → ℕ → List ℕ
le_bytes zero n = []
le_bytes (suc k) n = (n % 256) ∷ le_bytes k (n / 256)

abbrev pub le_value : List ℕ → ℕ
le_value [] = 0
le_value (b ∷ bs) = b + 256 * le_value bs

abbrev pub IsBytes : List ℕ → Type 0
IsBytes bs = All (λ b. b < 256) bs

pub take-IsBytes : (n : ℕ) (bs : List ℕ) → IsBytes bs → IsBytes (take n bs)
take-IsBytes zero bs w = tt
take-IsBytes (suc n) [] w = tt
take-IsBytes (suc n) (b ∷ bs) w = (w.0, take-IsBytes n bs w.1)

pub drop-IsBytes : (n : ℕ) (bs : List ℕ) → IsBytes bs → IsBytes (drop n bs)
drop-IsBytes zero bs w = w
drop-IsBytes (suc n) [] w = tt
drop-IsBytes (suc n) (b ∷ bs) w = drop-IsBytes n bs w.1

pub append-IsBytes : (bs cs : List ℕ) → IsBytes bs → IsBytes cs → IsBytes (bs ++ cs)
append-IsBytes [] cs w v = v
append-IsBytes (b ∷ bs) cs w v = (w.0, append-IsBytes bs cs w.1 v)

pub replicate-IsBytes : (n : ℕ) → IsBytes (replicate n 0)
replicate-IsBytes zero = tt
replicate-IsBytes (suc n) = (omega arith, replicate-IsBytes n)

pub get_or-lt : (bs : List ℕ) (i : ℕ) → IsBytes bs → get_or bs i 0 < 256
get_or-lt [] i w = omega arith
get_or-lt (b ∷ bs) zero w = w.0
get_or-lt (b ∷ bs) (suc i) w = get_or-lt bs i w.1

-- A number of `k` bytes.
pub le_value-lt : (k : ℕ) (bs : List ℕ) → IsBytes bs → le_value (take k bs) < 256 ^ k
le_value-lt zero bs w = omega arith
le_value-lt (suc k) [] w = omega (arith, le_value-lt k [] tt)
le_value-lt (suc k) (b ∷ bs) w = omega (arith, w.0, le_value-lt k bs w.1)

pub length-le_bytes : (k n : ℕ) → length (le_bytes k n) ≡ k
length-le_bytes zero n = refl
length-le_bytes (suc k) n = ap suc (length-le_bytes k (n / 256))

pub le_value-le_bytes : (k n : ℕ) → n < 256 ^ k → le_value (le_bytes k n) ≡ n
le_value-le_bytes zero n h = omega arith
le_value-le_bytes (suc k) n h = omega (arith, le_value-le_bytes k (n / 256) (omega arith))

pub le_bytes-le_value : (bs : List ℕ) → IsBytes bs → le_bytes (length bs) (le_value bs) ≡ bs
le_bytes-le_value [] w = refl
le_bytes-le_value (b ∷ bs) w =
    let low : le_value (b ∷ bs) % 256 ≡ b = omega (arith, w.0) in
    let high : le_value (b ∷ bs) / 256 ≡ le_value bs = omega (arith, w.0) in
    rw (low, high, le_bytes-le_value bs w.1) refl

pub le_bytes-IsBytes : (k n : ℕ) → IsBytes (le_bytes k n)
le_bytes-IsBytes zero n = tt
le_bytes-IsBytes (suc k) n = (omega arith, le_bytes-IsBytes k (n / 256))

-- The two bytes of a 16-bit number in network order.
abbrev pub be_bytes : ℕ → List ℕ
be_bytes n = (n / 256 % 256) ∷ (n % 256) ∷ []

pub be_bytes-IsBytes : (n : ℕ) → IsBytes (be_bytes n)
be_bytes-IsBytes n = (omega arith, (omega arith, tt))

-- `ntohs` and `ntohl` of the bytes from an offset on.
abbrev pub be16 : List ℕ → ℕ → ℕ
be16 bs i = get_or bs i 0 * 256 + get_or bs (i + 1) 0

abbrev pub be32 : List ℕ → ℕ → ℕ
be32 bs i = be16 bs i * 65536 + be16 bs (i + 2)

-- `n` bytes from an offset on.
abbrev pub bytes_at {ℓ} : {A : Type ℓ} → ℕ → ℕ → List A → List A
bytes_at i n p = take n (drop i p)

-- A write of `bs` at an offset.
abbrev pub write_at {ℓ} : {A : Type ℓ} → ℕ → List A → List A → List A
write_at i bs p = take i p ++ (bs ++ drop (i + length bs) p)

pub write_at-IsBytes : (i : ℕ) (bs p : List ℕ) → IsBytes bs → IsBytes p → IsBytes (write_at i bs p)
write_at-IsBytes i bs p w v =
    append-IsBytes (take i p) (bs ++ drop (i + length bs) p) (take-IsBytes i p v)
      (append-IsBytes bs (drop (i + length bs) p) w (drop-IsBytes (i + length bs) p v))

module _ {ℓ} {A : Type ℓ} (i : ℕ) (bs p : List A) (fits : i + length bs ≤ length p) where
  length-take_front : length (take i p) ≡ i
  length-take_front = omega (arith, length-take i p)

  pub length-write_at : length (write_at i bs p) ≡ length p
  length-write_at = omega (
    arith,
    length-append (take i p) (bs ++ drop (i + length bs) p),
    length-append bs (drop (i + length bs) p),
    length-take_front,
    length-drop (i + length bs) p,
  )

  -- In front of the write nothing changes.
  pub take-write_at : take i (write_at i bs p) ≡ take i p
  take-write_at = take-append (take i p) (bs ++ drop (i + length bs) p) i (sym length-take_front)

  pub drop-write_at : drop i (write_at i bs p) ≡ bs ++ drop (i + length bs) p
  drop-write_at = drop-append (take i p) (bs ++ drop (i + length bs) p) i (sym length-take_front)

  pub bytes_at-write_at : bytes_at i (length bs) (write_at i bs p) ≡ bs
  bytes_at-write_at =
      ap (take (length bs)) drop-write_at ∙ take-append bs (drop (i + length bs) p) (length bs) refl

  pub drop_behind-write_at : drop (i + length bs) (write_at i bs p) ≡ drop (i + length bs) p
  drop_behind-write_at =
      drop_past (take i p) (bs ++ drop (i + length bs) p) (i + length bs) (length bs)
        (omega (arith, length-take_front))
      ∙ drop-append bs (drop (i + length bs) p) (length bs) refl

module _ {ℓ} {A : Type ℓ} (pre : List A) (i : ℕ) (e : length pre ≡ i) where
  -- A write behind a known beginning, and the read of it.
  pub write_at-append :
      (bs q : List A) → write_at i bs (pre ++ q) ≡ pre ++ (bs ++ drop (length bs) q)
  write_at-append bs q =
      ap₂ (λ front rest. front ++ (bs ++ rest)) (take-append pre q i (sym e))
        (drop_past pre q (i + length bs) (length bs) (omega (arith, e)))

  pub bytes_at-append :
      (bs rest : List A) (n : ℕ) → length bs ≡ n → bytes_at i n (pre ++ (bs ++ rest)) ≡ bs
  bytes_at-append bs rest n h =
      ap (take n) (drop-append pre (bs ++ rest) i (sym e)) ∙ take-append bs rest n (sym h)
