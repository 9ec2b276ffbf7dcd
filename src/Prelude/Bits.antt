-- ===== src/Prelude/Bits.antt =====
-- `bit_and` digit by digit, and masks of which one has all the digits of the other.
use Prim.Native.Nat.{ℕ, zero, suc, ◌+◌, ◌*◌, ◌/◌, ◌%◌, ◌≤◌, min, bit_and, digits, bit_and-bitwise}
use mathlib.Core.Path.{◌≡◌, refl}
use native.Mathlib.Omega.{arith}

abbrev meet : ℕ → ℕ → ℕ → ℕ
meet fuel m n = digits (λ k. zero) min fuel m n

meet_nothing : (f n : ℕ) → meet f 0 n ≡ 0
meet_nothing zero n = refl
meet_nothing (suc f) n = refl

-- More digits than the number has change nothing.
meet_enough : (f g m n : ℕ) → m ≤ f → m ≤ g → meet f m n ≡ meet g m n
meet_enough f g zero n p q = omega (arith, meet_nothing f n, meet_nothing g n)
meet_enough zero g (suc m) n p q = absurd (omega arith)
meet_enough (suc f) zero (suc m) n p q = absurd (omega arith)
meet_enough (suc f) (suc g) (suc m) n p q =
    omega (arith, meet_enough f g (suc m / 2) (n / 2) (omega arith) (omega arith))

pub bit_and_digit : (m n : ℕ) → bit_and m n ≡ min (m % 2) (n % 2) + 2 * bit_and (m / 2) (n / 2)
bit_and_digit zero n = omega (arith, bit_and-bitwise 0 n, bit_and-bitwise 0 (n / 2))
bit_and_digit (suc m) n = omega (
  arith,
  bit_and-bitwise (suc m) n,
  bit_and-bitwise (suc m / 2) (n / 2),
  meet_enough m (suc m / 2) (suc m / 2) (n / 2) (omega arith) (omega arith),
)

-- Against a mask with more digits a number has at least the digits that it has against the other.
mono_below : (f d m n : ℕ) → d ≤ f → bit_and m n ≡ m → bit_and d m ≤ bit_and d n
mono_below zero zero m n l h = omega (arith, bit_and-bitwise 0 m, bit_and-bitwise 0 n)
mono_below zero (suc d) m n l h = absurd (omega (arith, l))
mono_below (suc f) d m n l h =
    let halves : bit_and (m / 2) (n / 2) ≡ m / 2 = omega (arith, bit_and_digit m n, h) in
    omega (
      arith,
      h,
      bit_and_digit m n,
      bit_and_digit d m,
      bit_and_digit d n,
      mono_below f (d / 2) (m / 2) (n / 2) (omega arith) halves,
    )

pub bit_and_mono : (d m n : ℕ) → bit_and m n ≡ m → bit_and d m ≤ bit_and d n
bit_and_mono d m n h = mono_below d d m n (omega arith) h

below_mask : (f m n : ℕ) → m ≤ f → bit_and m n ≤ n
below_mask zero zero n l = omega (arith, bit_and-bitwise 0 n)
below_mask zero (suc m) n l = absurd (omega (arith, l))
below_mask (suc f) m n l =
    omega (arith, bit_and_digit m n, below_mask f (m / 2) (n / 2) (omega arith))

pub bit_and_le : (m n : ℕ) → bit_and m n ≤ n
bit_and_le m n = below_mask m m n (omega arith)
