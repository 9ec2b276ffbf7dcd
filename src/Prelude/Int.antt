-- ===== src/Prelude/Int.antt =====
-- Signed integers by their two constructors, `int` as a 32-bit word, and decimal output.
use Prim.Native.Nat.{ℕ, zero, suc, ◌-◌, ◌^◌, ◌+◌}
use mathlib.Core.List.{◌∷◌}
use teme_pcom_anul_2_sem.Prelude.Tests.{ltb, if◌then◌else◌}
use teme_pcom_anul_2_sem.Prelude.Bytes.{Text}
use teme_pcom_anul_2_sem.Prelude.Decimal.{to_string}

pub data ℤ : Type 0 where
  pos : ℕ → ℤ
  negsuc : ℕ → ℤ

abbrev pub minus : ℕ → ℤ
minus zero = pos 0
minus (suc n) = negsuc n

-- The `int` with the bits of a 32-bit word.
abbrev pub int32 : ℕ → ℤ
int32 n = if ltb n (2 ^ 31) then pos n else negsuc (2 ^ 32 - 1 - n)

-- `signed char`
abbrev pub int8 : ℕ → ℤ
int8 n = if ltb n (2 ^ 7) then pos n else negsuc (2 ^ 8 - 1 - n)

-- `std::to_string(int)`
unfoldable pub int_to_string : ℤ → Text
unfolding to_string
int_to_string (pos n) = to_string n
int_to_string (negsuc n) = 45 ∷ to_string (n + 1)

-- The conversion of a `long` to `size_t`.
abbrev pub to_size : ℤ → ℕ
to_size (pos n) = n
to_size (negsuc n) = 2 ^ 64 - 1 - n
