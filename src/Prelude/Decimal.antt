-- ===== src/Prelude/Decimal.antt =====
-- Decimal output: `std::to_string` of an unsigned number, and `inet_ntoa`.
use Prim.Native.Nat.{ℕ, zero, suc, ◌+◌, ◌-◌, ◌*◌, ◌/◌, ◌%◌}
use mathlib.Core.Path.{◌≡◌, refl}
use mathlib.Core.List.{List, [], ◌∷◌, ◌++◌}
use teme_pcom_anul_2_sem.Prelude.Tests.{ltb, if◌then◌else◌}
use teme_pcom_anul_2_sem.Prelude.Bytes.{Text, codes}

-- The digits of `n` in front of `acc`; the fuel bounds their number.
unfoldable pub decimal : ℕ → ℕ → Text → Text
decimal zero n acc = acc
decimal (suc k) n acc =
    let rest = decimal k (n / 10) ((48 + n % 10) ∷ acc) in if ltb n 10 then (48 + n) ∷ acc else rest

unfoldable pub to_string : ℕ → Text
unfolding decimal
to_string n = decimal (suc n) n []

-- The value of a run of digits, continuing from `acc`.
abbrev pub decimal_value : ℕ → Text → ℕ
decimal_value acc [] = acc
decimal_value acc (c ∷ cs) = decimal_value (acc * 10 + (c - 48)) cs

unfoldable pub inet_ntoa : List ℕ → Text
unfolding to_string
inet_ntoa [] = []
inet_ntoa (a ∷ []) = to_string a
inet_ntoa (a ∷ b ∷ bs) = to_string a ++ codes "." ++ inet_ntoa (b ∷ bs)

inet_ntoa_runs : inet_ntoa (127 ∷ 0 ∷ 0 ∷ 1 ∷ []) ≡ codes "127.0.0.1"
unfolding inet_ntoa
inet_ntoa_runs = refl
