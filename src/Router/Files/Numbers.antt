-- ===== src/Router/Files/Numbers.antt =====
-- Decimal numbers in a file, as `atoi` reads them.
use teme_pcom_anul_2_sem.Prelude.{
  ℕ, zero, suc, ◌+◌, ◌-◌, ◌/◌, ◌%◌, ◌^◌, ◌≡◌, ◌≤◌, ◌<◌, refl, ap, ◌∙◌, Bool, true, false, [], ◌∷◌,
  ◌++◌, ltb, if◌then◌else◌, Text, length, Bool-cases, inl, inr, pos, min, arith, decimal, to_string,
  strtol, to_size, leading,
}
use teme_pcom_anul_2_sem.Router.Files.{atoi}

-- A word of digits.
abbrev pub Digits : Text → Type 0
Digits [] = Unit
Digits (c ∷ cs) = ((48 ≤ c) × (c ≤ 57)) × Digits cs

Digits-if : (b : Bool) (x y : Text) → Digits x → Digits y → Digits (if b then x else y)
Digits-if true x y h k = h
Digits-if false x y h k = k

pub Digits-decimal : (fuel n : ℕ) (acc : Text) → Digits acc → Digits (decimal fuel n acc)
unfolding decimal
Digits-decimal zero n acc h = h
Digits-decimal (suc fuel) n acc h = elim (Bool-cases (ltb n 10)) [
  | inl small ↦ rw small ((omega arith, ground (arith, small)), h)
  | inr large ↦
      rw large (Digits-decimal fuel (n / 10) ((48 + n % 10) ∷ acc) ((omega arith, omega arith), h))
]

pub decimal-append :
    (fuel n : ℕ) (acc rest : Text) → decimal fuel n acc ++ rest ≡ decimal fuel n (acc ++ rest)
unfolding decimal
decimal-append zero n acc rest = refl
decimal-append (suc fuel) n acc rest =
    ground (arith, decimal-append fuel (n / 10) ((48 + n % 10) ∷ acc) rest)

-- The digits of a number have its value.
leading-decimal : (fuel n : ℕ) (t : Text) → n < fuel → leading 0 (decimal fuel n t) ≡ leading n t
unfolding decimal
leading-decimal zero n t h = absurd (omega (arith, h))
leading-decimal (suc fuel) n t h =
    ground (arith, h, leading-decimal fuel (n / 10) ((48 + n % 10) ∷ t))

-- A text that starts with a digit.
abbrev pub StartsWithDigit : Text → Type 0
StartsWithDigit [] = ⊥
StartsWithDigit (c ∷ cs) = (48 ≤ c) × (c ≤ 57)

pub StartsWithDigit-decimal :
    (fuel n : ℕ) (t : Text) → n < fuel → StartsWithDigit (decimal fuel n t)
unfolding decimal
StartsWithDigit-decimal zero n t h = absurd (omega (arith, h))
StartsWithDigit-decimal (suc fuel) n t h = elim (Bool-cases (ltb n 10)) [
  | inl small ↦ rw small (omega arith, ground (arith, small))
  | inr large ↦
      rw large
        (StartsWithDigit-decimal fuel (n / 10) ((48 + n % 10) ∷ t) (ground (arith, h, large)))
]

strtol-digits : (t : Text) → StartsWithDigit t → strtol t ≡ pos (min (leading 0 t) (2 ^ 63 - 1))
unfolding strtol
strtol-digits [] h = absurd h
strtol-digits (c ∷ cs) h = ground (arith, h)

-- `atoi` reads a printed number.
pub atoi-to_string :
    (n : ℕ) (rest : Text) → n < 2 ^ 32 → leading n rest ≡ n → atoi (to_string n ++ rest) ≡ n
unfolding atoi to_string
atoi-to_string n rest h e =
    let t = decimal (suc n) n rest in
    let value : leading 0 t ≡ n = leading-decimal (suc n) n rest (omega arith) ∙ e in
    ap (λ z. to_size (strtol z) % 2 ^ 32) (decimal-append (suc n) n [] rest)
    ∙ ap (λ z. to_size z % 2 ^ 32)
        (strtol-digits t (StartsWithDigit-decimal (suc n) n rest (omega arith)))
    ∙ omega (arith, value, h)

-- A number below 10^k has at most `k` digits.
pub length-decimal :
    (fuel n k : ℕ) (acc : Text) → n < 10 ^ suc k → length (decimal fuel n acc) ≤ suc k + length acc
unfolding decimal
length-decimal zero n k acc h = omega arith
length-decimal (suc fuel) n zero acc h = ground (arith, h)
length-decimal (suc fuel) n (suc k) acc h =
    let tenth : n / 10 < 10 ^ suc k = omega (arith, h) in
    ground (arith, length-decimal fuel (n / 10) k ((48 + n % 10) ∷ acc) tenth)
