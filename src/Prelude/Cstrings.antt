-- ===== src/Prelude/Cstrings.antt =====
-- Functions of <cstring> and <cstdlib> on the text before the NUL: `strtok`, `strncmp` with a
-- literal, `strtol`; and `std::string::find` of a character.
use Prim.Native.Nat.{ℕ, suc, ◌+◌, ◌-◌, ◌*◌, ◌^◌, min}
use mathlib.Core.Bool.{Bool, true, false, ◌&&◌, ◌||◌}
use mathlib.Core.List.{[], ◌∷◌, List}
use mathlib.Core.Option.{Option, none, some}
use teme_pcom_anul_2_sem.Prelude.Tests.{leb, ◌==◌, if◌then◌else◌}
use teme_pcom_anul_2_sem.Prelude.Bytes.{Text}
use teme_pcom_anul_2_sem.Prelude.Int.{ℤ, pos, minus}

-- Without the delimiters at the start.
abbrev pub skip : ℕ → Text → Text
skip d [] = []
skip d (c ∷ cs) = if c == d then skip d cs else c ∷ cs

-- What is in front of the first delimiter, and what is behind it.
abbrev pub before : ℕ → Text → Text
before d [] = []
before d (c ∷ cs) = if c == d then [] else c ∷ before d cs

abbrev pub after : ℕ → Text → Text
after d [] = []
after d (c ∷ cs) = if c == d then cs else after d cs

abbrev pub first_word : ℕ → Text → Option (Text × Text)
first_word d [] = none
first_word d (c ∷ cs) = some (before d (c ∷ cs), after d (c ∷ cs))

-- `strtok` with one delimiter: the token, and where the next call goes on.
unfoldable pub strtok : ℕ → Text → Option (Text × Text)
strtok d t = first_word d (skip d t)

-- `strncmp(t, p, strlen(p)) == 0`
abbrev pub starts_with : Text → Text → Bool
starts_with [] t = true
starts_with (p ∷ ps) [] = false
starts_with (p ∷ ps) (c ∷ cs) = (p == c) && starts_with ps cs

abbrev pub is_digit : ℕ → Bool
is_digit c = leb 48 c && leb c 57

-- `isspace` in the C locale.
abbrev pub is_space : ℕ → Bool
is_space c = (c == 32) || (leb 9 c && leb c 13)

abbrev pub skip_space : Text → Text
skip_space [] = []
skip_space (c ∷ cs) = if is_space c then skip_space cs else c ∷ cs

-- The value of the digits at the start, continuing from `acc`.
abbrev pub leading : ℕ → Text → ℕ
leading acc [] = acc
leading acc (c ∷ cs) = if is_digit c then leading (acc * 10 + (c - 48)) cs else acc

abbrev pub signed : Text → ℤ
signed [] = pos 0
signed (c ∷ cs) =
    if c == 45
    then minus (min (leading 0 cs) (2 ^ 63))
    else pos (min (leading 0 (if c == 43 then cs else c ∷ cs)) (2 ^ 63 - 1))

-- `strtol(t, nullptr, 10)`, which stops at the bounds of a `long`.
unfoldable pub strtol : Text → ℤ
strtol t = signed (skip_space t)

-- `std::string::find` of a character.
abbrev pub find_char : ℕ → Text → Option ℕ
find_char d [] = none
find_char d (c ∷ cs) =
    if c == d then some 0 else elim (find_char d cs) [ none ↦ none | some i ↦ some (suc i) ]

abbrev pub after_sign : Text → Text
after_sign [] = []
after_sign (c ∷ cs) = if (c == 45) || (c == 43) then cs else c ∷ cs

abbrev pub has_end : Text → Bool
has_end [] = false
has_end (c ∷ cs) = if is_digit c then has_end cs else true

-- `strtol` of a pointer into an object with these bytes: `none` if the number goes on where the
-- object ends.
unfoldable pub strtol_in : List ℕ → Option ℤ
unfolding strtol
strtol_in bs = if has_end (after_sign (skip_space bs)) then some (strtol bs) else none

-- `strstr(t, wanted)`: the text from the first occurrence on.
unfoldable pub strstr : Text → Text → Option Text
strstr [] wanted = if starts_with wanted [] then some [] else none
strstr (c ∷ cs) wanted =
    let rest = strstr cs wanted in if starts_with wanted (c ∷ cs) then some (c ∷ cs) else rest
