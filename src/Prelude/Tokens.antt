-- ===== src/Prelude/Tokens.antt =====
-- Texts without a character, and the functions of <cstring> on them.
use Prim.Native.Nat.{ℕ}
use mathlib.Core.Path.{◌≡◌, refl}
use mathlib.Core.Logic.{◌≢◌}
use mathlib.Core.Bool.{true, false}
use mathlib.Core.List.{[], ◌∷◌, ◌++◌}
use mathlib.Core.Option.{some}
use native.Mathlib.Omega.{arith}
use teme_pcom_anul_2_sem.Prelude.Bytes.{Text}
use teme_pcom_anul_2_sem.Prelude.Cstrings.{before, after, strtok, starts_with, strstr}

abbrev pub NotIn : ℕ → Text → Type 0
NotIn d [] = Unit
NotIn d (c ∷ cs) = (c ≢ d) × NotIn d cs

pub NotIn-append : (d : ℕ) (a b : Text) → NotIn d a → NotIn d b → NotIn d (a ++ b)
NotIn-append d [] b h k = k
NotIn-append d (c ∷ a) b h k = (h.0, NotIn-append d a b h.1 k)

pub before-NotIn : (d : ℕ) (w rest : Text) → NotIn d w → before d (w ++ d ∷ rest) ≡ w
before-NotIn d [] rest h = ground arith
before-NotIn d (c ∷ w) rest h = ground (arith, before-NotIn d w rest h.1)

pub after-NotIn : (d : ℕ) (w rest : Text) → NotIn d w → after d (w ++ d ∷ rest) ≡ rest
after-NotIn d [] rest h = ground arith
after-NotIn d (c ∷ w) rest h = ground (arith, after-NotIn d w rest h.1)

pub before_last : (d : ℕ) (w : Text) → NotIn d w → before d w ≡ w
before_last d [] h = refl
before_last d (c ∷ w) h = ground (arith, before_last d w h.1)

pub after_last : (d : ℕ) (w : Text) → NotIn d w → after d w ≡ []
after_last d [] h = refl
after_last d (c ∷ w) h = ground (arith, after_last d w h.1)

-- A word in front of a delimiter is the next token.
pub strtok-word :
    (d : ℕ) (w rest : Text) → NotIn d w → w ≢ [] → strtok d (w ++ d ∷ rest) ≡ some (w, rest)
unfolding strtok
strtok-word d [] rest h n = absurd (n refl)
strtok-word d (c ∷ w) rest h n = ground (arith, before-NotIn d w rest h.1, after-NotIn d w rest h.1)

pub strtok_last : (d : ℕ) (w : Text) → NotIn d w → w ≢ [] → strtok d w ≡ some (w, [])
unfolding strtok
strtok_last d [] h n = absurd (n refl)
strtok_last d (c ∷ w) h n = ground (arith, before_last d w h.1, after_last d w h.1)

-- No occurrence of `wanted` in `pre ++ tail` begins in `pre`.
abbrev pub NoStart : Text → Text → Text → Type 0
NoStart wanted [] tail = Unit
NoStart wanted (c ∷ pre) tail =
    (starts_with wanted (c ∷ pre ++ tail) ≡ false) × NoStart wanted pre tail

pub starts_with-append : (wanted rest : Text) → starts_with wanted (wanted ++ rest) ≡ true
starts_with-append [] rest = refl
starts_with-append (c ∷ wanted) rest = ground (arith, starts_with-append wanted rest)

pub strstr_first :
    (wanted pre tail : Text)
    → NoStart wanted pre tail
    → starts_with wanted tail ≡ true
    → strstr (pre ++ tail) wanted ≡ some tail
unfolding strstr
strstr_first wanted [] [] h k = ground arith
strstr_first wanted [] (c ∷ tail) h k = ground arith
strstr_first wanted (c ∷ pre) tail h k = ground (arith, strstr_first wanted pre tail h.1 k)

-- A single character begins nowhere in a text without it.
pub NotIn-NoStart : (d : ℕ) (pre tail : Text) → NotIn d pre → NoStart (d ∷ []) pre tail
NotIn-NoStart d [] tail h = tt
NotIn-NoStart d (c ∷ pre) tail h = (ground arith, NotIn-NoStart d pre tail h.1)
