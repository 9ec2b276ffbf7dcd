-- ===== src/Webclient/Forms.antt =====
-- Tema-3-PCom/forms.cpp: what is read from the standard input for a form.
use teme_pcom_anul_2_sem.Prelude.{
  ℕ, ◌-◌, ◌%◌, ◌^◌, Bool, true, false, List, [], ◌∷◌, Text, codes, ◌==◌, ltb, is_digit, leading,
  after_sign, if◌then◌else◌,
}
use teme_pcom_anul_2_sem.Webclient.Requests.{Members, text, number}

-- `std::cin`: the words that are left, and whether a read has failed, after which all do.
pub record Cin : Type 0 where
  pub words : List Text
  pub failed : Bool

abbrev pub next_word : List Text → Text × Cin
next_word [] = ([], record { words = []; failed = true })
next_word (w ∷ words) = (w, record { words = words; failed = false })

-- `std::cin >> s` for an empty string `s`.
unfoldable pub read_word : Cin → Text × Cin
read_word c = if c.failed then ([], c) else next_word c.words

-- What stands behind the digits at the start.
abbrev pub behind_digits : Text → Text
behind_digits [] = []
behind_digits (c ∷ cs) = if is_digit c then behind_digits cs else c ∷ cs

abbrev pub starts_with_digit : Text → Bool
starts_with_digit [] = false
starts_with_digit (c ∷ cs) = is_digit c

abbrev pub is_negative : Text → Bool
is_negative [] = false
is_negative (c ∷ cs) = c == 45

-- The words that are left when a number ends in the middle of one.
abbrev pub put_back : Text → List Text → List Text
put_back [] words = words
put_back (c ∷ cs) words = (c ∷ cs) ∷ words

-- A word as an `unsigned int`: a number that is too large becomes the largest one and fails, a
-- negative one wraps around.
abbrev pub unsigned_word : Text → List Text → ℕ × Cin
unsigned_word w words =
    let digits = after_sign w in
    let value = leading 0 digits in
    let rest = put_back (behind_digits digits) words in
    if starts_with_digit digits
    then (if ltb (2 ^ 32 - 1) value then (2 ^ 32 - 1, record { words = rest; failed = true }) else (
      if is_negative w then (2 ^ 32 - value) % 2 ^ 32 else value,
      record { words = rest; failed = false },
    ))
    else (0, record { words = rest; failed = true })

abbrev pub next_unsigned : List Text → ℕ × Cin
next_unsigned [] = (0, record { words = []; failed = true })
next_unsigned (w ∷ words) = unsigned_word w words

-- `std::cin >> n` for an `unsigned int` that is 0.
unfoldable pub read_unsigned : Cin → ℕ × Cin
read_unsigned c = if c.failed then (0, c) else next_unsigned c.words

unfoldable pub read_user : Cin → Members × Cin
unfolding read_word
read_user c =
    let (username, c1) = read_word c in
    let (password, c2) = read_word c1 in
    ((codes "username", text username) ∷ (codes "password", text password) ∷ [], c2)

unfoldable pub read_book : Cin → Members × Cin
unfolding read_word read_unsigned
read_book c =
    let (title, c1) = read_word c in
    let (author, c2) = read_word c1 in
    let (genre, c3) = read_word c2 in
    let (page_count, c4) = read_unsigned c3 in
    let (publisher, c5) = read_word c4 in
    (
      (codes "title", text title)
          ∷ (codes "author", text author)
          ∷ (codes "genre", text genre)
          ∷ (codes "page_count", number page_count)
          ∷ (codes "publisher", text publisher)
          ∷ [],
      c5,
    )
