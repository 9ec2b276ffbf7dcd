-- ===== src/Router/Files.antt =====
-- The readers of Tema-1-PCom/skel.c: hexadecimal digits, hardware addresses, and the routing table.
pub mod Addresses
pub mod Numbers
pub mod Rows
pub mod Tables
pub mod ArpTables
mod Examples
use teme_pcom_anul_2_sem.Prelude.{
  ℕ, zero, suc, ◌+◌, ◌-◌, ◌*◌, ◌/◌, ◌%◌, ◌^◌, Bool, true, false, not, ◌&&◌, ◌||◌, Option, none,
  some, List, [], ◌∷◌, ◌++◌, ◌==◌, ltb, leb, if◌then◌else◌, Text, strtol, to_size, length, ℤ, int32,
  signed, skip_space,
}
use teme_pcom_anul_2_sem.Router.Route.{RtableEntry}

-- The character that a pointer into a string shows, and the pointer one further.
abbrev pub at : Text → ℕ
at [] = 0
at (c ∷ cs) = c

abbrev pub further : Text → Text
further [] = []
further (c ∷ cs) = cs

-- `hex2num`, whose −1 is `none`.
unfoldable pub hex2num : ℕ → Option ℕ
hex2num c =
    if leb 48 c && leb c 57
    then some (c - 48)
    else if leb 97 c && leb c 102
    then some (c - 97 + 10)
    else if leb 65 c && leb c 70
    then some (c - 65 + 10)
    else none

-- `hex2byte`
unfoldable pub hex2byte : Text → Option ℕ
unfolding hex2num
hex2byte hex = elim (hex2num (at hex)) [
  | none ↦ none
  | some a ↦ elim (hex2num (at (further hex))) [ none ↦ none | some b ↦ some (a * 16 + b) ]
]

-- The loop of `hwaddr_aton`, with the bytes still to read: whether it succeeds, and what it writes.
unfoldable pub read_bytes : ℕ → Text → Bool × List ℕ
unfolding hex2byte
read_bytes zero txt = (true, [])
read_bytes (suc zero) txt = elim (hex2byte txt) [ none ↦ (false, []) | some b ↦ (true, b ∷ []) ]
read_bytes (suc (suc left)) txt =
    let behind = further (further txt) in
    let rest = read_bytes (suc left) (further behind) in
    elim (hex2byte txt) [
      | none ↦ (false, [])
      | some b ↦ if at behind == 58 then (rest.0, b ∷ rest.1) else (false, b ∷ [])
    ]

-- `hwaddr_aton`
abbrev pub hwaddr_aton : Text → Bool × List ℕ
hwaddr_aton txt = read_bytes 6 txt

-- The delimiters of `strtok(line, " .")`.
abbrev pub is_delim : ℕ → Bool
is_delim c = (c == 32) || (c == 46)

abbrev pub keep : Text → List Text → List Text
keep [] words = words
keep (c ∷ word) words = (c ∷ word) ∷ words

-- The word at the start, which may be empty, and the tokens behind it.
abbrev pub scan : Text → Text × List Text
scan [] = ([], [])
scan (c ∷ cs) = let r = scan cs in if is_delim c then ([], keep r.0 r.1) else (c ∷ r.0, r.1)

-- The tokens that the calls of `strtok` give one after the other.
unfoldable pub tokens : Text → List Text
tokens line = let r = scan line in keep r.0 r.1

-- `atoi`, as a 32-bit word.
unfoldable pub atoi : Text → ℕ
unfolding strtol
atoi t = to_size (strtol t) % 2 ^ 32

-- A write of byte `k` of a number in memory.
abbrev pub set_byte : ℕ → ℕ → ℕ → ℕ
set_byte k v n = n % 256 ^ k + v * 256 ^ k + n / 256 ^ (k + 1) * 256 ^ (k + 1)

-- What the token with number `i` of a line does to the entry.
unfoldable pub store_token : ℕ → Text → RtableEntry → RtableEntry
unfolding atoi
store_token i p e =
    if ltb i 4
    then record e { prefix = set_byte (i % 4) (atoi p % 256) e.prefix }
    else if ltb i 8
    then record e { next_hop = set_byte (i % 4) (atoi p % 256) e.next_hop }
    else if ltb i 12
    then record e { mask = set_byte (i % 4) (atoi p % 256) e.mask }
    else if i == 12
    then record e { interface = atoi p }
    else e

unfoldable pub store_tokens : ℕ → List Text → RtableEntry → RtableEntry
unfolding store_token
store_tokens i [] e = e
store_tokens i (p ∷ ps) e = store_tokens (i + 1) ps (store_token i p e)

-- A line of the file, over what the entry holds.
abbrev pub read_line : Text → RtableEntry → RtableEntry
read_line line e = store_tokens 0 (tokens line) e

-- `fgets` with room for `n` characters: the line, and the rest of the file.
unfoldable pub fgets : ℕ → Text → Text × Text
fgets zero file = ([], file)
fgets (suc n) [] = ([], [])
fgets (suc n) (c ∷ file) =
    let r = fgets n file in if c == 10 then (10 ∷ [], file) else (c ∷ r.0, r.1)

-- `RTABLE_ENTRIES`
abbrev pub rtable_entries : ℕ
rtable_entries = 100000

-- Whether a line with these tokens writes only inside the table, at entry `j`.
abbrev pub fits_table : List Text → ℕ → Bool
fits_table [] j = true
fits_table (p ∷ ps) j = ltb j rtable_entries

-- The loop of `read_rtable` from entry `j` on, over what `malloc` left in the table, `none` for a
-- write behind it. A round takes at least one character.
unfoldable pub read_rows : ℕ → Text → (ℕ → RtableEntry) → ℕ → Option (List RtableEntry)
unfolding fgets tokens store_tokens
read_rows zero file rtable j = some []
read_rows (suc fuel) [] rtable j = some []
read_rows (suc fuel) (c ∷ file) rtable j =
    let line = fgets 63 (c ∷ file) in
    let rest = read_rows fuel line.1 rtable (j + 1) in
    if fits_table (tokens line.0) j
    then elim rest [ none ↦ none | some es ↦ some (read_line line.0 (rtable j) ∷ es) ]
    else none

-- `read_rtable`
abbrev pub read_rtable : Text → (ℕ → RtableEntry) → Option (List RtableEntry)
read_rtable file rtable = read_rows (length file) file rtable 0
