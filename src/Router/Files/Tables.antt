-- ===== src/Router/Files/Tables.antt =====
-- A file with a routing table, row by row.
use teme_pcom_anul_2_sem.Prelude.{
  ℕ, zero, suc, ◌+◌, ◌/◌, ◌%◌, ◌^◌, ◌≡◌, ◌≢◌, ◌≤◌, ◌<◌, refl, ap, subst, sym, ◌∙◌, List, [], ◌∷◌,
  ◌++◌, Text, length, length-append, arith, to_string, append-nil, append_assoc, NotIn,
  NotIn-append, All, Option, some, none, true,
}
use teme_pcom_anul_2_sem.Router.Route.{RtableEntry}
use teme_pcom_anul_2_sem.Router.Files.{
  read_line, fgets, tokens, rtable_entries, fits_table, read_rows, read_rtable,
}
use teme_pcom_anul_2_sem.Router.Files.Numbers.{Digits, StartsWithDigit, length-decimal}
use teme_pcom_anul_2_sem.Router.Files.Rows.{
  to_string-Digits, to_string-StartsWithDigit, word, dotted, row, IsRtableEntry, IsWords,
  read_line-row,
}

-- The text of a row, without the end of the line.
abbrev body : RtableEntry → Text
body e = dotted e.prefix 32 (dotted e.next_hop 32 (dotted e.mask 32 (to_string e.interface)))

word-append : (n d : ℕ) (x y : Text) → word n d x ++ y ≡ word n d (x ++ y)
word-append n d x y = append_assoc (to_string n) (d ∷ x) y

dotted-append : (a d : ℕ) (x y : Text) → dotted a d x ++ y ≡ dotted a d (x ++ y)
dotted-append a d x y =
    let w3 = word (a / 256 / 256 / 256) d x in
    let w2 = word (a / 256 / 256 % 256) 46 w3 in
    word-append (a % 256) 46 (word (a / 256 % 256) 46 w2) y
    ∙ ap (word (a % 256) 46) (
        word-append (a / 256 % 256) 46 w2 y
        ∙ ap (word (a / 256 % 256) 46) (
            word-append (a / 256 / 256 % 256) 46 w3 y
            ∙ ap (word (a / 256 / 256 % 256) 46) (word-append (a / 256 / 256 / 256) d x y)))

body-append :
    (e : RtableEntry) (y : Text)
    → body e ++ y
      ≡ dotted e.prefix 32 (dotted e.next_hop 32 (dotted e.mask 32 (to_string e.interface ++ y)))
body-append e y =
    dotted-append e.prefix 32 (dotted e.next_hop 32 (dotted e.mask 32 (to_string e.interface))) y
    ∙ ap (dotted e.prefix 32) (
        dotted-append e.next_hop 32 (dotted e.mask 32 (to_string e.interface)) y
        ∙ ap (dotted e.next_hop 32) (dotted-append e.mask 32 (to_string e.interface) y))

-- No newline in front of the end, and room in the buffer.
Digits-NotIn : (w : Text) → Digits w → NotIn 10 w
Digits-NotIn [] h = tt
Digits-NotIn (c ∷ w) h = ((λ e. omega (arith, h.0, e)), Digits-NotIn w h.1)

word-NotIn : (n d : ℕ) (x : Text) → d ≢ 10 → NotIn 10 x → NotIn 10 (word n d x)
word-NotIn n d x e h =
    NotIn-append 10 (to_string n) (d ∷ x) (Digits-NotIn (to_string n) (to_string-Digits n)) (e, h)

dotted-NotIn : (a d : ℕ) (x : Text) → d ≢ 10 → NotIn 10 x → NotIn 10 (dotted a d x)
dotted-NotIn a d x e h =
    let w3 = word (a / 256 / 256 / 256) d x in
    let w2 = word (a / 256 / 256 % 256) 46 w3 in
    let w1 = word (a / 256 % 256) 46 w2 in
    word-NotIn (a % 256) 46 w1 (omega arith) (
      word-NotIn (a / 256 % 256) 46 w2 (omega arith) (
        word-NotIn (a / 256 / 256 % 256) 46 w3 (omega arith)
          (word-NotIn (a / 256 / 256 / 256) d x e h)))

length-word : (n d : ℕ) (x : Text) → n < 256 → length (word n d x) ≤ 4 + length x
unfolding to_string
length-word n d x h =
    omega (arith, length-append (to_string n) (d ∷ x), length-decimal (suc n) n 2 [] (omega arith))

length-dotted : (a d : ℕ) (x : Text) → a < 2 ^ 32 → length (dotted a d x) ≤ 16 + length x
length-dotted a d x h =
    let w3 = word (a / 256 / 256 / 256) d x in
    let w2 = word (a / 256 / 256 % 256) 46 w3 in
    let w1 = word (a / 256 % 256) 46 w2 in
    omega (
      arith,
      length-word (a % 256) 46 w1 (omega arith),
      length-word (a / 256 % 256) 46 w2 (omega arith),
      length-word (a / 256 / 256 % 256) 46 w3 (omega arith),
      length-word (a / 256 / 256 / 256) d x (omega (arith, h)),
    )

body-NotIn : (e : RtableEntry) → NotIn 10 (body e)
body-NotIn e =
    let i = to_string e.interface in
    let m = dotted e.mask 32 i in
    dotted-NotIn e.prefix 32 (dotted e.next_hop 32 m) (omega arith) (
      dotted-NotIn e.next_hop 32 m (omega arith)
        (dotted-NotIn e.mask 32 i (omega arith) (Digits-NotIn i (to_string-Digits e.interface))))

length-body : (e : RtableEntry) → IsRtableEntry e → length (body e) < 63
unfolding to_string
length-body e w =
    let i = to_string e.interface in
    let m = dotted e.mask 32 i in
    omega (
      arith,
      length-dotted e.prefix 32 (dotted e.next_hop 32 m) w.prefix,
      length-dotted e.next_hop 32 m w.next_hop,
      length-dotted e.mask 32 i w.mask,
      length-decimal (suc e.interface) e.interface 9 [] (omega (arith, w.interface)),
    )

pub fgets-NotIn :
    (n : ℕ) (w rest : Text)
    → NotIn 10 w
    → length w < n
    → fgets n (w ++ 10 ∷ rest) ≡ (w ++ 10 ∷ [], rest)
unfolding fgets
fgets-NotIn zero w rest h l = absurd (omega (arith, l))
fgets-NotIn (suc n) [] rest h l = refl
fgets-NotIn (suc n) (c ∷ w) rest h l = ground (arith, h.0, fgets-NotIn n w rest h.1, l)

-- The entries of the rows behind a line.
abbrev behind : RtableEntry → Option (List RtableEntry) → Option (List RtableEntry)
behind e rest = elim rest [ none ↦ none | some es ↦ some (e ∷ es) ]

fits_table_lem : (ps : List Text) (j : ℕ) → j < rtable_entries → fits_table ps j ≡ true
fits_table_lem [] j h = refl
fits_table_lem (p ∷ ps) j h = ground arith

read_rows_more :
    (fuel j : ℕ) (t : Text) (rtable : ℕ → RtableEntry)
    → StartsWithDigit t
    → j < rtable_entries
    → read_rows (suc fuel) t rtable j
      ≡ behind (read_line (fgets 63 t).0 (rtable j)) (read_rows fuel (fgets 63 t).1 rtable (j + 1))
unfolding read_rows
read_rows_more fuel j [] rtable h l = absurd h
read_rows_more fuel j (c ∷ t) rtable h l =
    rw (fits_table_lem (tokens (fgets 63 (c ∷ t)).0) j l) refl

row-StartsWithDigit : (e : RtableEntry) (rest : Text) → StartsWithDigit (row e ++ rest)
row-StartsWithDigit e rest =
    let n = e.prefix % 256 in
    let tail =
      46
      ∷ word (e.prefix / 256 % 256) 46 (
          word (e.prefix / 256 / 256 % 256) 46 (
            word (e.prefix / 256 / 256 / 256) 32
              (dotted e.next_hop 32 (dotted e.mask 32 (to_string e.interface ++ 10 ∷ []))))) in
    subst StartsWithDigit (sym (append_assoc (to_string n) tail rest))
      (to_string-StartsWithDigit n (tail ++ rest))

length-StartsWithDigit : (t : Text) → StartsWithDigit t → 1 ≤ length t
length-StartsWithDigit [] h = absurd h
length-StartsWithDigit (c ∷ t) h = omega arith

length-row : (e : RtableEntry) → 1 ≤ length (row e)
length-row e =
    length-StartsWithDigit (row e)
      (subst StartsWithDigit (append-nil (row e)) (row-StartsWithDigit e []))

fgets-row :
    (e : RtableEntry) (rest : Text) → IsRtableEntry e → fgets 63 (row e ++ rest) ≡ (row e, rest)
fgets-row e rest w =
    let end = body-append e (10 ∷ []) in
    ap (λ t. fgets 63 (t ++ rest)) (sym end)
    ∙ ap (fgets 63) (append_assoc (body e) (10 ∷ []) rest)
    ∙ fgets-NotIn 63 (body e) rest (body-NotIn e) (length-body e w)
    ∙ ap (λ t. (t, rest)) end

-- The loop takes a row.
read_rows-row :
    (fuel j : ℕ) (e : RtableEntry) (rest : Text) (rtable : ℕ → RtableEntry)
    → IsRtableEntry e
    → IsWords (rtable j)
    → j < rtable_entries
    → read_rows (suc fuel) (row e ++ rest) rtable j ≡ behind e (read_rows fuel rest rtable (j + 1))
read_rows-row fuel j e rest rtable w v l =
    read_rows_more fuel j (row e ++ rest) rtable (row-StartsWithDigit e rest) l
    ∙ ap (λ r. behind (read_line r.0 (rtable j)) (read_rows fuel r.1 rtable (j + 1)))
        (fgets-row e rest w)
    ∙ ap (λ x. behind x (read_rows fuel rest rtable (j + 1))) (read_line-row e (rtable j) w v)

-- The file with these rows.
abbrev pub rows : List RtableEntry → Text
rows [] = []
rows (e ∷ es) = row e ++ rows es

read_rows-rows :
    (fuel j : ℕ) (es : List RtableEntry) (rtable : ℕ → RtableEntry)
    → All IsRtableEntry es
    → ((i : ℕ) → IsWords (rtable i))
    → length (rows es) ≤ fuel
    → j + length es ≤ rtable_entries
    → read_rows fuel (rows es) rtable j ≡ some es
unfolding read_rows
read_rows-rows zero j [] rtable w v l k = refl
read_rows-rows (suc fuel) j [] rtable w v l k = refl
read_rows-rows zero j (e ∷ es) rtable w v l k =
    absurd (omega (arith, l, length-row e, length-append (row e) (rows es)))
read_rows-rows (suc fuel) j (e ∷ es) rtable w v l k =
    read_rows-row fuel j e (rows es) rtable w.0 (v j) (omega (arith, k))
    ∙ ap (behind e) (
        read_rows-rows fuel (j + 1) es rtable w.1 v
          (omega (arith, l, length-row e, length-append (row e) (rows es))) (omega (arith, k)))

-- From a file of rows, each three dotted addresses and an interface below 2^31 with spaces between
-- them, no more than RTABLE_ENTRIES of them, read_rtable writes only inside the table and reads
-- exactly the entries that were printed, in order, whatever 32-bit numbers the table held before.
pub read_rtable-rows :
    (es : List RtableEntry) (rtable : ℕ → RtableEntry)
    → All IsRtableEntry es
    → ((i : ℕ) → IsWords (rtable i))
    → length es ≤ rtable_entries
    → read_rtable (rows es) rtable ≡ some es
read_rtable-rows es rtable w v k =
    read_rows-rows (length (rows es)) 0 es rtable w v (omega arith) (omega (arith, k))
