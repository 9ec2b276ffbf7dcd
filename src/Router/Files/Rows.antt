-- ===== src/Router/Files/Rows.antt =====
-- The rows of a file with a routing table.
use teme_pcom_anul_2_sem.Prelude.{
  ℕ, suc, ◌/◌, ◌%◌, ◌^◌, ◌≡◌, ◌<◌, refl, subst, ap, ap₂, sym, ◌∙◌, true, List, [], ◌∷◌, ◌++◌, Text,
  arith, to_string, append-nil,
}
use teme_pcom_anul_2_sem.Router.Route.{RtableEntry}
use teme_pcom_anul_2_sem.Router.Files.{
  is_delim, keep, scan, tokens, atoi, set_byte, store_token, store_tokens, read_line,
}
use teme_pcom_anul_2_sem.Router.Files.Numbers.{
  Digits, Digits-decimal, decimal-append, StartsWithDigit, StartsWithDigit-decimal, atoi-to_string,
}

pub to_string-Digits : (n : ℕ) → Digits (to_string n)
unfolding to_string
to_string-Digits n = Digits-decimal (suc n) n [] tt

keep-StartsWithDigit : (w : Text) (words : List Text) → StartsWithDigit w → keep w words ≡ w ∷ words
keep-StartsWithDigit [] words h = absurd h
keep-StartsWithDigit (c ∷ w) words h = refl

pub to_string-StartsWithDigit : (n : ℕ) (rest : Text) → StartsWithDigit (to_string n ++ rest)
unfolding to_string
to_string-StartsWithDigit n rest =
    subst StartsWithDigit (sym (decimal-append (suc n) n [] rest))
      (StartsWithDigit-decimal (suc n) n rest (omega arith))

-- A word of digits is scanned as a whole.
scan-Digits : (w rest : Text) → Digits w → scan (w ++ rest) ≡ (w ++ (scan rest).0, (scan rest).1)
scan-Digits [] rest h = refl
scan-Digits (c ∷ w) rest h = ground (arith, scan-Digits w rest h.1, h.0)

-- A number with a delimiter behind it.
abbrev pub word : ℕ → ℕ → Text → Text
word n d rest = to_string n ++ d ∷ rest

scan-delim :
    (d : ℕ) (rest : Text)
    → is_delim d ≡ true
    → scan (d ∷ rest) ≡ ([], keep (scan rest).0 (scan rest).1)
scan-delim d rest h = rw h refl

tokens-word :
    (n d : ℕ) (rest : Text) → is_delim d ≡ true → tokens (word n d rest) ≡ to_string n ∷ tokens rest
unfolding tokens
tokens-word n d rest h =
    let w = to_string n in
    let e = scan-delim d rest h in
    let s : scan (w ++ d ∷ rest) ≡ (w, keep (scan rest).0 (scan rest).1) =
      scan-Digits w (d ∷ rest) (to_string-Digits n)
      ∙ ap₂ (λ x y. (w ++ x, y)) (ap (λ r. r.0) e) (ap (λ r. r.1) e)
      ∙ ap (λ x. (x, keep (scan rest).0 (scan rest).1)) (append-nil w) in
    ap (λ r. keep r.0 r.1) s
    ∙ keep-StartsWithDigit w (keep (scan rest).0 (scan rest).1)
        (subst StartsWithDigit (append-nil w) (to_string-StartsWithDigit n []))

tokens-last : (n : ℕ) → tokens (to_string n ++ 10 ∷ []) ≡ (to_string n ++ 10 ∷ []) ∷ []
unfolding tokens
tokens-last n =
    ap (λ r. keep r.0 r.1) (scan-Digits (to_string n) (10 ∷ []) (to_string-Digits n))
    ∙ keep-StartsWithDigit (to_string n ++ 10 ∷ []) [] (to_string-StartsWithDigit n (10 ∷ []))

-- An address in dotted form, in the order of memory, and a row of the file.
abbrev pub dotted : ℕ → ℕ → Text → Text
dotted a d rest =
    word (a % 256) 46
      (word (a / 256 % 256) 46 (word (a / 256 / 256 % 256) 46 (word (a / 256 / 256 / 256) d rest)))

abbrev pub row : RtableEntry → Text
row e =
    dotted e.prefix 32 (dotted e.next_hop 32 (dotted e.mask 32 (to_string e.interface ++ 10 ∷ [])))

-- The fields fit their widths.
pub record IsRtableEntry (e : RtableEntry) : Type 0 where
  pub prefix : e.prefix < 2 ^ 32
  pub next_hop : e.next_hop < 2 ^ 32
  pub mask : e.mask < 2 ^ 32
  pub interface : e.interface < 2 ^ 31

-- Four bytes replace a number.
set_bytes_lem :
    (a g : ℕ)
    → a < 2 ^ 32
    → g < 2 ^ 32
    → set_byte 3 (a / 256 / 256 / 256 % 256) (
        set_byte 2
          (a / 256 / 256 % 256 % 256)
          (set_byte 1 (a / 256 % 256 % 256) (set_byte 0 (a % 256 % 256) g)))
      ≡ a
set_bytes_lem a g h k = omega arith

atoi-byte : (b : ℕ) → b < 256 → atoi (to_string b) ≡ b
atoi-byte b h =
    ap atoi (sym (append-nil (to_string b))) ∙ atoi-to_string b [] (omega (arith, h)) refl

-- The tokens of an address.
tokens-dotted :
    (a d : ℕ) (rest : Text)
    → is_delim d ≡ true
    → tokens (dotted a d rest)
      ≡ to_string (a % 256)
        ∷ to_string (a / 256 % 256)
        ∷ to_string (a / 256 / 256 % 256)
        ∷ to_string (a / 256 / 256 / 256)
        ∷ tokens rest
tokens-dotted a d rest h =
    let w3 = word (a / 256 / 256 / 256) d rest in
    let w2 = word (a / 256 / 256 % 256) 46 w3 in
    let w1 = word (a / 256 % 256) 46 w2 in
    tokens-word (a % 256) 46 w1 refl
    ∙ ap (λ t. to_string (a % 256) ∷ t)
        (tokens-word (a / 256 % 256) 46 w2 refl
          ∙ ap (λ t. to_string (a / 256 % 256) ∷ t)
              (tokens-word (a / 256 / 256 % 256) 46 w3 refl
                ∙ ap (λ t. to_string (a / 256 / 256 % 256) ∷ t)
                    (tokens-word (a / 256 / 256 / 256) d rest h)))

-- The tokens of an address.
abbrev address : ℕ → List Text → List Text
address a rest =
    to_string (a % 256)
    ∷ to_string (a / 256 % 256)
    ∷ to_string (a / 256 / 256 % 256)
    ∷ to_string (a / 256 / 256 / 256)
    ∷ rest

-- Four tokens replace one number of the entry.
module _ (a : ℕ) (h : a < 2 ^ 32) (ts : List Text) (g : RtableEntry) where
  b0 : atoi (to_string (a % 256)) ≡ a % 256
  b0 = atoi-byte (a % 256) (omega arith)

  b1 : atoi (to_string (a / 256 % 256)) ≡ a / 256 % 256
  b1 = atoi-byte (a / 256 % 256) (omega arith)

  b2 : atoi (to_string (a / 256 / 256 % 256)) ≡ a / 256 / 256 % 256
  b2 = atoi-byte (a / 256 / 256 % 256) (omega arith)

  b3 : atoi (to_string (a / 256 / 256 / 256)) ≡ a / 256 / 256 / 256
  b3 = atoi-byte (a / 256 / 256 / 256) (omega (arith, h))

  abbrev written : ℕ → ℕ
  written n = set_byte 3 (atoi (to_string (a / 256 / 256 / 256)) % 256) (
      set_byte 2 (atoi (to_string (a / 256 / 256 % 256)) % 256) (
        set_byte 1 (atoi (to_string (a / 256 % 256)) % 256)
          (set_byte 0 (atoi (to_string (a % 256)) % 256) n)))

  written_lem : (n : ℕ) → n < 2 ^ 32 → written n ≡ a
  written_lem n k = rw (b0, b1, b2, b3) (set_bytes_lem a n h k)

  store-prefix :
      g.prefix < 2 ^ 32
      → store_tokens 0 (address a ts) g ≡ store_tokens 4 ts (record g { prefix = a })
  unfolding store_tokens store_token
  store-prefix k = ap (λ n. store_tokens 4 ts (record g { prefix = n })) (written_lem g.prefix k)

  store-next_hop :
      g.next_hop < 2 ^ 32
      → store_tokens 4 (address a ts) g ≡ store_tokens 8 ts (record g { next_hop = a })
  unfolding store_tokens store_token
  store-next_hop k =
      ap (λ n. store_tokens 8 ts (record g { next_hop = n })) (written_lem g.next_hop k)

  store-mask :
      g.mask < 2 ^ 32 → store_tokens 8 (address a ts) g ≡ store_tokens 12 ts (record g { mask = a })
  unfolding store_tokens store_token
  store-mask k = ap (λ n. store_tokens 12 ts (record g { mask = n })) (written_lem g.mask k)

store-interface :
    (n : ℕ) (g : RtableEntry)
    → n < 2 ^ 32
    → store_tokens 12 ((to_string n ++ 10 ∷ []) ∷ []) g ≡ record g { interface = n }
unfolding store_tokens store_token
store-interface n g h = ap (λ i. record g { interface = i }) (atoi-to_string n (10 ∷ []) h refl)

tokens-row :
    (e : RtableEntry)
    → tokens (row e)
      ≡ address e.prefix
          (address e.next_hop (address e.mask ((to_string e.interface ++ 10 ∷ []) ∷ [])))
tokens-row e =
    let end = to_string e.interface ++ 10 ∷ [] in
    tokens-dotted e.prefix 32 (dotted e.next_hop 32 (dotted e.mask 32 end)) refl
    ∙ ap (address e.prefix) (
        tokens-dotted e.next_hop 32 (dotted e.mask 32 end) refl
        ∙ ap (address e.next_hop)
            (tokens-dotted e.mask 32 end refl ∙ ap (address e.mask) (tokens-last e.interface)))

-- What `malloc` may leave in an entry: three numbers of 32 bits and any interface.
pub record IsWords (e : RtableEntry) : Type 0 where
  pub prefix : e.prefix < 2 ^ 32
  pub next_hop : e.next_hop < 2 ^ 32
  pub mask : e.mask < 2 ^ 32

-- The row of an entry is read over whatever the entry held.
pub read_line-row : (e g : RtableEntry) → IsRtableEntry e → IsWords g → read_line (row e) g ≡ e
read_line-row e g w v =
    let last = (to_string e.interface ++ 10 ∷ []) ∷ [] in
    let g1 = record g { prefix = e.prefix } in
    let g2 = record g1 { next_hop = e.next_hop } in
    let g3 = record g2 { mask = e.mask } in
    ap (λ ts. store_tokens 0 ts g) (tokens-row e)
    ∙ store-prefix e.prefix w.prefix (address e.next_hop (address e.mask last)) g v.prefix
    ∙ store-next_hop e.next_hop w.next_hop (address e.mask last) g1 v.next_hop
    ∙ store-mask e.mask w.mask last g2 v.mask
    ∙ store-interface e.interface g3 (omega (arith, w.interface))
