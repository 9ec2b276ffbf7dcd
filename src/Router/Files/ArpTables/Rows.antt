-- ===== src/Router/Files/ArpTables/Rows.antt =====
-- A file with an ARP table, row by row.
use teme_pcom_anul_2_sem.Prelude.{
  ℕ, zero, suc, ◌*◌, ◌/◌, ◌%◌, ◌≡◌, ◌≢◌, ◌≤◌, ◌<◌, refl, ap, ◌∙◌, true, false, List, [], ◌∷◌, ◌++◌,
  arith, length, length-append, append_assoc, Text, is_space, skip_space, IsBytes, NotIn,
  NotIn-append, All,
}
use teme_pcom_anul_2_sem.Router.Arp.{ArpEntry}
use teme_pcom_anul_2_sem.Router.Files.{fgets}
use teme_pcom_anul_2_sem.Router.Files.Addresses.{hex_digit, hwaddr_ntoa, hwaddr_aton-hwaddr_ntoa}
use teme_pcom_anul_2_sem.Router.Files.Tables.{fgets-NotIn}
use teme_pcom_anul_2_sem.Router.Files.ArpTables.{
  ArpEntries, entries, word_of, behind_word, fits_word, add_entry, arp_line, arp_lines,
  parse_arp_table,
}

-- A word: not empty, without spaces, and shorter than the room for it.
pub record IsWord (w : Text) : Type 0 where
  pub some' : 1 ≤ length w
  pub short : length w < 50
  pub no_space : All (λ c. is_space c ≡ false) w

word_of-word :
    (w : Text) (c : ℕ) (rest : Text)
    → All (λ d. is_space d ≡ false) w
    → is_space c ≡ true
    → (word_of (w ++ c ∷ rest) ≡ w) × (behind_word (w ++ c ∷ rest) ≡ c ∷ rest)
word_of-word [] c rest h e = rw e (refl, refl)
word_of-word (d ∷ w) c rest h e =
    let more = word_of-word w c rest h.1 e in rw (h.0, more.0, more.1) (refl, refl)

skip_space-word :
    (w rest : Text)
    → 1 ≤ length w
    → All (λ d. is_space d ≡ false) w
    → skip_space (w ++ rest) ≡ w ++ rest
skip_space-word [] rest l h = absurd (omega (arith, l))
skip_space-word (d ∷ w) rest l h = rw h.0 refl

-- The printed hardware address is a word.
hex_digit_lem : (n : ℕ) → n < 16 → (is_space (hex_digit n) ≡ false) × (hex_digit n ≢ 10)
hex_digit_lem n h = ground arith

hwaddr_ntoa_lem :
    (mac : List ℕ)
    → IsBytes mac
    → All (λ d. is_space d ≡ false) (hwaddr_ntoa mac)
      × (length (hwaddr_ntoa mac) ≤ 3 * length mac)
      × (2 * length mac ≤ length (hwaddr_ntoa mac))
hwaddr_ntoa_lem [] w = (tt, omega arith, omega arith)
hwaddr_ntoa_lem (b ∷ []) w = (
  ((hex_digit_lem (b / 16) (omega (arith, w.0))).0, ((hex_digit_lem (b % 16) (omega arith)).0, tt)),
  omega arith,
  omega arith,
)
hwaddr_ntoa_lem (b ∷ c ∷ bs) w =
    let more = hwaddr_ntoa_lem (c ∷ bs) w.1 in
    (
      (
        (hex_digit_lem (b / 16) (omega (arith, w.0))).0,
        ((hex_digit_lem (b % 16) (omega arith)).0, (refl, more.0)),
      ),
      omega (arith, more.1),
      omega (arith, more.2),
    )

no_space-NotIn : (w : Text) → All (λ d. is_space d ≡ false) w → NotIn 10 w
no_space-NotIn [] h = tt
no_space-NotIn (c ∷ w) h = ((λ e. absurd (cc (ap is_space e, h.0))), no_space-NotIn w h.1)

-- A row of the file: the text of the address, a space, and the hardware address.
abbrev arp_body : (ℕ → Text) → ArpEntry → Text
arp_body ip_text e = ip_text e.ip ++ 32 ∷ hwaddr_ntoa e.mac

-- The file with these rows.
abbrev pub arp_rows : (ℕ → Text) → List ArpEntry → Text
arp_rows ip_text [] = []
arp_rows ip_text (e ∷ es) = arp_body ip_text e ++ 10 ∷ arp_rows ip_text es

module _ (inet_addr : Text → ℕ) (ip_text : ℕ → Text) where
  -- An entry that the file can hold.
  pub record IsPrintable (e : ArpEntry) : Type 0 where
    pub word : IsWord (ip_text e.ip)
    pub back : inet_addr (ip_text e.ip) ≡ e.ip
    pub six : length e.mac ≡ 6
    pub bytes : IsBytes e.mac

  body-NotIn : (e : ArpEntry) → IsPrintable e → NotIn 10 (arp_body ip_text e)
  body-NotIn e w =
      NotIn-append 10 (ip_text e.ip) (32 ∷ hwaddr_ntoa e.mac)
        (no_space-NotIn (ip_text e.ip) w.word.no_space)
        (omega arith, no_space-NotIn (hwaddr_ntoa e.mac) (hwaddr_ntoa_lem e.mac w.bytes).0)

  length-body : (e : ArpEntry) → IsPrintable e → length (arp_body ip_text e) < 99
  length-body e w = omega (
    arith,
    length-append (ip_text e.ip) (32 ∷ hwaddr_ntoa e.mac),
    w.word.short,
    (hwaddr_ntoa_lem e.mac w.bytes).1,
    w.six,
  )

  arp_line-body :
      (e : ArpEntry) (rest : ArpEntries)
      → IsPrintable e
      → arp_line inet_addr (arp_body ip_text e ++ 10 ∷ []) rest ≡ add_entry e rest
  unfolding arp_line
  arp_line-body e rest w =
      let ip = ip_text e.ip in
      let mac = hwaddr_ntoa e.mac in
      let m = hwaddr_ntoa_lem e.mac w.bytes in
      let long : 1 ≤ length mac = omega (arith, m.2, w.six) in
      let tail = mac ++ 10 ∷ [] in
      let whole = append_assoc ip (32 ∷ mac) (10 ∷ []) in
      let first = word_of-word ip 32 tail w.word.no_space refl in
      let second = word_of-word mac 10 [] m.0 refl in
      let ip_fits : fits_word ip ≡ true = ground (arith, w.word.some', w.word.short) in
      let mac_fits : fits_word mac ≡ true = ground (arith, long, m.1, w.six) in
      rw
        (
          whole,
          skip_space-word ip (32 ∷ tail) w.word.some' w.word.no_space,
          first.0,
          first.1,
          skip_space-word mac (10 ∷ []) long m.0,
          second.0,
          ip_fits,
          mac_fits,
          hwaddr_aton-hwaddr_ntoa e.mac w.six w.bytes,
          w.back,
        )
        refl

  arp_lines_more :
      (fuel : ℕ) (t : Text)
      → 1 ≤ length t
      → arp_lines inet_addr (suc fuel) t
        ≡ arp_line inet_addr (fgets 99 t).0 (arp_lines inet_addr fuel (fgets 99 t).1)
  unfolding arp_lines
  arp_lines_more fuel [] l = absurd (omega (arith, l))
  arp_lines_more fuel (c ∷ t) l = refl

  arp_lines_end : (fuel : ℕ) → arp_lines inet_addr fuel [] ≡ entries []
  unfolding arp_lines
  arp_lines_end zero = refl
  arp_lines_end (suc fuel) = refl

  arp_lines-arp_rows :
      (fuel : ℕ) (es : List ArpEntry)
      → All IsPrintable es
      → length (arp_rows ip_text es) ≤ fuel
      → arp_lines inet_addr fuel (arp_rows ip_text es) ≡ entries es
  arp_lines-arp_rows fuel [] w l = arp_lines_end fuel
  arp_lines-arp_rows zero (e ∷ es) w l =
      absurd (omega (arith, l, length-append (arp_body ip_text e) (10 ∷ arp_rows ip_text es)))
  arp_lines-arp_rows (suc fuel) (e ∷ es) w l =
      let long = length-append (arp_body ip_text e) (10 ∷ arp_rows ip_text es) in
      let line =
        fgets-NotIn 99 (arp_body ip_text e) (arp_rows ip_text es) (body-NotIn e w.0)
          (length-body e w.0) in
      arp_lines_more fuel (arp_rows ip_text (e ∷ es)) (omega (arith, long))
      ∙ ap (λ r. arp_line inet_addr r.0 (arp_lines inet_addr fuel r.1)) line
      ∙ ap (arp_line inet_addr (arp_body ip_text e ++ 10 ∷ []))
          (arp_lines-arp_rows fuel es w.1 (omega (arith, l, long)))
      ∙ arp_line-body e (entries es) w.0

  -- From a file of rows, each the text of an address, a space and a printed hardware address of
  -- six bytes, parse_arp_table reads exactly the entries that were printed, in order, if each
  -- address has a text of at least one and fewer than 50 characters without spaces from which
  -- inet_addr gives it back.
  pub parse_arp_table-arp_rows :
      (es : List ArpEntry)
      → All IsPrintable es
      → parse_arp_table inet_addr (arp_rows ip_text es) ≡ entries es
  parse_arp_table-arp_rows es w =
      arp_lines-arp_rows (length (arp_rows ip_text es)) es w (omega arith)
