-- ===== src/Router/Files/Addresses.antt =====
-- Hardware addresses in text.
use teme_pcom_anul_2_sem.Prelude.{
  ℕ, ◌+◌, ◌*◌, ◌/◌, ◌%◌, ◌≡◌, ◌<◌, refl, ap, sym, ◌∙◌, true, some, List, [], ◌∷◌, ltb,
  if◌then◌else◌, Text, length, IsBytes, arith,
}
use teme_pcom_anul_2_sem.Router.Files.{hex2num, hex2byte, read_bytes, hwaddr_aton}

-- A digit of a number below 16, in lower case.
abbrev pub hex_digit : ℕ → ℕ
hex_digit n = if ltb n 10 then 48 + n else 87 + n

-- The bytes in hexadecimal, with colons between them.
abbrev pub hwaddr_ntoa : List ℕ → Text
hwaddr_ntoa [] = []
hwaddr_ntoa (b ∷ []) = hex_digit (b / 16) ∷ hex_digit (b % 16) ∷ []
hwaddr_ntoa (b ∷ c ∷ bs) = hex_digit (b / 16) ∷ hex_digit (b % 16) ∷ 58 ∷ hwaddr_ntoa (c ∷ bs)

hex2num-hex_digit : (n : ℕ) → n < 16 → hex2num (hex_digit n) ≡ some n
unfolding hex2num
hex2num-hex_digit n h = ground arith

hex2byte_lem :
    (b : ℕ) (rest : Text)
    → b < 256
    → hex2byte (hex_digit (b / 16) ∷ hex_digit (b % 16) ∷ rest) ≡ some b
unfolding hex2byte
hex2byte_lem b rest h =
    let whole : b / 16 * 16 + b % 16 ≡ b = omega arith in
    rw
      (
        hex2byte,
        hex2num-hex_digit (b / 16) (omega arith),
        hex2num-hex_digit (b % 16) (omega arith),
        whole,
      )
      refl

read_bytes-hwaddr_ntoa :
    (mac : List ℕ) → IsBytes mac → read_bytes (length mac) (hwaddr_ntoa mac) ≡ (true, mac)
unfolding read_bytes
read_bytes-hwaddr_ntoa [] w = refl
read_bytes-hwaddr_ntoa (b ∷ []) w = rw (read_bytes, hex2byte_lem b [] w.0) refl
read_bytes-hwaddr_ntoa (b ∷ c ∷ bs) w =
    let first = hex2byte_lem b (58 ∷ hwaddr_ntoa (c ∷ bs)) w.0 in
    rw (read_bytes, first, read_bytes-hwaddr_ntoa (c ∷ bs) w.1) refl

-- hwaddr_aton reads the six bytes of a printed hardware address.
pub hwaddr_aton-hwaddr_ntoa :
    (mac : List ℕ) → length mac ≡ 6 → IsBytes mac → hwaddr_aton (hwaddr_ntoa mac) ≡ (true, mac)
hwaddr_aton-hwaddr_ntoa mac h w =
    ap (λ n. read_bytes n (hwaddr_ntoa mac)) (sym h) ∙ read_bytes-hwaddr_ntoa mac w
