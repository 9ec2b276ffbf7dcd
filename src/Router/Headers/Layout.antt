-- ===== src/Router/Headers/Layout.antt =====
-- The headers in a payload: what is written is read again, and the other bytes stay.
use teme_pcom_anul_2_sem.Prelude.{
  ℕ, zero, suc, ◌+◌, ◌*◌, ◌/◌, ◌%◌, ◌^◌, ◌≡◌, ◌≤◌, ◌<◌, refl, get_or-lt, le_value-lt, drop-IsBytes,
  ap, ap₂, subst, get_or, List, [], ◌∷◌, ◌++◌, arith, length, take, drop, take_all, write_at,
  bytes_at, take-write_at, take-append-drop, drop-drop, drop-append, length-append, length-take,
  length-drop, append_assoc, sym, ◌∙◌, le_bytes, le_value, be_bytes, be16, IsBytes,
  le_value-le_bytes, le_bytes-le_value,
}
use teme_pcom_anul_2_sem.Router.Headers.{Iphdr, iphdr_of, iphdr_bytes}

-- The fields fit their widths.
pub record IsIphdr (h : Iphdr) : Type 0 where
  pub version_ihl : h.version_ihl < 256
  pub tos : h.tos < 256
  pub tot_len : h.tot_len < 2 ^ 16
  pub id : h.id < 2 ^ 16
  pub frag_off : h.frag_off < 2 ^ 16
  pub ttl : h.ttl < 256
  pub protocol : h.protocol < 256
  pub check : h.check < 2 ^ 16
  pub saddr : h.saddr < 2 ^ 32
  pub daddr : h.daddr < 2 ^ 32

pub be16-lt : (p : List ℕ) → IsBytes p → (i : ℕ) → be16 p i < 2 ^ 16
be16-lt p w i = omega (arith, get_or-lt p i w, get_or-lt p (i + 1) w)

pub iphdr_of-IsIphdr : (p : List ℕ) → IsBytes p → IsIphdr (iphdr_of p)
iphdr_of-IsIphdr p w = record {
  version_ihl = get_or-lt p 0 w;
  tos = get_or-lt p 1 w;
  tot_len = be16-lt p w 2;
  id = be16-lt p w 4;
  frag_off = be16-lt p w 6;
  ttl = get_or-lt p 8 w;
  protocol = get_or-lt p 9 w;
  check = be16-lt p w 10;
  saddr = le_value-lt 4 (drop 12 p) (drop-IsBytes 12 p w);
  daddr = le_value-lt 4 (drop 16 p) (drop-IsBytes 16 p w);
}

-- Bytes given by their positions.
abbrev pub tabulate : ℕ → (ℕ → ℕ) → List ℕ
tabulate zero g = []
tabulate (suc n) g = g 0 ∷ tabulate n (λ i. g (suc i))

pub tabulate-get_or : (n : ℕ) (p : List ℕ) → length p ≡ n → tabulate n (λ i. get_or p i 0) ≡ p
tabulate-get_or zero [] h = refl
tabulate-get_or zero (b ∷ p) h = absurd (omega (arith, h))
tabulate-get_or (suc n) [] h = absurd (omega (arith, h))
tabulate-get_or (suc n) (b ∷ p) h = ap (λ r. b ∷ r) (tabulate-get_or n p (omega (arith, h)))

module _ (g : ℕ → ℕ) (w : (i : ℕ) → g i < 256) where
  high : (i : ℕ) → (g i * 256 + g (suc i)) / 256 % 256 ≡ g i
  high i = omega (arith, w i, w (suc i))

  low : (i : ℕ) → (g i * 256 + g (suc i)) % 256 ≡ g (suc i)
  low i = omega (arith, w i, w (suc i))

  four_lem :
      (i : ℕ)
      → le_bytes 4 (le_value (g i ∷ g (suc i) ∷ g (suc (suc i)) ∷ g (suc (suc (suc i))) ∷ []))
        ≡ g i ∷ g (suc i) ∷ g (suc (suc i)) ∷ g (suc (suc (suc i))) ∷ []
  four_lem i =
      le_bytes-le_value (g i ∷ g (suc i) ∷ g (suc (suc i)) ∷ g (suc (suc (suc i))) ∷ [])
        (w i, (w (suc i), (w (suc (suc i)), (w (suc (suc (suc i))), tt))))

  iphdr_bytes-tabulate : iphdr_bytes (iphdr_of (tabulate 20 g)) ≡ tabulate 20 g
  iphdr_bytes-tabulate =
      rw (high 2, low 2, high 4, low 4, high 6, low 6, high 10, low 10)
        (ap (λ r. tabulate 12 g ++ r) (ap₂ (λ s d. s ++ d) (four_lem 12) (four_lem 16)))

pub iphdr_bytes-iphdr_of : (p : List ℕ) → IsBytes p → length p ≡ 20 → iphdr_bytes (iphdr_of p) ≡ p
iphdr_bytes-iphdr_of p w h =
    subst (λ q. iphdr_bytes (iphdr_of q) ≡ q) (tabulate-get_or 20 p h)
      (iphdr_bytes-tabulate (λ i. get_or p i 0) (λ i. get_or-lt p i w))

pub be16-be_bytes : (n : ℕ) → n < 2 ^ 16 → n / 256 % 256 * 256 + n % 256 ≡ n
be16-be_bytes n h = omega arith

pub iphdr_of-iphdr_bytes : (h : Iphdr) → IsIphdr h → iphdr_of (iphdr_bytes h) ≡ h
iphdr_of-iphdr_bytes h w =
    rw
      (
        be16-be_bytes h.tot_len w.tot_len,
        be16-be_bytes h.id w.id,
        be16-be_bytes h.frag_off w.frag_off,
        be16-be_bytes h.check w.check,
        le_value-le_bytes 4 h.saddr w.saddr,
        le_value-le_bytes 4 h.daddr w.daddr,
      )
      refl

-- A 16-bit field as bytes.
pub bytes_at-be16 :
    (i : ℕ) (p : List ℕ) → IsBytes p → i + 2 ≤ length p → bytes_at i 2 p ≡ be_bytes (be16 p i)
bytes_at-be16 i [] w h = absurd (omega (arith, h))
bytes_at-be16 zero (x ∷ []) w h = absurd (omega (arith, h))
bytes_at-be16 zero (x ∷ y ∷ p) w h =
    let g : ℕ → ℕ = λ i. get_or (x ∷ y ∷ []) i 0 in
    let b : (i : ℕ) → g i < 256 = λ i. get_or-lt (x ∷ y ∷ []) i (w.0, (w.1.0, tt)) in
    rw (high g b 0, low g b 0) refl
bytes_at-be16 (suc i) (x ∷ p) w h =
    let shift : suc i + 1 ≡ suc (i + 1) = omega arith in
    rw shift (bytes_at-be16 i p w.1 (omega (arith, h)))

pub drop-take : (m n : ℕ) (p : List ℕ) → drop m (take (m + n) p) ≡ bytes_at m n p
drop-take zero n p = ap (λ k. take k p) (omega arith)
drop-take (suc m) n [] =
    ap (drop (suc m)) (take_all (suc m + n) [] (omega arith)) ∙ sym (take_all n [] (omega arith))
drop-take (suc m) n (x ∷ p) =
    let shift : suc m + n ≡ suc (m + n) = omega arith in rw shift (drop-take m n p)

-- A write behind some bytes does not change them.
pub bytes_before-write_at :
    (m n : ℕ) (bs p : List ℕ)
    → m + n + length bs ≤ length p
    → bytes_at m n (write_at (m + n) bs p) ≡ bytes_at m n p
bytes_before-write_at m n bs p h =
    sym (drop-take m n (write_at (m + n) bs p))
    ∙ ap (drop m) (take-write_at (m + n) bs p h)
    ∙ drop-take m n p

-- A write that repeats the bytes behind it.
pub write_more :
    (a p : List ℕ) (n : ℕ)
    → length a + n ≤ length p
    → write_at 0 a p ≡ write_at 0 (a ++ bytes_at (length a) n p) p
write_more a p n h =
    let start : 0 + length a ≡ length a = omega arith in
    let total : 0 + length (a ++ bytes_at (length a) n p) ≡ length a + n = omega (
      arith,
      length-append a (bytes_at (length a) n p),
      length-take n (drop (length a) p),
      length-drop (length a) p,
      h,
    ) in
    ap (λ k. a ++ drop k p) start
    ∙ ap (λ q. a ++ q)
        (sym (take-append-drop n (drop (length a) p))
          ∙ ap (λ q. bytes_at (length a) n p ++ q) (drop-drop n (length a) p))
    ∙ sym (append_assoc a (bytes_at (length a) n p) (drop (length a + n) p))
    ∙ ap (λ k. (a ++ bytes_at (length a) n p) ++ drop k p) (sym total)

pub write_again : (a p : List ℕ) → write_at 0 a (write_at 0 a p) ≡ write_at 0 a p
write_again a p =
    ap (λ q. a ++ q) (drop-append a (drop (0 + length a) p) (0 + length a) (omega arith))
