-- ===== src/Router/Headers/Packets.antt =====
-- A packet that is put together from its headers, and the headers read from it.
use teme_pcom_anul_2_sem.Prelude.{
  ℕ, zero, suc, ◌+◌, ◌^◌, ◌≡◌, ◌≤◌, ◌<◌, refl, sym, ap, ◌∙◌, List, ◌∷◌, ◌++◌, arith, length, take,
  drop, replicate, get_or, length-append, bytes_at, write_at, write_at-append, drop_past,
  drop-append, drop-write_at, length-drop, bytes_at-append, append_assoc, drop-drop, le_bytes,
  be_bytes, subst, le_value-le_bytes, be_bytes, subst,
}
use teme_pcom_anul_2_sem.Router.Headers.{
  Packet, EtherHeader, ether_header_of, ether_header_bytes, ArpHeader, arp_header_of,
  arp_header_bytes, eth_hdr_setter, Icmphdr, icmphdr_of, icmphdr_bytes, put,
}
use teme_pcom_anul_2_sem.Router.Headers.Layout.{tabulate, tabulate-get_or, be16-be_bytes}

pub record IsEtherHeader (h : EtherHeader) : Type 0 where
  pub ether_dhost : length h.ether_dhost ≡ 6
  pub ether_shost : length h.ether_shost ≡ 6
  pub ether_type : h.ether_type < 2 ^ 16

pub length-ether_header_bytes :
    (h : EtherHeader) → IsEtherHeader h → length (ether_header_bytes h) ≡ 14
length-ether_header_bytes h w = omega (
  arith,
  length-append h.ether_dhost (h.ether_shost ++ be_bytes h.ether_type),
  length-append h.ether_shost (be_bytes h.ether_type),
  w.ether_dhost,
  w.ether_shost,
)

pub ether_header_of-append :
    (h : EtherHeader) (rest : List ℕ)
    → IsEtherHeader h
    → ether_header_of (ether_header_bytes h ++ rest) ≡ h
ether_header_of-append h rest w =
    let Reads : List ℕ → List ℕ → Type 0 = λ d s.
      ether_header_of (ether_header_bytes (eth_hdr_setter d s h.ether_type) ++ rest)
      ≡ eth_hdr_setter d s h.ether_type in
    let d = h.ether_dhost in
    let s = h.ether_shost in
    let bytes : Reads (tabulate 6 (λ i. get_or d i 0)) (tabulate 6 (λ i. get_or s i 0)) =
      rw (be16-be_bytes h.ether_type w.ether_type) refl in
    subst (λ x. Reads x s) (tabulate-get_or 6 d w.ether_dhost)
      (subst (Reads (tabulate 6 (λ i. get_or d i 0))) (tabulate-get_or 6 s w.ether_shost) bytes)

pub icmphdr_of-icmphdr_bytes :
    (h : Icmphdr)
    → h.checksum < 2 ^ 16
    → h.id < 2 ^ 16
    → h.sequence < 2 ^ 16
    → icmphdr_of (icmphdr_bytes h) ≡ h
icmphdr_of-icmphdr_bytes h c i s =
    rw (be16-be_bytes h.checksum c, be16-be_bytes h.id i, be16-be_bytes h.sequence s) refl

pub record IsArpHeader (h : ArpHeader) : Type 0 where
  pub htype : h.htype < 2 ^ 16
  pub ptype : h.ptype < 2 ^ 16
  pub op : h.op < 2 ^ 16
  pub sha : length h.sha ≡ 6
  pub spa : h.spa < 2 ^ 32
  pub tha : length h.tha ≡ 6
  pub tpa : h.tpa < 2 ^ 32

pub length-arp_header_bytes :
    (h : ArpHeader) → length h.sha ≡ 6 → length h.tha ≡ 6 → length (arp_header_bytes h) ≡ 28
length-arp_header_bytes h sha tha = omega (
  arith,
  length-append h.sha (le_bytes 4 h.spa ++ (h.tha ++ le_bytes 4 h.tpa)),
  length-append h.tha (le_bytes 4 h.tpa),
  sha,
  tha,
)

pub arp_header_of-arp_header_bytes :
    (h : ArpHeader) → IsArpHeader h → arp_header_of (arp_header_bytes h) ≡ h
arp_header_of-arp_header_bytes h w =
    let with_macs : List ℕ → List ℕ → ArpHeader = λ s t. record h { sha = s; tha = t } in
    let Reads : List ℕ → List ℕ → Type 0 =
      λ s t. arp_header_of (arp_header_bytes (with_macs s t)) ≡ with_macs s t in
    let bytes : Reads (tabulate 6 (λ i. get_or h.sha i 0)) (tabulate 6 (λ i. get_or h.tha i 0)) =
      rw
        (
          be16-be_bytes h.htype w.htype,
          be16-be_bytes h.ptype w.ptype,
          be16-be_bytes h.op w.op,
          le_value-le_bytes 4 h.spa w.spa,
          le_value-le_bytes 4 h.tpa w.tpa,
        )
        refl in
    subst (λ x. Reads x h.tha) (tabulate-get_or 6 h.sha w.sha)
      (subst (Reads (tabulate 6 (λ i. get_or h.sha i 0))) (tabulate-get_or 6 h.tha w.tha) bytes)

-- Two headers one after the other.
pub put-put :
    (m : Packet) (a b : List ℕ) (i : ℕ)
    → length a ≡ i
    → (put (put m 0 a) i b).payload ≡ a ++ (b ++ drop (length b) (drop i m.payload))
put-put m a b i h =
    let start : 0 + length a ≡ i = omega (arith, h) in
    rw start (write_at-append a i h b (drop i m.payload))

-- The zeros of an empty payload, behind what is written.
pub bytes_at-replicate :
    (m n k : ℕ) (b : ℕ) → m + n ≤ k → bytes_at m n (replicate k b) ≡ replicate n b
bytes_at-replicate zero zero k b h = refl
bytes_at-replicate zero (suc n) zero b h = absurd (omega (arith, h))
bytes_at-replicate zero (suc n) (suc k) b h =
    ap (λ r. b ∷ r) (bytes_at-replicate zero n k b (omega (arith, h)))
bytes_at-replicate (suc m) zero zero b h = absurd (omega (arith, h))
bytes_at-replicate (suc m) (suc n) zero b h = absurd (omega (arith, h))
bytes_at-replicate (suc m) n (suc k) b h = bytes_at-replicate m n k b (omega (arith, h))

-- Bytes behind a known beginning.
pub bytes_at-past :
    (pre q : List ℕ) (i m n : ℕ) → i ≡ length pre + m → bytes_at i n (pre ++ q) ≡ bytes_at m n q
bytes_at-past pre q i m n h = ap (take n) (drop_past pre q i m h)

-- Three headers in a payload.
module _ (m : Packet) (e i : List ℕ) (he : length e ≡ 14) (hi : length i ≡ 20) where
  two_lem : (put (put m 0 e) 14 i).payload ≡ e ++ (i ++ drop 34 m.payload)
  two_lem =
      put-put m e i 14 he
      ∙ ap (λ n. e ++ (i ++ drop n (drop 14 m.payload))) hi
      ∙ ap (λ r. e ++ (i ++ r)) (drop-drop 20 14 m.payload)

  length-two : length (e ++ i) ≡ 34
  length-two = omega (arith, length-append e i, he, hi)

  pub three_lem :
      (c : List ℕ)
      → (put (put (put m 0 e) 14 i) 34 c).payload
        ≡ e ++ (i ++ (c ++ drop (length c) (drop 34 m.payload)))
  three_lem c =
      ap (write_at 34 c) (two_lem ∙ sym (append_assoc e i (drop 34 m.payload)))
      ∙ write_at-append (e ++ i) 34 length-two c (drop 34 m.payload)
      ∙ append_assoc e i (c ++ drop (length c) (drop 34 m.payload))

  -- Behind the first two the payload is as it was.
  pub behind_lem :
      (j k : ℕ) → bytes_at (34 + j) k (put (put m 0 e) 14 i).payload ≡ bytes_at (34 + j) k m.payload
  behind_lem j k =
      ap (bytes_at (34 + j) k) (two_lem ∙ sym (append_assoc e i (drop 34 m.payload)))
      ∙ bytes_at-past (e ++ i) (drop 34 m.payload) (34 + j) j k (omega (arith, length-two))
      ∙ ap (take k) (drop-drop j 34 m.payload)

-- The two headers of a whole packet written again.
module _ (m : Packet) (e i : List ℕ) (he : length e ≡ 14) (hi : length i ≡ 20)
    (whole : 34 ≤ length m.payload) where
  ip_then_ether : (put (put m 14 i) 0 e).payload ≡ e ++ (i ++ drop 34 m.payload)
  ip_then_ether =
      let end : 0 + length e ≡ 14 = omega (arith, he) in
      let behind : 14 + length i ≡ 34 = omega (arith, hi) in
      rw end (
        ap (λ q. e ++ q)
          (drop-write_at 14 i m.payload (omega (arith, hi, whole))
            ∙ ap (λ n. i ++ drop n m.payload) behind))

  pub length-ip_then_ether : length (put (put m 14 i) 0 e).payload ≡ length m.payload
  length-ip_then_ether = omega (
    arith,
    ap length ip_then_ether,
    length-append e (i ++ drop 34 m.payload),
    length-append i (drop 34 m.payload),
    length-drop 34 m.payload,
    he,
    hi,
    whole,
  )

  pub ether_of-ip_then_ether :
      (h : EtherHeader)
      → IsEtherHeader h
      → e ≡ ether_header_bytes h
      → ether_header_of (put (put m 14 i) 0 e).payload ≡ h
  ether_of-ip_then_ether h w f =
      ap ether_header_of (ip_then_ether ∙ ap (λ b. b ++ (i ++ drop 34 m.payload)) f)
      ∙ ether_header_of-append h (i ++ drop 34 m.payload) w

  pub ip_of-ip_then_ether : bytes_at 14 20 (put (put m 14 i) 0 e).payload ≡ i
  ip_of-ip_then_ether =
      ap (bytes_at 14 20) ip_then_ether ∙ bytes_at-append e 14 he i (drop 34 m.payload) 20 hi

  pub drop-ip_then_ether : drop 34 (put (put m 14 i) 0 e).payload ≡ drop 34 m.payload
  drop-ip_then_ether =
      ap (drop 34) (ip_then_ether ∙ sym (append_assoc e i (drop 34 m.payload)))
      ∙ drop-append (e ++ i) (drop 34 m.payload) 34 (omega (arith, length-append e i, he, hi))
