-- ===== src/Router/Icmp/Headers.antt =====
-- The checksums of the headers that ip_icmp.c writes.
use teme_pcom_anul_2_sem.Prelude.{
  ℕ, ◌+◌, ◌-◌, ◌*◌, ◌/◌, ◌%◌, ◌^◌, ◌≡◌, ◌≤◌, ◌<◌, refl, ap, sym, ◌∙◌, length, ◌++◌, arith, inr,
  le_bytes, IsBytes, append-IsBytes, le_bytes-IsBytes,
}
use teme_pcom_anul_2_sem.Router.Checksum.{ip_checksum}
use teme_pcom_anul_2_sem.Router.Checksum.Sums.{sum16, ip_checksum-sum16}
use teme_pcom_anul_2_sem.Router.Headers.{Iphdr, iphdr_bytes}
use teme_pcom_anul_2_sem.Router.Headers.Layout.{IsIphdr}
use teme_pcom_anul_2_sem.Router.Icmp.{header_offset, ip_hdr_setter, incremental_checksum}

-- The sum of the words of a header, the checksum apart.
abbrev pub sum_without_check : Iphdr → ℕ
sum_without_check h =
    h.version_ihl * 256
    + h.tos
    + h.tot_len % 2 ^ 16
    + h.id % 2 ^ 16
    + h.frag_off % 2 ^ 16
    + (h.ttl * 256 + h.protocol)
    + sum16 (le_bytes 4 h.saddr ++ le_bytes 4 h.daddr)

sum16-iphdr_bytes : (h : Iphdr) → sum16 (iphdr_bytes h) ≡ sum_without_check h + h.check % 2 ^ 16
sum16-iphdr_bytes h = omega arith

pub low : (n : ℕ) → n % 256 < 256
low n = omega arith

pub high : (n : ℕ) → n / 256 % 256 < 256
high n = omega arith

pub iphdr_bytes-IsBytes : (h : Iphdr) → IsIphdr h → IsBytes (iphdr_bytes h)
iphdr_bytes-IsBytes h w = (
  w.version_ihl,
  (
    w.tos,
    (
      high h.tot_len,
      (
        low h.tot_len,
        (
          high h.id,
          (
            low h.id,
            (
              high h.frag_off,
              (
                low h.frag_off,
                (
                  w.ttl,
                  (
                    w.protocol,
                    (
                      high h.check,
                      (
                        low h.check,
                        append-IsBytes (le_bytes 4 h.saddr) (le_bytes 4 h.daddr)
                            (le_bytes-IsBytes 4 h.saddr) (le_bytes-IsBytes 4 h.daddr),
                      ),
                    ),
                  ),
                ),
              ),
            ),
          ),
        ),
      ),
    ),
  ),
)

sum-lt : (h : Iphdr) → length (iphdr_bytes h) < 2 ^ 31
sum-lt h = omega arith

ip_checksum-iphdr_bytes :
    (h : Iphdr)
    → IsIphdr h
    → ip_checksum header_offset (iphdr_bytes h) ≡ (65535 - sum16 (iphdr_bytes h) % 65535) % 65535
ip_checksum-iphdr_bytes h w =
    ip_checksum-sum16 (iphdr_bytes h) (iphdr_bytes-IsBytes h w) (sum-lt h) header_offset (inr refl)

pub incremental_checksum-IsIphdr : (h : Iphdr) → IsIphdr h → IsIphdr (incremental_checksum h)
unfolding incremental_checksum
incremental_checksum-IsIphdr h w = record {
  version_ihl = w.version_ihl;
  tos = w.tos;
  tot_len = w.tot_len;
  id = w.id;
  frag_off = w.frag_off;
  ttl = omega arith;
  protocol = w.protocol;
  check = omega arith;
  saddr = w.saddr;
  daddr = w.daddr;
}

sum16-incremental_checksum :
    (h : Iphdr)
    → IsIphdr h
    → 1 ≤ h.ttl
    → sum16 (iphdr_bytes (incremental_checksum h)) % 65535 ≡ sum16 (iphdr_bytes h) % 65535
unfolding incremental_checksum
sum16-incremental_checksum h w p =
    omega (arith, sum16-iphdr_bytes h, sum16-iphdr_bytes (incremental_checksum h))

ttl-incremental_checksum :
    (h : Iphdr) → IsIphdr h → 1 ≤ h.ttl → (incremental_checksum h).ttl ≡ h.ttl - 1
unfolding incremental_checksum
ttl-incremental_checksum h w p = omega (arith, w.ttl)

-- For a header whose fields fit their widths, with a TTL of at least 1, incremental_checksum takes
-- 1 from the TTL, and ip_checksum of the whole header gives what it gave before: a header that
-- held still holds, and a corrupt one stays corrupt.
pub incremental_checksum-same :
    (h : Iphdr)
    → IsIphdr h
    → 1 ≤ h.ttl
    → ((incremental_checksum h).ttl ≡ h.ttl - 1)
      × (ip_checksum header_offset (iphdr_bytes (incremental_checksum h))
          ≡ ip_checksum header_offset (iphdr_bytes h))
incremental_checksum-same h w p = (
  ttl-incremental_checksum h w p,
  ip_checksum-iphdr_bytes (incremental_checksum h) (incremental_checksum-IsIphdr h w)
      ∙ ap (λ s. (65535 - s) % 65535) (sum16-incremental_checksum h w p)
      ∙ sym (ip_checksum-iphdr_bytes h w),
)

-- The complement of a sum completes it.
pub completed_lem : (s : ℕ) → (65535 - (s + (65535 - s % 65535) % 65535) % 65535) % 65535 ≡ 0
completed_lem s = omega arith

-- A header whose field is empty, and then filled.
filled_lem :
    (h : Iphdr)
    → IsIphdr h
    → h.check ≡ 0
    → let filled = record h { check = ip_checksum header_offset (iphdr_bytes h) } in
      IsIphdr filled × (ip_checksum header_offset (iphdr_bytes filled) ≡ 0)
filled_lem h w e =
    let r = ip_checksum header_offset (iphdr_bytes h) in
    let r_lem = ip_checksum-iphdr_bytes h w in
    let filled = record h { check = r } in
    let fits : IsIphdr filled = record {
      version_ihl = w.version_ihl;
      tos = w.tos;
      tot_len = w.tot_len;
      id = w.id;
      frag_off = w.frag_off;
      ttl = w.ttl;
      protocol = w.protocol;
      check = omega (arith, r_lem);
      saddr = w.saddr;
      daddr = w.daddr;
    } in
    (
      fits,
      ip_checksum-iphdr_bytes filled fits
          ∙ ap (λ s. (65535 - s % 65535) % 65535)
              (omega (arith, sum16-iphdr_bytes h, sum16-iphdr_bytes filled, e, r_lem))
          ∙ completed_lem (sum16 (iphdr_bytes h)),
    )

pub ip_hdr_setter-valid :
    (req : Iphdr) (ip : ℕ)
    → IsIphdr req
    → ip < 2 ^ 32
    → IsIphdr (ip_hdr_setter req ip)
      × (ip_checksum header_offset (iphdr_bytes (ip_hdr_setter req ip)) ≡ 0)
unfolding ip_hdr_setter
ip_hdr_setter-valid req ip w i =
    filled_lem _
      (record {
        version_ihl = omega arith;
        tos = omega arith;
        tot_len = omega arith;
        id = omega arith;
        frag_off = w.frag_off;
        ttl = w.ttl;
        protocol = omega arith;
        check = omega arith;
        saddr = i;
        daddr = w.saddr;
      })
      refl
