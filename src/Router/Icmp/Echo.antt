-- ===== src/Router/Icmp/Echo.antt =====
-- The checksum of the ICMP header that icmp_hdr_setter writes.
use teme_pcom_anul_2_sem.Prelude.{
  ℕ, ◌+◌, ◌-◌, ◌*◌, ◌%◌, ◌^◌, ◌≡◌, ◌<◌, refl, ap, ◌∙◌, length, List, [], ◌++◌, arith, inr,
  get_or-lt, replicate, replicate-IsBytes, IsBytes,
}
use teme_pcom_anul_2_sem.Router.Checksum.{ip_checksum}
use teme_pcom_anul_2_sem.Router.Checksum.Sums.{sum16, ip_checksum-sum16}
use teme_pcom_anul_2_sem.Router.Headers.{Icmphdr, icmphdr_of, icmphdr_bytes}
use teme_pcom_anul_2_sem.Router.Headers.Layout.{be16-lt}
use teme_pcom_anul_2_sem.Router.Icmp.{header_offset, icmp_hdr_setter}
use teme_pcom_anul_2_sem.Router.Icmp.Headers.{low, high, completed_lem}

pub record IsIcmphdr (h : Icmphdr) : Type 0 where
  pub type : h.type < 256
  pub code : h.code < 256
  pub checksum : h.checksum < 2 ^ 16
  pub id : h.id < 2 ^ 16
  pub sequence : h.sequence < 2 ^ 16

pub icmphdr_of-IsIcmphdr : (p : List ℕ) → IsBytes p → IsIcmphdr (icmphdr_of p)
icmphdr_of-IsIcmphdr p w = record {
  type = get_or-lt p 0 w;
  code = get_or-lt p 1 w;
  checksum = be16-lt p w 2;
  id = be16-lt p w 4;
  sequence = be16-lt p w 6;
}

sum16-icmphdr_bytes :
    (h : Icmphdr) (behind : List ℕ)
    → sum16 (icmphdr_bytes h ++ behind)
      ≡ h.type * 256
        + h.code
        + h.id % 2 ^ 16
        + h.sequence % 2 ^ 16
        + sum16 behind
        + h.checksum % 2 ^ 16
sum16-icmphdr_bytes h behind = omega arith

module _ (behind : List ℕ) (w : IsBytes behind) (short : length behind < 2 ^ 30) where
  icmphdr_bytes-IsBytes : (h : Icmphdr) → IsIcmphdr h → IsBytes (icmphdr_bytes h ++ behind)
  icmphdr_bytes-IsBytes h f = (
    f.type,
    (
      f.code,
      (
        high h.checksum,
        (low h.checksum, (high h.id, (low h.id, (high h.sequence, (low h.sequence, w))))),
      ),
    ),
  )

  ip_checksum-icmphdr_bytes :
      (h : Icmphdr)
      → IsIcmphdr h
      → ip_checksum header_offset (icmphdr_bytes h ++ behind)
        ≡ (65535 - sum16 (icmphdr_bytes h ++ behind) % 65535) % 65535
  ip_checksum-icmphdr_bytes h f =
      ip_checksum-sum16 (icmphdr_bytes h ++ behind) (icmphdr_bytes-IsBytes h f)
        (omega (arith, short)) header_offset (inr refl)

  filled_icmp_lem :
      (h : Icmphdr)
      → IsIcmphdr h
      → h.checksum ≡ 0
      → let filled = record h {
        checksum = ip_checksum header_offset (icmphdr_bytes h ++ behind);
      } in
        IsIcmphdr filled × (ip_checksum header_offset (icmphdr_bytes filled ++ behind) ≡ 0)
  filled_icmp_lem h f e =
      let r = ip_checksum header_offset (icmphdr_bytes h ++ behind) in
      let r_lem = ip_checksum-icmphdr_bytes h f in
      let filled = record h { checksum = r } in
      let fits : IsIcmphdr filled = record {
        type = f.type;
        code = f.code;
        checksum = omega (arith, r_lem);
        id = f.id;
        sequence = f.sequence;
      } in
      (
        fits,
        ip_checksum-icmphdr_bytes filled fits
            ∙ ap (λ s. (65535 - s % 65535) % 65535)
                (omega (
                  arith,
                  sum16-icmphdr_bytes h behind,
                  sum16-icmphdr_bytes filled behind,
                  e,
                  r_lem,
                ))
            ∙ completed_lem (sum16 (icmphdr_bytes h ++ behind)),
      )

  pub icmp_hdr_setter-valid :
      (reply req : Icmphdr) (icmp_type : ℕ)
      → IsIcmphdr reply
      → IsIcmphdr req
      → icmp_type < 256
      → let set = icmp_hdr_setter reply req icmp_type behind in
        IsIcmphdr set × (ip_checksum header_offset (icmphdr_bytes set ++ behind) ≡ 0)
  unfolding icmp_hdr_setter
  icmp_hdr_setter-valid reply req icmp_type v u t =
      filled_icmp_lem _
        (record {
          type = t;
          code = omega arith;
          checksum = omega arith;
          id = ground (arith, v.id, u.id);
          sequence = ground (arith, v.sequence, u.sequence);
        })
        refl

-- Zeros behind the header do not count.
pub icmp_short_lem :
    (h : Icmphdr)
    → IsIcmphdr h
    → ip_checksum header_offset (icmphdr_bytes h ++ replicate 20 0) ≡ 0
    → ip_checksum header_offset (icmphdr_bytes h) ≡ 0
icmp_short_lem h f e = omega (
  arith,
  ip_checksum-icmphdr_bytes (replicate 20 0) (replicate-IsBytes 20) (omega arith) h f,
  ip_checksum-icmphdr_bytes [] tt (omega arith) h f,
  sum16-icmphdr_bytes h (replicate 20 0),
  sum16-icmphdr_bytes h [],
  e,
)
