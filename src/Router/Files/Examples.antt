-- ===== src/Router/Files/Examples.antt =====
-- The readers of skel.c at concrete texts.
use teme_pcom_anul_2_sem.Prelude.{
  ℕ, ◌+◌, ◌%◌, List, Text, inet_ntoa, le_bytes, ◌≡◌, refl, true, false, [], ◌∷◌, codes, to_string,
  arith, some,
}
use teme_pcom_anul_2_sem.Router.Route.{RtableEntry}
use teme_pcom_anul_2_sem.Router.Arp.{ArpEntry}
use teme_pcom_anul_2_sem.Router.Files.ArpTables.{entries, parse_arp_table, arp_lines, invalid_mac}
use teme_pcom_anul_2_sem.Router.Files.ArpTables.Rows.{
  IsPrintable, arp_rows, parse_arp_table-arp_rows,
}
use teme_pcom_anul_2_sem.Router.Files.{tokens, set_byte, atoi, hwaddr_aton, read_bytes, read_rtable}
use teme_pcom_anul_2_sem.Router.Files.Rows.{IsRtableEntry, IsWords}
use teme_pcom_anul_2_sem.Router.Files.Tables.{rows, read_rtable-rows}

-- Both cases of a digit are read, and a missing colon ends the reading behind the byte.
reads_address : hwaddr_aton (codes "0a:1B:00:ff:FF:10") ≡ (true, 10 ∷ 27 ∷ 0 ∷ 255 ∷ 255 ∷ 16 ∷ [])
unfolding read_bytes
reads_address = refl

stops_at_dash : hwaddr_aton (codes "0a-1b") ≡ (false, 10 ∷ [])
unfolding read_bytes
stops_at_dash = refl

-- 10.1.0.0 over 10.1.0.1 with 16 bits, and 192.168.1.0 over 10.1.0.2 with 24 bits.
abbrev near : RtableEntry
near = record { prefix = 266; next_hop = 16777482; mask = 65535; interface = 1 }

abbrev far : RtableEntry
far = record { prefix = 108736; next_hop = 33554698; mask = 16777215; interface = 2 }

-- What the table held before.
abbrev junk : RtableEntry
junk = record { prefix = 7; next_hop = 8; mask = 9; interface = 10 }

prints_rows :
    rows (near ∷ far ∷ [])
    ≡ codes "10.1.0.0 10.1.0.1 255.255.0.0 1\n192.168.1.0 10.1.0.2 255.255.255.0 2\n"
unfolding to_string
prints_rows = refl

near-IsRtableEntry : IsRtableEntry near
near-IsRtableEntry = record {
  prefix = omega arith;
  next_hop = omega arith;
  mask = omega arith;
  interface = omega arith;
}

far-IsRtableEntry : IsRtableEntry far
far-IsRtableEntry = record {
  prefix = omega arith;
  next_hop = omega arith;
  mask = omega arith;
  interface = omega arith;
}

junk-IsWords : IsWords junk
junk-IsWords = record { prefix = omega arith; next_hop = omega arith; mask = omega arith }

read_rtable-rows_example : read_rtable (rows (near ∷ far ∷ [])) (λ i. junk) ≡ some (near ∷ far ∷ [])
read_rtable-rows_example =
    read_rtable-rows (near ∷ far ∷ []) (λ i. junk) (near-IsRtableEntry, (far-IsRtableEntry, tt))
      (λ i. junk-IsWords) (omega arith)

-- `inet_addr` of four decimal numbers with dots between them.
abbrev from_tokens : ℕ → List Text → ℕ
from_tokens i [] = 0
from_tokens i (t ∷ ts) = set_byte i (atoi t % 256) (from_tokens (i + 1) ts)

abbrev inet_addr : Text → ℕ
inet_addr t = from_tokens 0 (tokens t)

abbrev ip_text : ℕ → Text
ip_text ip = inet_ntoa (le_bytes 4 ip)

abbrev one_hop : ArpEntry
one_hop = record { ip = 16777482; mac = 2 ∷ 0 ∷ 0 ∷ 0 ∷ 171 ∷ 9 ∷ [] }

prints_arp_rows : arp_rows ip_text (one_hop ∷ []) ≡ codes "10.1.0.1 02:00:00:00:ab:09\n"
unfolding inet_ntoa to_string
prints_arp_rows = refl

one_hop-IsPrintable : IsPrintable inet_addr ip_text one_hop
unfolding tokens atoi inet_ntoa to_string
one_hop-IsPrintable = record {
  word = record { some' = omega arith; short = omega arith; no_space = ground arith };
  back = refl;
  six = refl;
  bytes = ground arith;
}

parse_arp_table-arp_rows_example :
    parse_arp_table inet_addr (arp_rows ip_text (one_hop ∷ one_hop ∷ []))
    ≡ entries (one_hop ∷ one_hop ∷ [])
parse_arp_table-arp_rows_example =
    parse_arp_table-arp_rows inet_addr ip_text (one_hop ∷ one_hop ∷ [])
      (one_hop-IsPrintable, (one_hop-IsPrintable, tt))

-- A hardware address with a letter that is no digit ends the program.
rejects_mac : parse_arp_table inet_addr (codes "10.1.0.1 02:00:0x\n") ≡ invalid_mac
unfolding arp_lines read_bytes
rejects_mac = refl
