-- ===== src/Router/Files/ArpTables.antt =====
-- parse_arp_table of Tema-1-PCom/skel.c, which nothing calls. `inet_addr` is a parameter.
pub mod Rows
use teme_pcom_anul_2_sem.Prelude.{
  ℕ, zero, suc, ◌+◌, ◌*◌, ◌/◌, ◌%◌, ◌≡◌, ◌≢◌, ◌≤◌, ◌<◌, refl, sym, ap, ◌∙◌, subst, Bool, true,
  false, ◌&&◌, List, [], ◌∷◌, ◌++◌, ◌==◌, ltb, leb, if◌then◌else◌, arith, length, length-append,
  append_assoc, Text, is_space, skip_space, IsBytes, NotIn, NotIn-append, All,
}
use teme_pcom_anul_2_sem.Router.Arp.{ArpEntry}
use teme_pcom_anul_2_sem.Router.Files.{fgets, hwaddr_aton}
use teme_pcom_anul_2_sem.Router.Files.Addresses.{hex_digit, hwaddr_ntoa, hwaddr_aton-hwaddr_ntoa}
use teme_pcom_anul_2_sem.Router.Files.Tables.{fgets-NotIn}

-- How the reading ends: with the entries, by DIE for a hardware address, or with a word that is
-- missing or does not fit `ip_str` or `mac_str`.
pub data ArpEntries : Type 0 where
  entries : List ArpEntry → ArpEntries
  invalid_mac : ArpEntries
  unreadable : ArpEntries

-- `%s`: the word at the start, and what is behind it.
abbrev pub word_of : Text → Text
word_of [] = []
word_of (c ∷ cs) = let rest = word_of cs in if is_space c then [] else c ∷ rest

abbrev pub behind_word : Text → Text
behind_word [] = []
behind_word (c ∷ cs) = let rest = behind_word cs in if is_space c then c ∷ cs else rest

-- A word that fits 50 characters with its NUL.
abbrev pub fits_word : Text → Bool
fits_word w = leb 1 (length w) && ltb (length w) 50

abbrev pub add_entry : ArpEntry → ArpEntries → ArpEntries
add_entry e (entries es) = entries (e ∷ es)
add_entry e invalid_mac = invalid_mac
add_entry e unreadable = unreadable

module _ (inet_addr : Text → ℕ) where
  -- A line of the file, and what the rest of it gives.
  unfoldable pub arp_line : Text → ArpEntries → ArpEntries
  arp_line line rest =
      let ip_str = word_of (skip_space line) in
      let mac_str = word_of (skip_space (behind_word (skip_space line))) in
      let read = hwaddr_aton mac_str in
      if fits_word ip_str && fits_word mac_str
      then if read.0
        then add_entry (record { ip = inet_addr ip_str; mac = read.1 }) rest
        else invalid_mac
      else unreadable

  -- The loop of `parse_arp_table`. A round takes at least one character.
  unfoldable pub arp_lines : ℕ → Text → ArpEntries
  unfolding fgets arp_line
  arp_lines zero file = entries []
  arp_lines (suc fuel) [] = entries []
  arp_lines (suc fuel) (c ∷ file) =
      let line = fgets 99 (c ∷ file) in arp_line line.0 (arp_lines fuel line.1)

  -- `parse_arp_table`
  abbrev pub parse_arp_table : Text → ArpEntries
  parse_arp_table file = arp_lines (length file) file
