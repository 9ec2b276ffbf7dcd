-- ===== src/Router/Route.antt =====
-- Tema-1-PCom/router_funs.c: the order of the routing table and the search in it.
pub mod Search
pub mod Longest
mod Examples
use teme_pcom_anul_2_sem.Prelude.{
  ℕ, zero, suc, ◌+◌, ◌-◌, ◌/◌, ◌%◌, ◌^◌, bit_and, List, [], ◌∷◌, Option, none, some, ◌==◌, ltb, leb,
  if◌then◌else◌, length, get_elem?, ℤ, int32,
}

-- `struct route_table_entry`, its numbers as they lie in memory.
pub record RtableEntry : Type 0 where
  pub prefix : ℕ
  pub next_hop : ℕ
  pub mask : ℕ
  pub interface : ℕ

-- `lpm_comparator`: the difference of two `uint32_t` as an `int`.
unfoldable pub lpm_comparator : RtableEntry → RtableEntry → ℤ
lpm_comparator e1 e2 =
    if e1.prefix == e2.prefix
    then int32 ((e2.mask + 2 ^ 32 - e1.mask) % 2 ^ 32)
    else int32 ((e2.prefix + 2 ^ 32 - e1.prefix) % 2 ^ 32)

-- How the search ends: with `best` (−1 is `none`), by an access outside the table, or not while
-- the fuel lasts.
pub data Ending : Type 0 where
  found : Option ℕ → Ending
  outside : Ending
  unfinished : Ending

-- `left`, `right` and `best`.
pub record Bounds : Type 0 where
  pub left : ℕ
  pub right : ℕ
  pub best : Option ℕ

-- `mid - 1` of an `unsigned int`
abbrev pub pred32 : ℕ → ℕ
pred32 n = (n + 2 ^ 32 - 1) % 2 ^ 32

-- The body of the loop.
abbrev pub narrow : ℕ → ℕ → RtableEntry → Bounds → Bounds
narrow dest_ip mid e b =
    if bit_and dest_ip e.mask == e.prefix
    then record { left = b.left; right = pred32 mid; best = some mid }
    else if ltb e.prefix (bit_and dest_ip e.mask)
    then record { left = b.left; right = pred32 mid; best = b.best }
    else record { left = mid + 1; right = b.right; best = b.best }

unfoldable pub search_loop : ℕ → List RtableEntry → ℕ → Bounds → Ending
search_loop zero rtable dest_ip b = unfinished
search_loop (suc fuel) rtable dest_ip b =
    let mid = b.left + (b.right - b.left) / 2 in
    if leb b.left b.right
    then elim (get_elem? rtable mid) [
      | none ↦ outside
      | some e ↦ search_loop fuel rtable dest_ip (narrow dest_ip mid e b)
    ]
    else found b.best

-- `get_best_route`: the index of the route.
unfoldable pub get_best_route : ℕ → List RtableEntry → ℕ → Ending
unfolding search_loop
get_best_route fuel rtable dest_ip =
    search_loop fuel rtable dest_ip
      (record { left = 0; right = pred32 (length rtable % 2 ^ 32); best = none })
