-- ===== src/Router/Route/Longest.antt =====
-- The order of lpm_comparator, and the route that get_best_route takes in it.
use teme_pcom_anul_2_sem.Prelude.{
  ℕ, ◌+◌, ◌-◌, ◌%◌, ◌^◌, ◌≡◌, ◌≤◌, ◌<◌, ◌⊎◌, inl, inr, ap, subst, ◌∙◌, bit_and, bit_and_mono,
  bit_and_le, List, some, length, get_elem?, arith, ℤ, pos, negsuc, int32, dec_lt, dec_le,
  ℕ_discrete,
}
use teme_pcom_anul_2_sem.Router.Route.{RtableEntry, lpm_comparator, found, get_best_route}
use teme_pcom_anul_2_sem.Router.Route.Search.{
  IsSplit, get_elem-inside, first_match, get_best_route-first,
}

-- `qsort` may leave an element in front of another if the comparator gives no positive number.
abbrev pub NotPositive : ℤ → Type 0
NotPositive (pos n) = n ≡ 0
NotPositive (negsuc n) = Unit

-- Two numbers whose difference fits an `int`.
abbrev pub IsClose : ℕ → ℕ → Type 0
IsClose x y = (x < y + 2 ^ 31) × (y < x + 2 ^ 31)

-- The table in the order of `lpm_comparator`, with numbers of 32 bits whose differences fit, and
-- masks of which one contains the other.
pub record IsOrdered (rtable : List RtableEntry) : Type 0 where
  pub in_order :
      (i j : ℕ) (e f : RtableEntry)
      → get_elem? rtable i ≡ some e
      → get_elem? rtable j ≡ some f
      → i < j
      → NotPositive (lpm_comparator e f)
  pub close :
      (i j : ℕ) (e f : RtableEntry)
      → get_elem? rtable i ≡ some e
      → get_elem? rtable j ≡ some f
      → IsClose e.prefix f.prefix × IsClose e.mask f.mask
  pub nested :
      (i j : ℕ) (e f : RtableEntry)
      → get_elem? rtable i ≡ some e
      → get_elem? rtable j ≡ some f
      → (bit_and e.mask f.mask ≡ e.mask) ⊎ (bit_and f.mask e.mask ≡ f.mask)
  pub fits :
      (i : ℕ) (e : RtableEntry)
      → get_elem? rtable i ≡ some e
      → (e.prefix < 2 ^ 32) × (e.mask < 2 ^ 32)

difference :
    (x y : ℕ)
    → x < 2 ^ 32
    → y < 2 ^ 32
    → IsClose x y
    → NotPositive (int32 ((y + 2 ^ 32 - x) % 2 ^ 32))
    → y ≤ x
difference x y lx ly c n = ground (arith, c.0, c.1, n)

-- What the comparator orders: the greater prefix first, then the greater mask.
lpm_comparator_lem :
    (e f : RtableEntry)
    → (e.prefix < 2 ^ 32) × (e.mask < 2 ^ 32)
    → (f.prefix < 2 ^ 32) × (f.mask < 2 ^ 32)
    → IsClose e.prefix f.prefix × IsClose e.mask f.mask
    → NotPositive (lpm_comparator e f)
    → (f.prefix < e.prefix) ⊎ ((e.prefix ≡ f.prefix) × (f.mask ≤ e.mask))
unfolding lpm_comparator
lpm_comparator_lem e f we wf c n = elim (ℕ_discrete e.prefix f.prefix) [
  | yes same ↦
      let masks : lpm_comparator e f ≡ int32 ((f.mask + 2 ^ 32 - e.mask) % 2 ^ 32) =
        ground (arith, same) in
      inr (same, difference e.mask f.mask we.1 wf.1 c.1 (subst NotPositive masks n))
  | no other ↦
      let prefixes : lpm_comparator e f ≡ int32 ((f.prefix + 2 ^ 32 - e.prefix) % 2 ^ 32) =
        ground (arith, other) in
      let le = difference e.prefix f.prefix we.0 wf.0 c.0 (subst NotPositive prefixes n) in
      inl (omega (arith, le, other))
]

-- Of two routes that match, the one in front has the greater mask.
front_lem :
    (dest_ip : ℕ) (e f : RtableEntry)
    → (f.prefix < e.prefix) ⊎ ((e.prefix ≡ f.prefix) × (f.mask ≤ e.mask))
    → (bit_and e.mask f.mask ≡ e.mask) ⊎ (bit_and f.mask e.mask ≡ f.mask)
    → bit_and dest_ip e.mask ≡ e.prefix
    → bit_and dest_ip f.mask ≡ f.prefix
    → f.mask ≤ e.mask
front_lem dest_ip e f (inr (p, m)) n he hf = m
front_lem dest_ip e f (inl p) (inr n) he hf = omega (arith, n, bit_and_le f.mask e.mask)
front_lem dest_ip e f (inl p) (inl n) he hf =
    absurd (omega (arith, p, he, hf, bit_and_mono dest_ip e.mask f.mask n))

-- A route that matches stands where the matching ones do.
inside_lem :
    (rtable : List RtableEntry) (dest_ip low high : ℕ)
    → IsSplit rtable dest_ip low high
    → (j : ℕ) (f : RtableEntry) → get_elem? rtable j ≡ some f
    → bit_and dest_ip f.mask ≡ f.prefix
    → (low ≤ j) × (j < high)
inside_lem rtable dest_ip low high s j f there hit = elim (dec_lt j low) [
  | yes before ↦ absurd (omega (arith, s.above j f there before, hit))
  | no after ↦ elim (dec_le high j) [
    | yes behind ↦ absurd (omega (arith, s.below j f there behind, hit))
    | no inside ↦ (omega (arith, after), omega (arith, inside))
  ]
]

-- In a table of at most 2^31 routes with numbers below 2^32 that are less than 2^31 apart, whose
-- masks contain one another, in which lpm_comparator gives no positive number for a route and one
-- behind it, and that has, for an address, at least one route above it, then the routes that match
-- it and then those below it, if some route matches the address, get_best_route finds a route that
-- matches it and whose mask is no smaller; fuel above the number of routes is enough.
pub get_best_route-longest :
    (fuel : ℕ) (rtable : List RtableEntry) (dest_ip low high : ℕ)
    → IsOrdered rtable
    → IsSplit rtable dest_ip low high
    → 0 < low
    → length rtable ≤ 2 ^ 31
    → length rtable < fuel
    → (j : ℕ) (f : RtableEntry) → get_elem? rtable j ≡ some f
    → bit_and dest_ip f.mask ≡ f.prefix
    → (i : ℕ) × (e : RtableEntry) × (get_best_route fuel rtable dest_ip ≡ found (some i))
      × (get_elem? rtable i ≡ some e)
      × (bit_and dest_ip e.mask ≡ e.prefix)
      × (f.mask ≤ e.mask)
get_best_route-longest fuel rtable dest_ip low high o s some' small enough j f there matches =
    let inside = inside_lem rtable dest_ip low high s j f there matches in
    let more : low < high = omega (arith, inside.0, inside.1) in
    let at = get_elem-inside rtable low (omega (arith, more, s.in_table)) in
    let hit = s.matching low at.0 at.1 (omega arith) more in
    let first : first_match low high ≡ some low = ground (arith, more) in
    (
      low,
      at.0,
      get_best_route-first fuel rtable dest_ip low high s some' small enough ∙ ap found first,
      at.1,
      hit,
      elim (ℕ_discrete j low) [
        | yes same ↦
            let here : f ≡ at.0 = cc (subst (λ k. get_elem? rtable k ≡ some f) same there, at.1) in
            omega (arith, ap (λ r. r.mask) here)
        | no behind ↦
            front_lem dest_ip at.0 f
              (lpm_comparator_lem at.0 f (o.fits low at.0 at.1) (o.fits j f there)
                (o.close low j at.0 f at.1 there)
                (o.in_order low j at.0 f at.1 there (omega (arith, inside.0, behind))))
              (o.nested low j at.0 f at.1 there) hit matches
      ],
    )
