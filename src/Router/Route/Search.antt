-- ===== src/Router/Route/Search.antt =====
-- What the binary search of router_funs.c finds in a table that is in order for the address.
use teme_pcom_anul_2_sem.Prelude.{
  ℕ, zero, suc, ◌+◌, ◌-◌, ◌/◌, ◌^◌, ◌≡◌, ◌≢◌, ◌≤◌, ◌<◌, refl, sym, subst, ap, ℕ_discrete, bit_and,
  List, [], ◌∷◌, Option, none, some, ltb, length, get_elem?, arith, if◌then◌else◌, dec_lt, dec_le,
}
use teme_pcom_anul_2_sem.Router.Route.{
  RtableEntry, found, outside, Bounds, pred32, narrow, search_loop, get_best_route,
}

-- For an address the table has `low` routes above it, then the routes that match up to `high`, and
-- then those below it.
pub record IsSplit (rtable : List RtableEntry) (dest_ip low high : ℕ) : Type 0 where
  pub in_order : low ≤ high
  pub in_table : high ≤ length rtable
  pub above :
      (i : ℕ) (e : RtableEntry)
      → get_elem? rtable i ≡ some e
      → i < low
      → bit_and dest_ip e.mask < e.prefix
  pub matching :
      (i : ℕ) (e : RtableEntry)
      → get_elem? rtable i ≡ some e
      → low ≤ i
      → i < high
      → bit_and dest_ip e.mask ≡ e.prefix
  pub below :
      (i : ℕ) (e : RtableEntry)
      → get_elem? rtable i ≡ some e
      → high ≤ i
      → e.prefix < bit_and dest_ip e.mask

pub get_elem-inside {ℓ} :
    {A : Type ℓ} (xs : List A) (i : ℕ) → i < length xs → (a : A) × (get_elem? xs i ≡ some a)
get_elem-inside [] i h = absurd (omega arith)
get_elem-inside (x ∷ xs) zero h = (x, refl)
get_elem-inside (x ∷ xs) (suc i) h = get_elem-inside xs i (omega arith)

get_elem-outside {ℓ} : {A : Type ℓ} (xs : List A) (i : ℕ) → length xs ≤ i → get_elem? xs i ≡ none
get_elem-outside [] i h = refl
get_elem-outside (x ∷ xs) zero h = absurd (omega arith)
get_elem-outside (x ∷ xs) (suc i) h = get_elem-outside xs i (omega arith)

-- The route that the search finds.
abbrev pub first_match : ℕ → ℕ → Option ℕ
first_match low high = if ltb low high then some low else none

-- The best route so far stands right behind the bounds.
abbrev pub IsBest : ℕ → ℕ → Option ℕ → Type 0
IsBest high next none = high ≤ next
IsBest high next (some i) = (i ≡ next) × (next < high)

IsBest-less :
    (high next mid : ℕ) (best : Option ℕ)
    → IsBest high next best
    → high ≤ mid
    → mid < next
    → IsBest high mid best
IsBest-less high next mid none b h l = h
IsBest-less high next mid (some i) b h l = absurd (omega (arith, b.1))

IsBest-first : (low high : ℕ) (best : Option ℕ) → IsBest high low best → best ≡ first_match low high
IsBest-first low high none b = ground arith
IsBest-first low high (some i) b = ground (arith, b.0, b.1)

module _ (dest_ip mid left right : ℕ) (e : RtableEntry) (best : Option ℕ) where
  abbrev bounds : Bounds
  bounds = record { left = left; right = right; best = best }

  narrow_above :
      bit_and dest_ip e.mask < e.prefix
      → narrow dest_ip mid e bounds ≡ record { left = mid + 1; right = right; best = best }
  narrow_above h = ground arith

  narrow_match :
      bit_and dest_ip e.mask ≡ e.prefix
      → 0 < mid
      → mid < 2 ^ 32
      → narrow dest_ip mid e bounds ≡ record { left = left; right = mid - 1; best = some mid }
  narrow_match h p s = ground arith

  narrow_below :
      e.prefix < bit_and dest_ip e.mask
      → 0 < mid
      → mid < 2 ^ 32
      → narrow dest_ip mid e bounds ≡ record { left = left; right = mid - 1; best = best }
  narrow_below h p s = ground arith

search_loop-first :
    (fuel : ℕ) (rtable : List RtableEntry) (dest_ip low high left next : ℕ) (best : Option ℕ)
    → IsSplit rtable dest_ip low high
    → 0 < low
    → length rtable ≤ 2 ^ 31
    → left ≤ low
    → low ≤ next
    → next ≤ length rtable
    → IsBest high next best
    → next - left < fuel
    → search_loop fuel rtable dest_ip (record { left = left; right = next - 1; best = best })
      ≡ found (first_match low high)
unfolding search_loop
search_loop-first zero rtable dest_ip low high left next best s pos' small l n inside b enough =
    absurd (omega arith)
search_loop-first (suc fuel) rtable dest_ip low high left next best s pos' small l n inside b
      enough =
    elim (dec_le left (next - 1)) [
      | no past ↦
          let here : low ≡ next = omega arith in
          ground (arith, IsBest-first low high best (subst (λ k. IsBest high k best) (sym here) b))
      | yes more ↦
          let mid = left + (next - 1 - left) / 2 in
          let (e, at) = get_elem-inside rtable mid (omega arith) in
          elim (dec_lt mid low) [
            | yes up ↦ ground (
              arith,
              at,
              narrow_above dest_ip mid left (next - 1) e best (s.above mid e at up),
              search_loop-first fuel rtable dest_ip low high (mid + 1) next best s pos' small
                  (omega arith) n inside b (omega arith),
            )
            | no down ↦ elim (dec_lt mid high) [
              | yes hit ↦ ground (
                arith,
                at,
                narrow_match dest_ip mid left (next - 1) e best
                    (s.matching mid e at (omega arith) hit) (omega arith) (omega arith),
                search_loop-first fuel rtable dest_ip low high left mid (some mid) s pos' small l
                    (omega arith) (omega arith) (refl, hit) (omega arith),
              )
              | no miss ↦ ground (
                arith,
                at,
                narrow_below dest_ip mid left (next - 1) e best (s.below mid e at (omega arith))
                    (omega arith) (omega arith),
                search_loop-first fuel rtable dest_ip low high left mid best s pos' small l
                    (omega arith) (omega arith)
                    (IsBest-less high next mid best b (omega arith) (omega arith)) (omega arith),
              )
            ]
          ]
    ]

-- In a table of at most 2^31 routes that has, for an address, at least one route above it, then
-- the routes that match it and then those below it, get_best_route ends within the table and gives
-- the first route that matches, or none if there is none; fuel above the number of routes is
-- enough.
pub get_best_route-first :
    (fuel : ℕ) (rtable : List RtableEntry) (dest_ip low high : ℕ)
    → IsSplit rtable dest_ip low high
    → 0 < low
    → length rtable ≤ 2 ^ 31
    → length rtable < fuel
    → get_best_route fuel rtable dest_ip ≡ found (first_match low high)
unfolding get_best_route
get_best_route-first fuel rtable dest_ip low high s some' small enough = ground (
  arith,
  search_loop-first fuel rtable dest_ip low high 0 (length rtable) none s some' small (omega arith)
      (omega (arith, s.in_order, s.in_table)) (omega arith) s.in_table (omega arith),
)

narrow_down :
    (dest_ip mid left right : ℕ) (e : RtableEntry) (best : Option ℕ)
    → e.prefix ≤ bit_and dest_ip e.mask
    → (best' : Option ℕ) × (narrow dest_ip mid e
          (record { left = left; right = right; best = best })
        ≡ record { left = left; right = pred32 mid; best = best' })
narrow_down dest_ip mid left right e best h = elim (ℕ_discrete (bit_and dest_ip e.mask) e.prefix) [
  | yes hit ↦ (some mid, ground arith)
  | no miss ↦ (best, ground arith)
]

-- No route of the table is above the address.
abbrev pub NoneAbove : List RtableEntry → ℕ → Type 0
NoneAbove rtable dest_ip =
    (i : ℕ) (e : RtableEntry) → get_elem? rtable i ≡ some e → e.prefix ≤ bit_and dest_ip e.mask

search_loop-wrapped :
    (fuel : ℕ) (rtable : List RtableEntry) (dest_ip : ℕ) (best : Option ℕ)
    → length rtable < 2 ^ 31
    → search_loop (suc fuel) rtable dest_ip (record { left = 0; right = 2 ^ 32 - 1; best = best })
      ≡ outside
unfolding search_loop
search_loop-wrapped fuel rtable dest_ip best small =
    ground (arith, get_elem-outside rtable (2 ^ 31 - 1) (omega arith))

search_loop-outside :
    (fuel : ℕ) (rtable : List RtableEntry) (dest_ip next : ℕ) (best : Option ℕ)
    → NoneAbove rtable dest_ip
    → length rtable < 2 ^ 31
    → 0 < next
    → next ≤ length rtable
    → next < fuel
    → search_loop fuel rtable dest_ip (record { left = 0; right = next - 1; best = best }) ≡ outside
unfolding search_loop
search_loop-outside zero rtable dest_ip next best s small p inside enough = absurd (omega arith)
search_loop-outside (suc zero) rtable dest_ip next best s small p inside enough =
    absurd (omega arith)
search_loop-outside (suc (suc fuel)) rtable dest_ip next best s small p inside enough =
    let mid = 0 + (next - 1 - 0) / 2 in
    let (e, at) = get_elem-inside rtable mid (omega arith) in
    let (best', down) = narrow_down dest_ip mid 0 (next - 1) e best (s mid e at) in
    elim (ℕ_discrete mid 0) [
      | yes first ↦
          let wraps : pred32 mid ≡ 2 ^ 32 - 1 = ap pred32 first in
          ground (arith, at, down, wraps, search_loop-wrapped fuel rtable dest_ip best' small)
      | no later ↦
          let less : pred32 mid ≡ mid - 1 = omega arith in
          ground (
            arith,
            at,
            down,
            less,
            search_loop-outside (suc fuel) rtable dest_ip mid best' s small (omega arith)
                (omega arith) (omega arith),
          )
    ]

-- In a table of at least one and fewer than 2^31 routes of which none is above the address,
-- get_best_route reads outside the table, whether or not a route matches.
pub get_best_route-outside :
    (fuel : ℕ) (rtable : List RtableEntry) (dest_ip : ℕ)
    → NoneAbove rtable dest_ip
    → rtable ≢ []
    → length rtable < 2 ^ 31
    → length rtable < fuel
    → get_best_route fuel rtable dest_ip ≡ outside
unfolding get_best_route
get_best_route-outside fuel rtable dest_ip s some' small enough =
    let long : length rtable ≢ 0 = λ z. some' (ground arith) in
    ground (
      arith,
      search_loop-outside fuel rtable dest_ip (length rtable) none s small (omega arith)
          (omega arith) enough,
    )
