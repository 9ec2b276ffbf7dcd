-- ===== src/Router/Route/Examples.antt =====
-- The search of the routing table at concrete tables.
use teme_pcom_anul_2_sem.Prelude.{
  ℕ, zero, suc, ◌≡◌, ◌≤◌, ◌<◌, ◌^◌, ◌+◌, ◌-◌, refl, bit_and, List, [], ◌∷◌, some, get_elem?, arith,
  none, subst, inl, inr, ◌⊎◌, negsuc,
}
use teme_pcom_anul_2_sem.Router.Route.{RtableEntry, lpm_comparator, found, outside, get_best_route}
use teme_pcom_anul_2_sem.Router.Route.Longest.{
  NotPositive, IsClose, IsOrdered, get_best_route-longest,
}
use teme_pcom_anul_2_sem.Router.Route.Search.{IsSplit, NoneAbove, get_best_route-outside}

abbrev route : ℕ → ℕ → RtableEntry
route prefix mask = record { prefix = prefix; next_hop = 7; mask = mask; interface = 0 }

abbrev all_ones : ℕ
all_ones = 2 ^ 32 - 1

-- A route above 10, and one for it.
abbrev table : List RtableEntry
table = route 20 all_ones ∷ route 10 all_ones ∷ []

-- `qsort` puts 2^31 + 1 in front of 0 and 0 in front of 2^31: the difference does not fit an `int`.
comparator_wraps : lpm_comparator (route 0 0) (route (2 ^ 31 + 1) 0) ≡ negsuc (2 ^ 31 - 2)
unfolding lpm_comparator
comparator_wraps = refl

table-above :
    (i : ℕ) (e : RtableEntry) → get_elem? table i ≡ some e → i < 1 → bit_and 10 e.mask < e.prefix
table-above zero e h l = ground arith
table-above (suc i) e h l = absurd (omega arith)

table-matching :
    (i : ℕ) (e : RtableEntry)
    → get_elem? table i ≡ some e
    → 1 ≤ i
    → i < 2
    → bit_and 10 e.mask ≡ e.prefix
table-matching zero e h l u = absurd (omega arith)
table-matching (suc zero) e h l u = ground arith
table-matching (suc (suc i)) e h l u = absurd (omega arith)

table-below :
    (i : ℕ) (e : RtableEntry) → get_elem? table i ≡ some e → 2 ≤ i → e.prefix < bit_and 10 e.mask
table-below zero e h l = absurd (omega arith)
table-below (suc zero) e h l = absurd (omega arith)
table-below (suc (suc i)) e h l = absurd (cc h)

table-IsSplit : IsSplit table 10 1 2
table-IsSplit = record {
  in_order = omega arith;
  in_table = omega arith;
  above = table-above;
  matching = table-matching;
  below = table-below;
}

single-NoneAbove : NoneAbove (route 10 all_ones ∷ []) 10
single-NoneAbove zero e h = ground arith
single-NoneAbove (suc i) e h = absurd (cc h)

get_best_route-outside_example : get_best_route 2 (route 10 all_ones ∷ []) 10 ≡ outside
get_best_route-outside_example =
    get_best_route-outside 2 (route 10 all_ones ∷ []) 10 single-NoneAbove (λ e. cc) (omega arith)
      (omega arith)

-- A route above all others, 9.1.0.0/16 and 10.0.0.0/8 in the order of the comparator: the search
-- for 10.2.3.4 turns away from the route that matches.
abbrev mixed : List RtableEntry
mixed = route all_ones all_ones ∷ route 265 65535 ∷ route 10 255 ∷ []

mixed_missed : (get_best_route 4 mixed 67305994 ≡ found none) × (bit_and 67305994 255 ≡ 10)
unfolding get_best_route
mixed_missed = (refl, refl)

-- A route above 10.1.2.3, then 10.1.0.0/16 and 10.0.0.0/8.
abbrev nested : List RtableEntry
nested = route (2 ^ 23) (2 ^ 24 - 1) ∷ route 266 65535 ∷ route 10 255 ∷ []

-- What is decided for each of the three.
nested_cases {ℓ} :
    (P : ℕ → RtableEntry → Type ℓ)
    → P 0 (route (2 ^ 23) (2 ^ 24 - 1))
    → P 1 (route 266 65535)
    → P 2 (route 10 255)
    → (i : ℕ) (e : RtableEntry) → get_elem? nested i ≡ some e
    → P i e
nested_cases P a b c zero e h = subst (P 0) (cc h) a
nested_cases P a b c (suc zero) e h = subst (P 1) (cc h) b
nested_cases P a b c (suc (suc zero)) e h = subst (P 2) (cc h) c
nested_cases P a b c (suc (suc (suc i))) e h = absurd (cc h)

-- What is decided for each pair.
nested_pairs {ℓ} :
    (P : ℕ → ℕ → RtableEntry → RtableEntry → Type ℓ)
    → let a = route (2 ^ 23) (2 ^ 24 - 1) in
      let b = route 266 65535 in
      let c = route 10 255 in
      (P 0 0 a a × P 0 1 a b × P 0 2 a c)
        × (P 1 0 b a × P 1 1 b b × P 1 2 b c)
        × (P 2 0 c a × P 2 1 c b × P 2 2 c c)
      → (i j : ℕ) (e f : RtableEntry) → get_elem? nested i ≡ some e
      → get_elem? nested j ≡ some f
      → P i j e f
nested_pairs P w i j e f he hf =
    nested_cases (λ i e. P i j e f)
      (nested_cases (λ j f. P 0 j (route (2 ^ 23) (2 ^ 24 - 1)) f) w.0.0 w.0.1 w.0.2 j f hf)
      (nested_cases (λ j f. P 1 j (route 266 65535) f) w.1.0 w.1.1 w.1.2 j f hf)
      (nested_cases (λ j f. P 2 j (route 10 255) f) w.2.0 w.2.1 w.2.2 j f hf) i e he

nested-IsOrdered : IsOrdered nested
unfolding lpm_comparator
nested-IsOrdered = record {
  in_order = λ i j e f he hf.
      nested_pairs (λ i j e f. i < j → NotPositive (lpm_comparator e f))
        (
          ((λ l. absurd (omega (arith, l))), (λ l. tt), (λ l. tt)),
          ((λ l. absurd (omega (arith, l))), (λ l. absurd (omega (arith, l))), (λ l. tt)),
          (
            (λ l. absurd (omega (arith, l))),
            (λ l. absurd (omega (arith, l))),
            (λ l. absurd (omega (arith, l))),
          ),
        )
        i j e f he hf;
  close =
      nested_pairs (λ i j e f. IsClose e.prefix f.prefix × IsClose e.mask f.mask) (ground arith);
  nested =
      nested_pairs (λ i j e f. (bit_and e.mask f.mask ≡ e.mask) ⊎ (bit_and f.mask e.mask ≡ f.mask))
        (
          (inl refl, inr refl, inr refl),
          (inl refl, inl refl, inr refl),
          (inl refl, inl refl, inl refl),
        );
  fits =
      nested_cases (λ i e. (e.prefix < 2 ^ 32) × (e.mask < 2 ^ 32)) (ground arith) (ground arith)
        (ground arith);
}

nested-IsSplit : IsSplit nested 50462986 1 3
nested-IsSplit = record {
  in_order = omega arith;
  in_table = omega arith;
  above =
      nested_cases (λ i e. i < 1 → bit_and 50462986 e.mask < e.prefix) (λ l. omega arith)
        (λ l. absurd (omega (arith, l))) (λ l. absurd (omega (arith, l)));
  matching =
      nested_cases (λ i e. 1 ≤ i → i < 3 → bit_and 50462986 e.mask ≡ e.prefix)
        (λ l u. absurd (omega (arith, l))) (λ l u. refl) (λ l u. refl);
  below =
      nested_cases (λ i e. 3 ≤ i → e.prefix < bit_and 50462986 e.mask)
        (λ l. absurd (omega (arith, l))) (λ l. absurd (omega (arith, l)))
        (λ l. absurd (omega (arith, l)));
}

get_best_route-longest_example :
    (i : ℕ) × (e : RtableEntry) × (get_best_route 4 nested 50462986 ≡ found (some i))
    × (get_elem? nested i ≡ some e)
    × (bit_and 50462986 e.mask ≡ e.prefix)
    × (255 ≤ e.mask)
get_best_route-longest_example =
    get_best_route-longest 4 nested 50462986 1 3 nested-IsOrdered nested-IsSplit (omega arith)
      (omega arith) (omega arith) 2 (route 10 255) refl refl
