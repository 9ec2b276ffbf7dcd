-- ===== src/Dict/Order.antt =====
-- The entries stay in the order of their keys, so each key stands in the map once.
use teme_pcom_anul_2_sem.Prelude.{
  ◌≡◌, ◌≢◌, refl, [], ◌∷◌, true, false, none, some, Text, text_lt, arith, ap, ap₂,
}
use teme_pcom_anul_2_sem.Dict.Defs.{Dict, lookup, place, insert, erase, modify}

text_lt_irrefl : (a : Text) → text_lt a a ≡ false
text_lt_irrefl [] = refl
text_lt_irrefl (x ∷ a) = ground (arith, text_lt_irrefl a)

text_lt_trans : (a b c : Text) → text_lt a b ≡ true → text_lt b c ≡ true → text_lt a c ≡ true
text_lt_trans a b [] h k = cc
text_lt_trans a [] (z ∷ c) h k = cc
text_lt_trans [] (y ∷ b) (z ∷ c) h k = refl
text_lt_trans (x ∷ a) (y ∷ b) (z ∷ c) h k = ground (arith, text_lt_trans a b c)

text_lt_connex : (a b : Text) → text_lt a b ≡ false → a ≢ b → text_lt b a ≡ true
text_lt_connex [] [] h d = absurd (d refl)
text_lt_connex (x ∷ a) [] h d = refl
text_lt_connex [] (y ∷ b) h d = cc
text_lt_connex (x ∷ a) (y ∷ b) h d =
    ground (arith, text_lt_connex a b, λ (p : x ≡ y) (q : a ≡ b). d (ap₂ ◌∷◌ p q))

module _ {ℓ} {V : Type ℓ} where
  -- Every key of the map is greater.
  abbrev pub IsAbove : Text → Dict V → Type 0
  IsAbove k [] = Unit
  IsAbove k ((j, v) ∷ m) = (text_lt k j ≡ true) × IsAbove k m

  abbrev pub IsOrdered : Dict V → Type 0
  IsOrdered [] = Unit
  IsOrdered ((k, v) ∷ m) = IsAbove k m × IsOrdered m

module _ {ℓ} {V : Type ℓ} where
  IsAbove-trans : (j k : Text) (m : Dict V) → text_lt j k ≡ true → IsAbove k m → IsAbove j m
  IsAbove-trans j k [] h a = tt
  IsAbove-trans j k ((i, v) ∷ m) h a = (text_lt_trans j k i h a.0, IsAbove-trans j k m h a.1)

  pub IsAbove-lookup : (k : Text) (m : Dict V) → IsAbove k m → lookup k m ≡ none
  unfolding lookup
  IsAbove-lookup k [] a = refl
  IsAbove-lookup k ((j, v) ∷ m) a =
      ground (arith, IsAbove-lookup k m, text_lt_irrefl k, ap (λ (i : Text). text_lt k i))

  IsAbove-place :
      (j k : Text) (v : V) (m : Dict V) → text_lt j k ≡ true → IsAbove j m → IsAbove j (place k v m)
  unfolding place
  IsAbove-place j k v [] h a = (h, tt)
  IsAbove-place j k v ((i, w) ∷ m) h a = ground (arith, IsAbove-place j k v m)

  place-IsOrdered :
      (k : Text) (v : V) (m : Dict V) → lookup k m ≡ none → IsOrdered m → IsOrdered (place k v m)
  unfolding place lookup
  place-IsOrdered k v [] h o = (tt, tt)
  place-IsOrdered k v ((j, w) ∷ m) h o =
      ground (
        arith,
        IsAbove-trans k j m,
        IsAbove-place j k v m,
        place-IsOrdered k v m,
        text_lt_connex k j,
      )

  pub insert-IsOrdered : (k : Text) (v : V) (m : Dict V) → IsOrdered m → IsOrdered (insert k v m)
  unfolding insert
  insert-IsOrdered k v m o = ground (arith, place-IsOrdered k v m)

  IsAbove-erase : (j k : Text) (m : Dict V) → IsAbove j m → IsAbove j (erase k m)
  unfolding erase
  IsAbove-erase j k [] a = tt
  IsAbove-erase j k ((i, w) ∷ m) a = ground (arith, IsAbove-erase j k m)

  pub erase-IsOrdered : (k : Text) (m : Dict V) → IsOrdered m → IsOrdered (erase k m)
  unfolding erase
  erase-IsOrdered k [] o = tt
  erase-IsOrdered k ((j, w) ∷ m) o = ground (arith, IsAbove-erase j k m, erase-IsOrdered k m)

  IsAbove-modify : (j k : Text) (f : V → V) (m : Dict V) → IsAbove j m → IsAbove j (modify k f m)
  unfolding modify
  IsAbove-modify j k f [] a = tt
  IsAbove-modify j k f ((i, w) ∷ m) a = ground (arith, IsAbove-modify j k f m)

  pub modify-IsOrdered :
      (k : Text) (f : V → V) (m : Dict V) → IsOrdered m → IsOrdered (modify k f m)
  unfolding modify
  modify-IsOrdered k f [] o = tt
  modify-IsOrdered k f ((j, w) ∷ m) o =
      ground (arith, IsAbove-modify j k f m, modify-IsOrdered k f m)

  -- The first key of an ordered map is not found behind it.
  pub lookup_behind : (j k : Text) (m : Dict V) {v : V} → IsAbove j m → lookup k m ≡ some v → j ≢ k
  lookup_behind j k m a h e = cc (IsAbove-lookup j m a, ap (λ i. lookup i m) e)
