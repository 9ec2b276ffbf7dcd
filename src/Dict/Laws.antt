-- ===== src/Dict/Laws.antt =====
-- What each operation of the map does to every lookup, and that it keeps the keys in order.
use teme_pcom_anul_2_sem.Prelude.{◌≡◌, refl, [], ◌∷◌, none, some, Text, text_discrete, ite, arith}
use teme_pcom_anul_2_sem.Dict.Defs.{Dict, lookup, place, insert, erase, modify}
use mathlib.Core.Option

module _ {ℓ} {V : Type ℓ} where
  lookup-place :
      (j k : Text) (v : V) (m : Dict V)
      → lookup k m ≡ none
      → lookup j (place k v m) ≡ ite (text_discrete k j) (some v) (lookup j m)
  unfolding lookup place
  lookup-place j k v [] h = refl
  lookup-place j k v ((i, w) ∷ m) h = ground (arith, lookup-place j k v m)

  pub lookup-insert :
      (j k : Text) (v : V) (m : Dict V)
      → lookup k m ≡ none
      → lookup j (insert k v m) ≡ ite (text_discrete k j) (some v) (lookup j m)
  unfolding insert
  lookup-insert j k v m h = ground (arith, lookup-place j k v m h)

  -- `insert` never overwrites.
  pub insert_present : (k : Text) (v w : V) (m : Dict V) → lookup k m ≡ some w → insert k v m ≡ m
  unfolding insert
  insert_present k v w m h = ground arith

  pub lookup-erase :
      (j k : Text) (m : Dict V) → lookup j (erase k m) ≡ ite (text_discrete k j) none (lookup j m)
  unfolding lookup erase
  lookup-erase j k [] = ground arith
  lookup-erase j k ((i, w) ∷ m) = ground (arith, lookup-erase j k m)

  pub lookup-modify :
      (j k : Text) (f : V → V) (m : Dict V)
      → lookup j (modify k f m) ≡ ite (text_discrete k j) (Option.map f (lookup j m)) (lookup j m)
  unfolding lookup modify
  lookup-modify j k f [] = ground arith
  lookup-modify j k f ((i, w) ∷ m) = ground (arith, lookup-modify j k f m)
