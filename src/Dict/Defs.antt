-- ===== src/Dict/Defs.antt =====
-- `std::map<std::string, V>`: the entries in the order of their keys, which is the order of
-- iteration. `find` and `at` are `lookup`, `at(k)` with a method call that changes the value in
-- place is `modify`, and `insert` of a key that is present changes nothing.
use teme_pcom_anul_2_sem.Prelude.{
  List, [], ◌∷◌, Option, none, some, Text, text_discrete, text_lt, ite, if◌then◌else◌, is_some,
}

abbrev pub Dict {ℓ} : Type ℓ → Type ℓ
Dict V = List (Text × V)

module _ {ℓ} {V : Type ℓ} where
  unfoldable pub lookup : Text → Dict V → Option V
  lookup k [] = none
  lookup k ((j, v) ∷ m) = ite (text_discrete j k) (some v) (lookup k m)

  -- Before the first entry with a greater key.
  unfoldable pub place : Text → V → Dict V → Dict V
  place k v [] = (k, v) ∷ []
  place k v ((j, w) ∷ m) = if text_lt k j then (k, v) ∷ (j, w) ∷ m else (j, w) ∷ place k v m

  unfoldable pub insert : Text → V → Dict V → Dict V
  insert k v m = if is_some (lookup k m) then m else place k v m

  unfoldable pub erase : Text → Dict V → Dict V
  erase k [] = []
  erase k ((j, v) ∷ m) = ite (text_discrete j k) (erase k m) ((j, v) ∷ erase k m)

  unfoldable pub modify : Text → (V → V) → Dict V → Dict V
  modify k f [] = []
  modify k f ((j, v) ∷ m) =
      ite (text_discrete j k) ((j, f v) ∷ modify k f m) ((j, v) ∷ modify k f m)
