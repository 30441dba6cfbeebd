-- ===== src/Text/Map.antt =====
-- `HashMap<String, V>` as an association list. A key that is inserted again takes the new value.
use ibis_assistant.Prelude.{◌≡◌, Bool, Option, none, some, List, [], ◌∷◌, arith, if◌then◌else◌}
use ibis_assistant.Text.{Text, text_eq, text_eq_iff}

module _ {V : Type 0} where
  unfoldable pub lookup : Text → List (Text × V) → Option V
  lookup k [] = none
  lookup k ((j, v) ∷ m) = if text_eq j k then some v else lookup k m

  -- the entries whose key passes
  unfoldable pub retain : (Text → Bool) → List (Text × V) → List (Text × V)
  retain p [] = []
  retain p ((j, v) ∷ m) = let rest = retain p m in if p j then (j, v) ∷ rest else rest

  unfoldable pub remove : Text → List (Text × V) → List (Text × V)
  remove k [] = []
  remove k ((j, v) ∷ m) = let rest = remove k m in if text_eq j k then rest else (j, v) ∷ rest

  unfoldable pub insert : Text → V → List (Text × V) → List (Text × V)
  insert k v m = (k, v) ∷ remove k m

  pub lookup-retain :
      (p : Text → Bool) (k : Text) (m : List (Text × V))
      → lookup k (retain p m) ≡ (if p k then lookup k m else none)
  unfolding lookup retain
  lookup-retain p k [] = ground arith
  lookup-retain p k ((j, v) ∷ m) = ground (arith, lookup-retain p k m, text_eq_iff j k)

  pub lookup-remove :
      (k j : Text) (m : List (Text × V))
      → lookup j (remove k m) ≡ (if text_eq k j then none else lookup j m)
  unfolding lookup remove
  lookup-remove k j [] = ground arith
  lookup-remove k j ((i, v) ∷ m) =
      ground (arith, lookup-remove k j m, text_eq_iff i k, text_eq_iff i j, text_eq_iff k j)

  pub lookup-insert :
      (k j : Text) (v : V) (m : List (Text × V))
      → lookup j (insert k v m) ≡ (if text_eq k j then some v else lookup j m)
  unfolding lookup insert
  lookup-insert k j v m = ground (arith, lookup-remove k j m)
