-- ===== src/Storage/Dict.antt =====
-- A Go map with text keys, as an association list. Where Go ranges over a map, the list is read from
-- its head.
use titip.Prelude.{◌≡◌, refl, Option, none, some, List, [], ◌∷◌, if◌then◌else◌, arith}
use titip.Text.{Text, ◌==ₜ◌, ==ₜ_iff}

abbrev pub Dict {ℓ} : Type ℓ → Type ℓ
Dict V = List (Text × V)

module _ {ℓ} {V : Type ℓ} where
  unfoldable pub lookup : Text → Dict V → Option V
  lookup k [] = none
  lookup k ((j, v) ∷ d) = let rest = lookup k d in if j ==ₜ k then some v else rest

  unfoldable pub insert : Text → V → Dict V → Dict V
  insert k v [] = (k, v) ∷ []
  insert k v ((j, w) ∷ d) = let rest = insert k v d in if j ==ₜ k then (k, v) ∷ d else (j, w) ∷ rest

  unfoldable pub remove : Text → Dict V → Dict V
  remove k [] = []
  remove k ((j, v) ∷ d) = let rest = remove k d in if j ==ₜ k then rest else (j, v) ∷ rest

  pub lookup-insert :
      (j k : Text) (v : V) (d : Dict V)
      → lookup j (insert k v d) ≡ (if k ==ₜ j then some v else lookup j d)
  unfolding lookup insert
  lookup-insert j k v [] = refl
  lookup-insert j k v ((i, w) ∷ d) =
      ground (arith, ==ₜ_iff k j, ==ₜ_iff i k, ==ₜ_iff i j, lookup-insert j k v d)

  pub lookup-remove :
      (j k : Text) (d : Dict V) → lookup j (remove k d) ≡ (if k ==ₜ j then none else lookup j d)
  unfolding lookup remove
  lookup-remove j k [] = ground arith
  lookup-remove j k ((i, w) ∷ d) =
      ground (arith, ==ₜ_iff k j, ==ₜ_iff i k, ==ₜ_iff i j, lookup-remove j k d)
