-- ===== src/Map.antt =====
-- `HashMap<String, V>`, as a list of entries. The order of the entries stands for the
-- unspecified iteration order of the hash map.
pub mod Laws
use ilink_gateway.Prelude.{◌≡◌, Bool, true, false, Option, none, some, List, [], ◌∷◌, if◌then◌else◌}
use ilink_gateway.Text.{Text, ◌==◌}

abbrev pub Map {ℓ} : Type ℓ → Type ℓ
Map V = List (Text × V)

module _ {ℓ} {V : Type ℓ} where
  -- m.get(k)
  unfoldable pub lookup : Text → Map V → Option V
  lookup k [] = none
  lookup k ((j, v) ∷ m) = if j == k then some v else lookup k m

  -- m.contains_key(k)
  unfoldable pub contains : Text → Map V → Bool
  contains k [] = false
  contains k ((j, v) ∷ m) = if j == k then true else contains k m

  -- m.insert(k, v)
  unfoldable pub insert : Text → V → Map V → Map V
  insert k v [] = (k, v) ∷ []
  insert k v ((j, w) ∷ m) = let rest = insert k v m in if j == k then (j, v) ∷ m else (j, w) ∷ rest

  -- m.remove(k)
  unfoldable pub remove : Text → Map V → Map V
  remove k [] = []
  remove k ((j, w) ∷ m) = let rest = remove k m in if j == k then rest else (j, w) ∷ rest

  -- A write through m.get_mut(k): nothing, if the key is missing.
  unfoldable pub modify : Text → (V → V) → Map V → Map V
  modify k f [] = []
  modify k f ((j, w) ∷ m) =
      let rest = modify k f m in if j == k then (j, f w) ∷ m else (j, w) ∷ rest

  -- m.retain(|_, v| p(v))
  unfoldable pub retain : (V → Bool) → Map V → Map V
  retain p [] = []
  retain p ((j, w) ∷ m) = let rest = retain p m in if p w then (j, w) ∷ rest else rest

  -- m.values()
  unfoldable pub values : Map V → List V
  values [] = []
  values ((j, w) ∷ m) = w ∷ values m

  -- No key stands twice: every map that these operations build.
  abbrev pub Distinct : Map V → Type 0
  Distinct [] = Unit
  Distinct ((j, w) ∷ m) = (contains j m ≡ false) × Distinct m
