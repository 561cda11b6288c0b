-- ===== src/Map/Laws.antt =====
-- What a lookup sees after each operation on a map.
use ilink_gateway.Prelude.{
  suc, ◌≡◌, refl, Bool, true, false, Option, none, some, [], ◌∷◌, arith, if◌then◌else◌, length,
}
use mathlib.Core.Option
use ilink_gateway.Text.{Text, ◌==◌, eq_iff}
use ilink_gateway.Map.{Map, lookup, contains, insert, remove, modify, retain, Distinct}

abbrev pub is_some {ℓ} : {A : Type ℓ} → Option A → Bool
is_some none = false
is_some (some a) = true

abbrev pub filter_option {ℓ} : {A : Type ℓ} → (A → Bool) → Option A → Option A
filter_option p none = none
filter_option p (some a) = if p a then some a else none

module _ {ℓ} {V : Type ℓ} where
  pub contains-eq-is_some : (k : Text) (m : Map V) → contains k m ≡ is_some (lookup k m)
  unfolding contains lookup
  contains-eq-is_some k [] = refl
  contains-eq-is_some k ((j, w) ∷ m) = ground (arith, contains-eq-is_some k m)

  pub lookup-insert :
      (key other : Text) (value : V) (m : Map V)
      → lookup other (insert key value m) ≡ (if key == other then some value else lookup other m)
  unfolding lookup insert
  lookup-insert key other value [] = refl
  lookup-insert key other value ((here, old) ∷ rest) = ground (
    arith,
    lookup-insert key other value rest,
    eq_iff key other,
    eq_iff here key,
    eq_iff here other,
  )

  pub lookup-remove :
      (k j : Text) (m : Map V) → lookup j (remove k m) ≡ (if k == j then none else lookup j m)
  unfolding lookup remove
  lookup-remove k j [] = ground arith
  lookup-remove k j ((i, w) ∷ m) =
      ground (arith, eq_iff k j, eq_iff i k, eq_iff i j, lookup-remove k j m)

  pub lookup-modify :
      (k j : Text) (f : V → V) (m : Map V)
      → lookup j (modify k f m) ≡ (if k == j then Option.map f (lookup j m) else lookup j m)
  unfolding lookup modify
  lookup-modify k j f [] = ground arith
  lookup-modify k j f ((i, w) ∷ m) =
      ground (arith, eq_iff k j, eq_iff i k, eq_iff i j, lookup-modify k j f m)

  lookup-retain_absent :
      (p : V → Bool) (j : Text) (m : Map V) → contains j m ≡ false → lookup j (retain p m) ≡ none
  unfolding lookup retain contains
  lookup-retain_absent p j [] h = refl
  lookup-retain_absent p j ((i, w) ∷ m) h = ground (arith, lookup-retain_absent p j m)

  pub lookup-retain :
      (p : V → Bool) (j : Text) (m : Map V)
      → Distinct m
      → lookup j (retain p m) ≡ filter_option p (lookup j m)
  unfolding lookup retain
  lookup-retain p j [] d = refl
  lookup-retain p j ((i, w) ∷ m) d =
      ground (arith, eq_iff i j, lookup-retain p j m, lookup-retain_absent p j m)

  pub contains-insert :
      (k j : Text) (v : V) (m : Map V)
      → contains j (insert k v m) ≡ (if k == j then true else contains j m)
  contains-insert k j v m =
      ground (
        arith,
        contains-eq-is_some j (insert k v m),
        contains-eq-is_some j m,
        lookup-insert k j v m,
      )

  contains-retain_absent :
      (p : V → Bool) (j : Text) (m : Map V) → contains j m ≡ false → contains j (retain p m) ≡ false
  contains-retain_absent p j m h =
      ground (arith, contains-eq-is_some j (retain p m), lookup-retain_absent p j m)

  contains-remove :
      (k j : Text) (m : Map V) → contains j m ≡ false → contains j (remove k m) ≡ false
  contains-remove k j m h =
      ground
        (arith, contains-eq-is_some j (remove k m), contains-eq-is_some j m, lookup-remove k j m)

  pub contains-modify :
      (k j : Text) (f : V → V) (m : Map V) → contains j (modify k f m) ≡ contains j m
  contains-modify k j f m =
      ground (
        arith,
        contains-eq-is_some j (modify k f m),
        contains-eq-is_some j m,
        lookup-modify k j f m,
      )

  pub insert-Distinct : (k : Text) (v : V) (m : Map V) → Distinct m → Distinct (insert k v m)
  unfolding insert contains
  insert-Distinct k v [] d = (refl, tt)
  insert-Distinct k v ((i, w) ∷ m) d =
      ground (arith, insert-Distinct k v m, contains-insert k i v m, eq_iff i k, eq_iff k i)

  pub remove-Distinct : (k : Text) (m : Map V) → Distinct m → Distinct (remove k m)
  unfolding remove
  remove-Distinct k [] d = tt
  remove-Distinct k ((i, w) ∷ m) d = ground (arith, remove-Distinct k m, contains-remove k i m)

  pub modify-Distinct : (k : Text) (f : V → V) (m : Map V) → Distinct m → Distinct (modify k f m)
  unfolding modify
  modify-Distinct k f [] d = tt
  modify-Distinct k f ((i, w) ∷ m) d =
      ground (arith, modify-Distinct k f m, contains-modify k i f m)

  pub retain-Distinct : (p : V → Bool) (m : Map V) → Distinct m → Distinct (retain p m)
  unfolding retain
  retain-Distinct p [] d = tt
  retain-Distinct p ((i, w) ∷ m) d =
      ground (arith, retain-Distinct p m, contains-retain_absent p i m)

  pub length-insert :
      (k : Text) (v : V) (m : Map V)
      → length (insert k v m) ≡ (if contains k m then length m else suc (length m))
  unfolding insert contains
  length-insert k v [] = refl
  length-insert k v ((i, w) ∷ m) = ground (arith, length-insert k v m)
