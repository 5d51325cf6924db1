-- ===== src/Common/Maps.antt =====
-- Go's maps with string keys, as association lists. The order in which Go walks a map is
-- unspecified; here it is the order of the list.
use mathlib.Core.Path.{◌≡◌, refl, subst}
use mathlib.Core.List.{List, [], ◌∷◌}
use mathlib.Core.Option.{Option, none, some}
use native.Mathlib.Omega.{arith}
use mathlib.Core.Logic.{inl, inr}
use mathlib.Core.Option
use newrr.Common.Tests.{if◌then◌else◌, Bool-cases}
use newrr.Common.Strings.{Text, text_eq, text_eq_iff, text_eq_refl}

abbrev pub Map {ℓ} : Type ℓ → Type ℓ
Map V = List (Text × V)

module _ {ℓ} {V : Type ℓ} where
  unfoldable pub lookup : Text → Map V → Option V
  lookup k [] = none
  lookup k ((j, v) ∷ m) = if text_eq j k then some v else lookup k m

  -- delete(m, k)
  unfoldable pub remove : Text → Map V → Map V
  remove k [] = []
  remove k ((j, v) ∷ m) = let rest = remove k m in if text_eq j k then rest else (j, v) ∷ rest

  -- m[k] = v
  unfoldable pub insert : Text → V → Map V → Map V
  insert k v [] = (k, v) ∷ []
  insert k v ((j, w) ∷ m) = if text_eq j k then (k, v) ∷ m else (j, w) ∷ insert k v m

  pub lookup-insert :
      (k j : Text) (v : V) (m : Map V)
      → lookup j (insert k v m) ≡ (if text_eq k j then some v else lookup j m)
  unfolding lookup insert
  lookup-insert k j v [] = refl
  lookup-insert k j v ((i, w) ∷ m) =
      ground (arith, text_eq_iff k j, text_eq_iff i k, text_eq_iff i j, lookup-insert k j v m)

  pub lookup-remove :
      (k j : Text) (m : Map V) → lookup j (remove k m) ≡ (if text_eq k j then none else lookup j m)
  unfolding lookup remove
  lookup-remove k j [] = ground arith
  lookup-remove k j ((i, w) ∷ m) =
      ground (arith, text_eq_iff i k, text_eq_iff i j, text_eq_iff k j, lookup-remove k j m)

module _ {ℓ} {V : Type ℓ} where
  pub remove-insert_self : (k : Text) (v : V) (m : Map V) → remove k (insert k v m) ≡ remove k m
  unfolding remove insert
  remove-insert_self k v [] = rw (text_eq_refl k) refl
  remove-insert_self k v ((j, w) ∷ m) = ground (arith, text_eq_refl k, remove-insert_self k v m)

  pub insert-insert_self :
      (k : Text) (v w : V) (m : Map V) → insert k v (insert k w m) ≡ insert k v m
  unfolding insert
  insert-insert_self k v w [] = rw (text_eq_refl k) refl
  insert-insert_self k v w ((j, u) ∷ m) = ground (arith, text_eq_refl k, insert-insert_self k v w m)

module _ {ℓ κ} {V : Type ℓ} where
  -- Every value of the map satisfies `P`.
  abbrev pub Each : (V → Type κ) → Map V → Type κ
  Each P [] = Unit
  Each P ((k, v) ∷ m) = P v × Each P m

module _ {ℓ κ} {V : Type ℓ} (P : V → Type κ) where
  pub Each-insert : (k : Text) (v : V) (m : Map V) → P v → Each P m → Each P (insert k v m)
  unfolding insert
  Each-insert k v [] p h = (p, tt)
  Each-insert k v ((j, w) ∷ m) p h = elim (Bool-cases (text_eq j k)) [
    | inl e ↦ rw e (p, h.1)
    | inr e ↦ rw e (h.0, Each-insert k v m p h.1)
  ]

  pub Each-remove : (k : Text) (m : Map V) → Each P m → Each P (remove k m)
  unfolding remove
  Each-remove k [] h = tt
  Each-remove k ((j, w) ∷ m) h = elim (Bool-cases (text_eq j k)) [
    | inl e ↦ rw e (Each-remove k m h.1)
    | inr e ↦ rw e (h.0, Each-remove k m h.1)
  ]

  pub Each-lookup : (k : Text) (m : Map V) {v : V} → lookup k m ≡ some v → Each P m → P v
  unfolding lookup
  Each-lookup k [] e h = cc
  Each-lookup k ((j, w) ∷ m) {v} e h = elim (Bool-cases (text_eq j k)) [
    | inl hit ↦ subst P (ground arith) h.0
    | inr miss ↦ Each-lookup k m (rw miss at e) h.1
  ]

module _ {ℓ κ} {V : Type ℓ} {W : Type κ} where
  abbrev pub map_values : (V → W) → Map V → Map W
  map_values f [] = []
  map_values f ((k, v) ∷ m) = (k, f v) ∷ map_values f m

  pub lookup-map_values :
      (f : V → W) (k : Text) (m : Map V) → lookup k (map_values f m) ≡ Option.map f (lookup k m)
  unfolding lookup
  lookup-map_values f k [] = refl
  lookup-map_values f k ((j, v) ∷ m) = elim (Bool-cases (text_eq j k)) [
    | inl e ↦ rw e refl
    | inr e ↦ rw e (lookup-map_values f k m)
  ]

  pub Each-map_values {ν} :
      (P : V → Type ν) (Q : W → Type ν) (f : V → W)
      → ((v : V) → P v → Q (f v))
      → (m : Map V) → Each P m
      → Each Q (map_values f m)
  Each-map_values P Q f h [] e = tt
  Each-map_values P Q f h ((k, v) ∷ m) e = (h v e.0, Each-map_values P Q f h m e.1)
