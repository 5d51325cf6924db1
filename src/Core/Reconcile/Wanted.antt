-- ===== src/Core/Reconcile/Wanted.antt =====
-- The maps of wanted values: how often a key stands in one, and with which values.
use newrr.Common.{
  arith, ℕ, Bool, true, not, ◌&&◌, ◌≤◌, ◌≡◌, refl, if◌then◌else◌, [], ◌∷◌, none, some, count, Text,
  text_eq, text_eq_iff, Map, lookup, remove, insert,
}

module _ {V : Type 0} where
  abbrev pub entries : Text → Map V → ℕ
  entries j m = count (λ e. text_eq e.0 j) m

  -- The entries with a key and with a value that a test refuses.
  abbrev pub wrong : (V → Bool) → Text → Map V → ℕ
  wrong p j m = count (λ e. text_eq e.0 j && not (p e.1)) m

  abbrev pub HasUniqueKeys : Map V → Type 0
  HasUniqueKeys m = (j : Text) → entries j m ≤ 1

  pub entries-remove :
      (i j : Text) (m : Map V) → entries j (remove i m) ≡ (if text_eq i j then 0 else entries j m)
  unfolding remove
  entries-remove i j [] = ground arith
  entries-remove i j ((h, v) ∷ m) =
      ground (arith, text_eq_iff h i, text_eq_iff h j, text_eq_iff i j, entries-remove i j m)

  pub remove-HasUniqueKeys : (i : Text) (m : Map V) → HasUniqueKeys m → HasUniqueKeys (remove i m)
  remove-HasUniqueKeys i m u j = ground (arith, entries-remove i j m, u j)

  pub wrong-remove : (p : V → Bool) (i j : Text) (m : Map V) → wrong p j (remove i m) ≤ wrong p j m
  unfolding remove
  wrong-remove p i j [] = omega arith
  wrong-remove p i j ((h, v) ∷ m) = ground (arith, wrong-remove p i j m)

  entries-insert :
      (i j : Text) (v : V) (m : Map V)
      → entries j m ≤ 1
      → entries j (insert i v m) ≡ (if text_eq i j then 1 else entries j m)
  unfolding insert
  entries-insert i j v [] u = ground arith
  entries-insert i j v ((h, w) ∷ m) u =
      ground (arith, text_eq_iff h i, text_eq_iff h j, text_eq_iff i j, entries-insert i j v m)

  pub insert-HasUniqueKeys :
      (i : Text) (v : V) (m : Map V) → HasUniqueKeys m → HasUniqueKeys (insert i v m)
  insert-HasUniqueKeys i v m u j = ground (arith, entries-insert i j v m (u j), u j)

  pub lookup-none : (j : Text) (m : Map V) → lookup j m ≡ none → entries j m ≡ 0
  unfolding lookup
  lookup-none j [] h = refl
  lookup-none j ((i, v) ∷ m) h = ground (arith, lookup-none j m)

  pub lookup-some : (j : Text) (m : Map V) (v : V) → lookup j m ≡ some v → 1 ≤ entries j m
  unfolding lookup
  lookup-some j [] v h = ground arith
  lookup-some j ((i, w) ∷ m) v h = ground (arith, lookup-some j m v)

  pub lookup-right :
      (p : V → Bool) (j : Text) (m : Map V) (v : V)
      → lookup j m ≡ some v
      → wrong p j m ≡ 0
      → p v ≡ true
  unfolding lookup
  lookup-right p j [] v h k = ground arith
  lookup-right p j ((i, w) ∷ m) v h k = ground (arith, lookup-right p j m v)

  pub lookup-only :
      (p : V → Bool) (j : Text) (m : Map V) (v : V)
      → lookup j m ≡ some v
      → entries j m ≤ 1
      → p v ≡ true
      → wrong p j m ≡ 0
  unfolding lookup
  lookup-only p j [] v h u k = ground arith
  lookup-only p j ((i, w) ∷ m) v h u k = ground (arith, lookup-only p j m v, wrong-le p j m)
    where
      wrong-le : (p : V → Bool) (j : Text) (m : Map V) → wrong p j m ≤ entries j m
      wrong-le p j [] = omega arith
      wrong-le p j (e ∷ m) = ground (arith, wrong-le p j m)
