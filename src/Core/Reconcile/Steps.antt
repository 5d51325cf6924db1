-- ===== src/Core/Reconcile/Steps.antt =====
-- What a write to one row does to the rows of a table, in numbers of rows that pass a test.
use newrr.Common.{
  arith, Bool, true, false, not, ◌&&◌, ◌==◌, ◌+◌, ◌≤◌, ◌≡◌, refl, Bool-cases, inl, inr,
  count-implies, if◌then◌else◌, List, [], ◌∷◌, count, count-ext, Result, ok, err,
}
use newrr.Core.Database.{Table, how_many, Saved, Deleted}

-- A split of the rows by a test.
pub count-split :
    {R : Type 0} (a p : R → Bool) (xs : List R)
    → count (λ z. a z && p z) xs + count (λ z. not (a z) && p z) xs ≡ count p xs
count-split a p [] = omega arith
count-split a p (x ∷ xs) = ground (arith, count-split a p xs)

count-none : {R : Type 0} (xs : List R) → count (λ z. false) xs ≡ 0
count-none [] = refl
count-none (x ∷ xs) = omega (arith, count-none xs)

module _ {D R : Type 0} (t : Table D R) where
  -- A row of the table, the only one with its key.
  pub record Held (x : R) (d : D) : Type 0 where
    pub present : (q : R → Bool) → q x ≡ true → 1 ≤ how_many t q d
    pub single : how_many t (λ z. t.id_of z == t.id_of x) d ≤ 1

  -- The row `x` gives way to the rows `ys`.
  abbrev pub Swapped : R → List R → D → D → Type 0
  Swapped x ys d e =
      (p : R → Bool) → how_many t p e + count p (x ∷ []) ≡ how_many t p d + count p ys

  -- Among the rows with the key of a held row, a test passes for as many as for that row.
  alone-Held :
      (x : R) (d : D) (p : R → Bool)
      → Held x d
      → how_many t (λ z. t.id_of z == t.id_of x && p z) d ≡ count p (x ∷ [])
  alone-Held x d p h = elim (Bool-cases (p x)) [
    | inl y ↦ rw y (
        omega (
          arith,
          h.present (λ z. t.id_of z == t.id_of x && p z) (ground arith),
          h.single,
          count-implies (λ z. t.id_of z == t.id_of x && p z) (λ z. t.id_of z == t.id_of x)
              (t.rows d) (λ z k. ground arith),
        ))
    | inr y ↦ rw y (
        omega (
          arith,
          h.single,
          h.present (λ z. not (p z) && t.id_of z == t.id_of x) (ground arith),
          count-split p (λ z. t.id_of z == t.id_of x) (t.rows d),
          count-ext (λ z. p z && t.id_of z == t.id_of x) (λ z. t.id_of z == t.id_of x && p z)
              (t.rows d) (λ z. ground arith),
        ))
  ]

  new_row :
      (x n : R) (d : D) (p : R → Bool)
      → Held x d
      → t.id_of n ≡ t.id_of x
      → how_many t (λ z. t.id_of z == t.id_of x && p (if t.id_of z == t.id_of n then n else z)) d
        ≡ count p (n ∷ [])
  new_row x n d p h i = elim (Bool-cases (p n)) [
    | inl y ↦ rw y (
        omega (
          arith,
          h.present (λ z. t.id_of z == t.id_of x) (ground arith),
          h.single,
          count-ext (λ z. t.id_of z == t.id_of x && p (if t.id_of z == t.id_of n then n else z))
              (λ z. t.id_of z == t.id_of x) (t.rows d) (λ z. ground (arith, i, y)),
        ))
    | inr y ↦ rw y (
        omega (
          arith,
          count-none (t.rows d),
          count-ext (λ z. t.id_of z == t.id_of x && p (if t.id_of z == t.id_of n then n else z))
              (λ z. false) (t.rows d) (λ z. ground (arith, i, y)),
        ))
  ]

  pub save-Swapped :
      (x n : R) (d : D) (z : D × Result R)
      → Held x d
      → t.id_of n ≡ t.id_of x
      → Saved t n d z
      → (a : R) × (z.1 ≡ ok a)
      → Swapped x (n ∷ []) d z.0
  save-Swapped x n d (e, err c) h i s (a, k) p = cc
  save-Swapped x n d (e, ok _) h i s k p = omega (
    arith,
    s p,
    count-split (λ z. t.id_of z == t.id_of x) (λ z. p (if t.id_of z == t.id_of n then n else z))
        (t.rows d),
    count-split (λ z. t.id_of z == t.id_of x) p (t.rows d),
    alone-Held x d p h,
    new_row x n d p h i,
    count-ext (λ z. not (t.id_of z == t.id_of x) && p (if t.id_of z == t.id_of n then n else z))
        (λ z. not (t.id_of z == t.id_of x) && p z) (t.rows d) (λ z. ground (arith, i)),
  )

  pub delete-Swapped :
      (x : R) (d : D) (z : D × Result (Unit {0}))
      → Held x d
      → Deleted t (t.id_of x) d z
      → z.1 ≡ ok tt
      → Swapped x [] d z.0
  delete-Swapped x d (e, err c) h s k p = cc
  delete-Swapped x d (e, ok _) h s k p =
      omega (arith, s p, count-split (λ z. t.id_of z == t.id_of x) p (t.rows d), alone-Held x d p h)

  -- A row with another key stays as it is.
  pub swap-Held :
      (x y : R) (ys : List R) (d e : D)
      → Swapped x ys d e
      → ((p : R → Bool)
          → ((z : R) → (t.id_of z == t.id_of x) ≡ true → p z ≡ false)
          → count p ys ≡ 0)
      → (t.id_of y == t.id_of x) ≡ false
      → Held y d
      → Held y e
  swap-Held x y ys d e s a n h = record {
    present = λ q f. ground (
      arith,
      s (λ z. not (t.id_of z == t.id_of x) && q z),
      a (λ z. not (t.id_of z == t.id_of x) && q z) (λ z g. ground arith),
      count-implies (λ z. not (t.id_of z == t.id_of x) && q z) q (t.rows e) (λ z g. ground arith),
      h.present (λ z. not (t.id_of z == t.id_of x) && q z),
    );
    single = ground (
      arith,
      s (λ z. t.id_of z == t.id_of y),
      a (λ z. t.id_of z == t.id_of y) (λ z g. ground arith),
      h.single,
    );
  }
