-- ===== src/Core/Memory.antt =====
-- A database in memory that meets what Core/Database asks of one, for the examples.
use newrr.Common.{
  arith, ℕ, Bool, true, not, ◌&&◌, ◌==◌, ◌+◌, ◌≤◌, ◌≡◌, refl, subst, sym, List, [], ◌∷◌, count, map,
  select, Result, ok, err, Error, record_not_found, if◌then◌else◌, Bool-cases, inl, inr,
}
use newrr.Core.Database.{Table, IsTable, First, Apart, Answers}

-- The sum of the keys, and so a key that is above them all.
abbrev pub above : {R : Type 0} → (R → ℕ) → List R → ℕ
above id_of [] = 1
above id_of (x ∷ xs) = id_of x + above id_of xs

abbrev pub first_of : {R : Type 0} → (R → Bool) → List R → Result R
first_of p [] = err record_not_found
first_of p (x ∷ xs) = if p x then ok x else first_of p xs

head : (t : Bool) (n : ℕ) → t ≡ true → 1 ≤ (if t then 1 else 0) + n
head t n h = ground arith

module _ {R : Type 0} where
  pub count-map :
      (p : R → Bool) (f : R → R) (xs : List R) → count p (map f xs) ≡ count (λ x. p (f x)) xs
  count-map p f [] = refl
  count-map p f (x ∷ xs) = omega (arith, count-map p f xs)

  pub count-select :
      (p q : R → Bool) (xs : List R) → count p (select q xs) ≡ count (λ x. q x && p x) xs
  count-select p q [] = refl
  count-select p q (x ∷ xs) = ground (arith, count-select p q xs)

  pub first_of-ok :
      (p : R → Bool) (xs : List R) (x : R)
      → first_of p xs ≡ ok x
      → (p x ≡ true) × ((q : R → Bool) → q x ≡ true → 1 ≤ count q xs)
  first_of-ok p [] x h = cc
  first_of-ok p (y ∷ xs) x h = elim (Bool-cases (p y)) [
    | inl t ↦ first_is y x (ok_inj y x (rw t at h)) t
    | inr t ↦ later (first_of-ok p xs x (rw t at h))
  ]
    where
      ok_inj : (a b : R) → ok a ≡ ok b → a ≡ b
      ok_inj a b e = cc

      first_is :
          (a b : R)
          → a ≡ b
          → p a ≡ true
          → (p b ≡ true) × ((q : R → Bool) → q b ≡ true → 1 ≤ count q (a ∷ xs))
      first_is a b e t = (
        subst (λ c. p c ≡ true) e t,
        λ q k. head (q a) (count q xs) (subst (λ c. q c ≡ true) (sym e) k),
      )

      later :
          (p x ≡ true) × ((q : R → Bool) → q x ≡ true → 1 ≤ count q xs)
          → (p x ≡ true) × ((q : R → Bool) → q x ≡ true → 1 ≤ count q (y ∷ xs))
      later (a, b) = (a, λ q k. omega (arith, b q k))

  first_of-err :
      (p : R → Bool) (xs : List R) (e : Error)
      → first_of p xs ≡ err e
      → (e ≡ record_not_found) × (count p xs ≡ 0)
  first_of-err p [] e h = (ground arith, refl)
  first_of-err p (x ∷ xs) e h = elim (Bool-cases (p x)) [
    | inl t ↦ cc (rw t at h)
    | inr t ↦ (let (a, b) = first_of-err p xs e (rw t at h) in (a, ground (arith, b)))
  ]

module _ {D R : Type 0} (rows : D → List R) (put : List R → D → D) (id_of : R → ℕ)
    (with_id : ℕ → R → R) where
  abbrev pub table : Table D R
  table = record {
    rows = rows;
    id_of = id_of;
    with_id = with_id;
    find = λ p d. ok (select p (rows d));
    first = λ p d. first_of p (rows d);
    create = λ x d. let y = with_id (above id_of (rows d)) x in (put (y ∷ rows d) d, ok y);
    update = λ i f d. (put (map (λ x. if id_of x == i then f x else x) (rows d)) d, ok tt);
    save = λ y d. (put (map (λ x. if id_of x == id_of y then y else x) (rows d)) d, ok y);
    delete = λ i d. (put (select (λ x. not (id_of x == i)) (rows d)) d, ok tt);
    delete_where = λ q d. (put (select (λ x. not (q x)) (rows d)) d, ok tt);
  }

  module _ (rows-put : (xs : List R) (d : D) → rows (put xs d) ≡ xs) where
    pub table-Answers : (d : D) → Answers table d
    table-Answers d p e h = (first_of-err p (rows d) e h).0

    first_of-First :
        (p : R → Bool) (d : D) (z : Result R) → first_of p (rows d) ≡ z → First table p d z
    first_of-First p d (ok x) h = first_of-ok p (rows d) x h
    first_of-First p d (err e) h = λ k. (first_of-err p (rows d) e h).1

    pub table-IsTable : IsTable table
    table-IsTable = record {
      first-First = λ p d. first_of-First p d (first_of p (rows d)) refl;
      create-Created = λ x d. (
        above id_of (rows d),
        refl,
        λ p. rw (rows-put (with_id (above id_of (rows d)) x ∷ rows d) d) (omega arith),
      );
      update-Updated = λ i f d p.
          rw (rows-put (map (λ x. if id_of x == i then f x else x) (rows d)) d)
            (count-map p (λ x. if id_of x == i then f x else x) (rows d));
      delete-Deleted = λ i d p.
          rw (rows-put (select (λ x. not (id_of x == i)) (rows d)) d)
            (count-select p (λ x. not (id_of x == i)) (rows d));
      save-Saved = λ x d h p.
          rw (rows-put (map (λ z. if id_of z == id_of x then x else z) (rows d)) d)
            (count-map p (λ z. if id_of z == id_of x then x else z) (rows d));
      delete_where-Purged = λ q d p.
          rw (rows-put (select (λ x. not (q x)) (rows d)) d)
            (count-select p (λ x. not (q x)) (rows d));
    }

-- Tables that are kept in different places.
pub table-Apart :
    {D R S : Type 0} (rows : D → List R) (put : List R → D → D) (id_of : R → ℕ)
    (with_id : ℕ → R → R) (others : D → List S) (put_others : List S → D → D) (other_id : S → ℕ)
    (with_other_id : ℕ → S → S)
    → ((xs : List R) (d : D) → others (put xs d) ≡ others d)
    → Apart (table rows put id_of with_id) (table others put_others other_id with_other_id)
table-Apart rows put id_of with_id others put_others other_id with_other_id h = record {
  create-apart = λ x d. h (with_id (above id_of (rows d)) x ∷ rows d) d;
  update-apart = λ i f d. h (map (λ x. if id_of x == i then f x else x) (rows d)) d;
  save-apart = λ x d. h (map (λ z. if id_of z == id_of x then x else z) (rows d)) d;
  delete-apart = λ i d. h (select (λ x. not (id_of x == i)) (rows d)) d;
}
