-- ===== src/Core/Database.antt =====
-- The part of gorm that swiftwave_service/core calls. gorm is not under this repository, so a table
-- is a parameter, and IsTable states what the database documents of it.
use newrr.Common.{
  ℕ, ◌+◌, ◌≤◌, Bool, true, false, not, ◌&&◌, ◌==◌, if◌then◌else◌, List, [], ◌∷◌, count, Result, ok,
  err, Error, record_not_found, ◌≡◌,
}

-- A table of rows `R` in a database `D`. A test on rows is a Where clause; `update` sets columns of
-- the row with a primary key, and `create` chooses the primary key of its row.
pub record Table (D R : Type 0) : Type 0 where
  pub rows : D → List R
  pub id_of : R → ℕ
  pub with_id : ℕ → R → R
  pub find : (R → Bool) → D → Result (List R)
  pub first : (R → Bool) → D → Result R
  pub create : R → D → D × Result R
  pub update : ℕ → (R → R) → D → D × Result (Unit {0})
  pub save : R → D → D × Result R
  pub delete : ℕ → D → D × Result (Unit {0})
  pub delete_where : (R → Bool) → D → D × Result (Unit {0})

-- db.Where(...).First(...).RowsAffected > 0, which is false also when the query fails.
abbrev pub found : {R : Type 0} → Result R → Bool
found (ok x) = true
found (err e) = false

abbrev pub is_exist : {D R : Type 0} → Table D R → (R → Bool) → D → Bool
is_exist t p d = found (t.first p d)

module _ {D R : Type 0} (t : Table D R) where
  -- How many rows of the table pass a test.
  abbrev pub how_many : (R → Bool) → D → ℕ
  how_many p d = count p (t.rows d)

  -- The table has the same rows, in whatever order.
  abbrev pub Same : D → D → Type 0
  Same d e = (p : R → Bool) → how_many p e ≡ how_many p d

  abbrev pub Created : R → D → D × Result R → Type 0
  Created x d (e, ok y) =
      (i : ℕ) × (y ≡ t.with_id i x)
      × ((p : R → Bool) → how_many p e ≡ count p (y ∷ []) + how_many p d)
  Created x d (e, err _) = Same d e

  abbrev pub Updated : ℕ → (R → R) → D → D × Result (Unit {0}) → Type 0
  Updated i f d (e, ok _) =
      (p : R → Bool) → how_many p e ≡ how_many (λ x. p (if t.id_of x == i then f x else x)) d
  Updated i f d (e, err _) = Same d e

  abbrev pub Deleted : ℕ → D → D × Result (Unit {0}) → Type 0
  Deleted i d (e, ok _) =
      (p : R → Bool) → how_many p e ≡ how_many (λ x. not (t.id_of x == i) && p x) d
  Deleted i d (e, err _) = Same d e

  -- A row written over the one with its key.
  abbrev pub Saved : R → D → D × Result R → Type 0
  Saved x d (e, ok _) =
      (p : R → Bool) → how_many p e ≡ how_many (λ z. p (if t.id_of z == t.id_of x then x else z)) d
  Saved x d (e, err _) = Same d e

  abbrev pub Purged : (R → Bool) → D → D × Result (Unit {0}) → Type 0
  Purged q d (e, ok _) = (p : R → Bool) → how_many p e ≡ how_many (λ x. not (q x) && p x) d
  Purged q d (e, err _) = Same d e

  abbrev pub First : (R → Bool) → D → Result R → Type 0
  First p d (ok x) = (p x ≡ true) × ((q : R → Bool) → q x ≡ true → 1 ≤ how_many q d)
  First p d (err e) = e ≡ record_not_found → how_many p d ≡ 0

  -- What the database documents of the calls on a table: a failed call leaves the rows alone, and
  -- only the calls' own errors say that there is no such row.
  pub record IsTable : Type 0 where
    pub first-First : (p : R → Bool) (d : D) → First p d (t.first p d)
    pub create-Created : (x : R) (d : D) → Created x d (t.create x d)
    pub update-Updated : (i : ℕ) (f : R → R) (d : D) → Updated i f d (t.update i f d)
    pub delete-Deleted : (i : ℕ) (d : D) → Deleted i d (t.delete i d)
    pub save-Saved :
        (x : R) (d : D) → 1 ≤ how_many (λ z. t.id_of z == t.id_of x) d → Saved x d (t.save x d)
    pub delete_where-Purged : (q : R → Bool) (d : D) → Purged q d (t.delete_where q d)

  -- In this state the database answers every query for a first row.
  abbrev pub Answers : D → Type 0
  Answers d = (p : R → Bool) (e : Error) → t.first p d ≡ err e → e ≡ record_not_found

-- Calls on one table leave another as it is.
pub record Apart {D R S : Type 0} (t : Table D R) (u : Table D S) : Type 0 where
  pub create-apart : (x : R) (d : D) → u.rows (t.create x d).0 ≡ u.rows d
  pub update-apart : (i : ℕ) (f : R → R) (d : D) → u.rows (t.update i f d).0 ≡ u.rows d
  pub save-apart : (x : R) (d : D) → u.rows (t.save x d).0 ≡ u.rows d
  pub delete-apart : (i : ℕ) (d : D) → u.rows (t.delete i d).0 ≡ u.rows d
