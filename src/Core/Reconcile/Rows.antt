-- ===== src/Core/Reconcile/Rows.antt =====
-- One existing row of an application, as `settle_row` deals with it.
use newrr.Common.{
  arith, ℕ, Bool, true, false, not, ◌&&◌, ◌==◌, ◌+◌, ◌≤◌, ◌≡◌, refl, inl, inr, List, [], ◌∷◌, none,
  some, count, Text, text_eq, text_eq_iff, Map, lookup, remove, Bool-cases, Option-cases, Result,
  ok, err,
}
use newrr.Core.Database.{Table, IsTable, how_many}
use newrr.Core.Queries.{after, answer}
use newrr.Core.Reconcile.{Kind, settle_row}
use newrr.Core.Reconcile.Steps.{Held, swap-Held, save-Swapped, delete-Swapped}
use newrr.Core.Reconcile.Wanted.{
  entries, wrong, HasUniqueKeys, entries-remove, remove-HasUniqueKeys, wrong-remove, lookup-some,
  lookup-right,
}

-- The rows of one application, what their keys and values are, and which writes keep them.
pub record IsKind {D R V : Type 0} (t : Table D R) (k : Kind R V) (mine : R → Bool) : Type 0 where
  pub same_sound : (v w : V) → k.same v w ≡ true → v ≡ w
  pub same_refl : (v : V) → k.same v v ≡ true
  pub write-id : (v : V) (x : R) → t.id_of (k.write v x) ≡ t.id_of x
  pub write-key : (v : V) (x : R) → k.key_of (k.write v x) ≡ k.key_of x
  pub write-value : (v : V) (x : R) → k.value_of (k.write v x) ≡ v
  pub write-mine : (v : V) (x : R) → mine (k.write v x) ≡ mine x
  pub fresh-key : (i : ℕ) (j : Text) (v : V) → k.key_of (t.with_id i (k.fresh j v)) ≡ j
  pub fresh-value : (i : ℕ) (j : Text) (v : V) → k.value_of (t.with_id i (k.fresh j v)) ≡ v
  pub fresh-mine : (i : ℕ) (j : Text) (v : V) → mine (t.with_id i (k.fresh j v)) ≡ true

module _ {D R V : Type 0} (t : Table D R) (k : Kind R V) (mine : R → Bool) where
  -- The rows of the application with a key, and those of them with another value.
  abbrev pub keyed : Text → R → Bool
  keyed j x = mine x && text_eq (k.key_of x) j

  abbrev pub differing : Text → V → R → Bool
  differing j v x = mine x && (text_eq (k.key_of x) j && not (k.same (k.value_of x) v))

  -- No other row of the list has the key of this one.
  abbrev pub ApartFrom : R → List R → Type 0
  ApartFrom x [] = Unit
  ApartFrom x (y ∷ ys) = ((t.id_of y == t.id_of x) ≡ false) × ApartFrom x ys

  -- Rows of the application that stand in the table, each alone with its key.
  abbrev pub Rows : List R → D → Type 0
  Rows [] d = Unit
  Rows (x ∷ xs) d = Held t x d × (mine x ≡ true) × ApartFrom x xs × Rows xs d

  -- One row is settled.
  pub record Step (x : R) (m : Map V) (d : D) (n : Map V) (e : D) : Type 0 where
    pub others : (y : R) → (t.id_of y == t.id_of x) ≡ false → Held t y d → Held t y e
    pub unique : HasUniqueKeys n
    pub number :
        (j : Text)
        → how_many t (keyed j) e + count (keyed j) (x ∷ []) + entries j n
          ≡ how_many t (keyed j) d + entries j m
    pub less_wrong : (j : Text) (v : V) → wrong (λ w. k.same w v) j n ≤ wrong (λ w. k.same w v) j m
    pub right :
        (j : Text) (v : V)
        → wrong (λ w. k.same w v) j m ≡ 0
        → how_many t (differing j v) e + count (differing j v) (x ∷ [])
          ≡ how_many t (differing j v) d

  module _ (l : IsTable t) (c : IsKind t k mine) where
    deleted_step :
        (x : R) (m : Map V) (d : D)
        → Held t x d
        → HasUniqueKeys m
        → lookup (k.key_of x) m ≡ none
        → (t.delete (t.id_of x) d).1 ≡ ok tt
        → Step x m d m (t.delete (t.id_of x) d).0
    deleted_step x m d h u o y =
        let s =
          delete-Swapped t x d (t.delete (t.id_of x) d) h (l.delete-Deleted (t.id_of x) d) y in
        record {
          others = λ z n g. swap-Held t x z [] d (t.delete (t.id_of x) d).0 s (λ p a. refl) n g;
          unique = u;
          number = λ j. omega (arith, s (keyed j));
          less_wrong = λ j v. omega arith;
          right = λ j v w. omega (arith, s (differing j v));
        }

    kept_step :
        (x : R) (m : Map V) (d : D) (v : V)
        → mine x ≡ true
        → HasUniqueKeys m
        → lookup (k.key_of x) m ≡ some v
        → k.same (k.value_of x) v ≡ true
        → Step x m d (remove (k.key_of x) m) d
    kept_step x m d v i u o y = record {
      others = λ z n g. g;
      unique = remove-HasUniqueKeys (k.key_of x) m u;
      number = λ j. ground (
        arith,
        entries-remove (k.key_of x) j m,
        text_eq_iff (k.key_of x) j,
        lookup-some (k.key_of x) m v,
        u (k.key_of x),
      );
      less_wrong = λ j w. wrong-remove (λ a. k.same a w) (k.key_of x) j m;
      right = λ j w a. ground (
        arith,
        text_eq_iff (k.key_of x) j,
        lookup-right (λ b. k.same b w) (k.key_of x) m v o,
        c.same_sound (k.value_of x) v y,
      );
    }

    written_step :
        (x : R) (m : Map V) (d : D) (v : V)
        → Held t x d
        → mine x ≡ true
        → HasUniqueKeys m
        → lookup (k.key_of x) m ≡ some v
        → ((a : R) × ((t.save (k.write v x) d).1 ≡ ok a))
        → Step x m d (remove (k.key_of x) m) (t.save (k.write v x) d).0
    written_step x m d v h i u o y =
        let s =
          save-Swapped t x (k.write v x) d (t.save (k.write v x) d) h (c.write-id v x)
            (l.save-Saved (k.write v x) d (
              h.present (λ z. t.id_of z == t.id_of (k.write v x)) (ground (arith, c.write-id v x))))
            y in
        record {
          others = λ z n g.
              swap-Held t x z (k.write v x ∷ []) d (t.save (k.write v x) d).0 s
                (λ p a. ground (arith, a (k.write v x), c.write-id v x)) n g;
          unique = remove-HasUniqueKeys (k.key_of x) m u;
          number = λ j. ground (
            arith,
            s (keyed j),
            c.write-key v x,
            c.write-mine v x,
            entries-remove (k.key_of x) j m,
            text_eq_iff (k.key_of x) j,
            lookup-some (k.key_of x) m v,
            u (k.key_of x),
          );
          less_wrong = λ j w. wrong-remove (λ a. k.same a w) (k.key_of x) j m;
          right = λ j w a. ground (
            arith,
            s (differing j w),
            c.write-key v x,
            c.write-value v x,
            text_eq_iff (k.key_of x) j,
            lookup-right (λ b. k.same b w) (k.key_of x) m v o,
          );
        }

    -- What a call of settle_row has done if it succeeds.
    abbrev pub Stepped : R → Map V → D → D × Result (Map V × Bool) → Type 0
    Stepped x m d (e, ok p) = Step x m d p.0 e
    Stepped x m d (e, err _) = Unit

    written-Stepped :
        {A : Type 0} (x : R) (m n : Map V) (reload : Bool) (d : D) (z : D × Result A)
        → ((a : A) → z.1 ≡ ok a → Step x m d n z.0)
        → Stepped x m d (after z (λ _. answer (n, reload)))
    written-Stepped x m n reload d (e, ok a) h = h a refl
    written-Stepped x m n reload d (e, err f) h = tt

    pub settle_row-Stepped :
        (x : R) (m : Map V) (reload : Bool) (d : D)
        → Held t x d
        → mine x ≡ true
        → HasUniqueKeys m
        → Stepped x m d (settle_row t k x m reload (lookup (k.key_of x) m) d)
    settle_row-Stepped x m reload d h i u = elim (Option-cases (lookup (k.key_of x) m)) [
      | inl o ↦ rw o (
          written-Stepped x m m true d (t.delete (t.id_of x) d) (λ a y. deleted_step x m d h u o y))
      | inr (v, o) ↦ rw o (elim (Bool-cases (k.same (k.value_of x) v)) [
        | inl y ↦ rw y (kept_step x m d v i u o y)
        | inr y ↦ rw y (
            written-Stepped x m (remove (k.key_of x) m) true d (t.save (k.write v x) d)
              (λ a g. written_step x m d v h i u o (a, g)))
      ])
    ]
