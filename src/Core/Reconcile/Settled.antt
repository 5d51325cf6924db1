-- ===== src/Core/Reconcile/Settled.antt =====
-- What `settle` leaves of the existing rows of an application, and of the map of wanted values.
use newrr.Common.{
  arith, ℕ, Bool, true, ◌+◌, ◌≡◌, List, [], ◌∷◌, count, Text, Map, lookup, Result, ok, err,
}
use newrr.Core.Database.{Table, IsTable, how_many, Created}
use newrr.Core.Queries.{after}
use newrr.Core.Reconcile.{Kind, settle, settle_row, add_rows}
use newrr.Core.Reconcile.Wanted.{entries, wrong, HasUniqueKeys}
use newrr.Core.Reconcile.Rows.{
  IsKind, keyed, differing, ApartFrom, Rows, Step, Stepped, settle_row-Stepped,
}

module _ {D R V : Type 0} (t : Table D R) (k : Kind R V) (mine : R → Bool) (l : IsTable t)
    (c : IsKind t k mine) where
  Step-Rows :
      (x : R) (m n : Map V) (d e : D) (ys : List R)
      → Step t k mine x m d n e
      → ApartFrom t k mine x ys
      → Rows t k mine ys d
      → Rows t k mine ys e
  Step-Rows x m n d e [] s a r = tt
  Step-Rows x m n d e (y ∷ ys) s a r =
      (s.others y a.0 r.0, r.1, r.2, Step-Rows x m n d e ys s a.1 r.3)

  -- All the rows of a list are settled.
  pub record Settled (xs : List R) (m : Map V) (d : D) (n : Map V) (e : D) : Type 0 where
    pub number :
        (j : Text)
        → how_many t (keyed t k mine j) e + count (keyed t k mine j) xs + entries j n
          ≡ how_many t (keyed t k mine j) d + entries j m
    pub right :
        (j : Text) (v : V)
        → wrong (λ w. k.same w v) j m ≡ 0
        → (wrong (λ w. k.same w v) j n ≡ 0)
          × (how_many t (differing t k mine j v) e + count (differing t k mine j v) xs
              ≡ how_many t (differing t k mine j v) d)

  abbrev pub AllSettled : List R → Map V → D → D × Result (Map V × Bool) → Type 0
  AllSettled xs m d (e, ok p) = Settled xs m d p.0 e
  AllSettled xs m d (e, err _) = Unit

  join-AllSettled :
      (x : R) (xs : List R) (m n : Map V) (d e : D) (z : D × Result (Map V × Bool))
      → Step t k mine x m d n e
      → AllSettled xs n e z
      → AllSettled (x ∷ xs) m d z
  join-AllSettled x xs m n d e (b, err f) s a = tt
  join-AllSettled x xs m n d e (b, ok p) s a = record {
    number = λ j. omega (arith, s.number j, a.number j);
    right = λ j v w.
        let w' : wrong (λ q. k.same q v) j n ≡ 0 = omega (arith, s.less_wrong j v) in
        ((a.right j v w').0, omega (arith, s.right j v w, (a.right j v w').1));
  }

  pub settle-AllSettled :
      (xs : List R) (m : Map V) (reload : Bool) (d : D)
      → Rows t k mine xs d
      → HasUniqueKeys m
      → AllSettled xs m d (settle t k xs m reload d)
  unfolding settle
  settle-AllSettled [] m reload d r u = record {
    number = λ j. omega arith;
    right = λ j v w. (w, omega arith);
  }
  settle-AllSettled (x ∷ xs) m reload d r u =
      chain (settle_row t k x m reload (lookup (k.key_of x) m) d)
        (settle_row-Stepped t k mine l c x m reload d r.0 r.1 u) (settle-AllSettled xs)
    where
      chain :
          (z : D × Result (Map V × Bool))
          → Stepped t k mine l c x m d z
          → ((n : Map V) (reload : Bool) (e : D)
              → Rows t k mine xs e
              → HasUniqueKeys n
              → AllSettled xs n e (settle t k xs n reload e))
          → AllSettled (x ∷ xs) m d (after z (λ p. settle t k xs p.0 p.1))
      chain (e, err f) s ih = tt
      chain (e, ok p) s ih =
          join-AllSettled x xs m p.0 d e (settle t k xs p.0 p.1 e) s
            (ih p.0 p.1 e (Step-Rows x m p.0 d e xs s r.2 r.3) s.unique)

  -- The rows that are created for what is left of the map.
  abbrev pub Added : Map V → D → D × Result Bool → Type 0
  Added m d (e, ok _) =
      ((j : Text) → how_many t (keyed t k mine j) e ≡ how_many t (keyed t k mine j) d + entries j m)
      × ((j : Text) (v : V)
          → how_many t (differing t k mine j v) e
            ≡ how_many t (differing t k mine j v) d + wrong (λ w. k.same w v) j m)
  Added m d (e, err _) = Unit

  pub add_rows-Added : (m : Map V) (reload : Bool) (d : D) → Added m d (add_rows t k m reload d)
  unfolding add_rows
  add_rows-Added [] reload d = (λ j. omega arith, λ j v. omega arith)
  add_rows-Added ((i, w) ∷ m) reload d =
      chain (t.create (k.fresh i w) d) (l.create-Created (k.fresh i w) d) (add_rows-Added m true)
    where
      join :
          (x : R) (e : D) (z : D × Result Bool)
          → ((a : ℕ) × (x ≡ t.with_id a (k.fresh i w)))
          → ((p : R → Bool) → how_many t p e ≡ count p (x ∷ []) + how_many t p d)
          → Added m e z
          → Added ((i, w) ∷ m) d z
      join x e (b, err f) g h a = tt
      join x e (b, ok r) (n, g) h a = (
        λ j. ground (arith, a.0 j, h (keyed t k mine j), g, c.fresh-key n i w, c.fresh-mine n i w),
        λ j v. ground (
          arith,
          a.1 j v,
          h (differing t k mine j v),
          g,
          c.fresh-key n i w,
          c.fresh-mine n i w,
          c.fresh-value n i w,
        ),
      )

      chain :
          (z : D × Result R)
          → Created t (k.fresh i w) d z
          → ((e : D) → Added m e (add_rows t k m true e))
          → Added ((i, w) ∷ m) d (after z (λ _. add_rows t k m true))
      chain (e, err f) s ih = tt
      chain (e, ok x) (n, g, h) ih = join x e (add_rows t k m true e) (n, g) h (ih e)
