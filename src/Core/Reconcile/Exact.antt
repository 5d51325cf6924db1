-- ===== src/Core/Reconcile/Exact.antt =====
-- The end of `reconcile`: the rows of the application are the wanted ones.
use newrr.Common.{
  arith, Bool, ◌&&◌, not, ◌≡◌, subst, List, Option, none, some, count, Text, text_eq, Map, lookup,
  Result, ok, err, inl, inr, Option-cases,
}
use newrr.Core.Database.{Table, IsTable, how_many}
use newrr.Core.Queries.{after}
use newrr.Core.Queries.Effects.{Ends}
use newrr.Core.Reconcile.{Kind, settle, add_rows, reconcile}
use newrr.Core.Reconcile.Wanted.{HasUniqueKeys, lookup-none, lookup-some, lookup-only}
use newrr.Core.Reconcile.Rows.{IsKind, keyed, differing, Rows}
use newrr.Core.Reconcile.Settled.{Settled, AllSettled, settle-AllSettled, Added, add_rows-Added}

module _ {D R V : Type 0} (t : Table D R) (k : Kind R V) (mine : R → Bool) where
  -- These rows, and no others, are the application's in the database.
  pub record Fetched (xs : List R) (d : D) : Type 0 where
    pub rows : Rows t k mine xs d
    pub all : (p : R → Bool) → how_many t (λ z. mine z && p z) d ≡ count (λ z. mine z && p z) xs

  -- For a key with no wanted value there is no row, and for any other there is one, with that value.
  abbrev pub AsWanted : Text → Option V → D → Type 0
  AsWanted j none e = how_many t (keyed t k mine j) e ≡ 0
  AsWanted j (some v) e =
      (how_many t (keyed t k mine j) e ≡ 1) × (how_many t (differing t k mine j v) e ≡ 0)

  abbrev pub EachAsWanted : Map V → D → Type 0
  EachAsWanted m e = (j : Text) → AsWanted j (lookup j m) e

  module _ (l : IsTable t) (c : IsKind t k mine) where
    abbrev pub Reconciled : Map V → D × Result Bool → Type 0
    Reconciled m = Ends (λ _ e. EachAsWanted m e)

    add_rows-Reconciled :
        (xs : List R) (m n : Map V) (d b : D) (z : D × Result Bool)
        → Fetched xs d
        → HasUniqueKeys m
        → Settled t k mine l c xs m d n b
        → Added t k mine l c n b z
        → Reconciled m z
    add_rows-Reconciled xs m n d b (a, err q) f u s g = tt
    add_rows-Reconciled xs m n d b (a, ok q) f u s g = λ j. elim (Option-cases (lookup j m)) [
      | inl o ↦
          rw o (
            omega
              (arith, g.0 j, s.number j, lookup-none j m o, f.all (λ z. text_eq (k.key_of z) j)))
      | inr (v, o) ↦ rw o (
          let w = s.right j v (lookup-only (λ w. k.same w v) j m v o (u j) (c.same_refl v)) in
          (
            omega (
              arith,
              g.0 j,
              s.number j,
              lookup-some j m v o,
              u j,
              f.all (λ z. text_eq (k.key_of z) j),
            ),
            omega (
              arith,
              g.1 j v,
              w.0,
              w.1,
              f.all (λ z. text_eq (k.key_of z) j && not (k.same (k.value_of z) v)),
            ),
          ))
    ]

    pub reconcile-Reconciled :
        (xs : List R) (m : Map V) (reload : Bool) (d : D)
        → Fetched xs d
        → HasUniqueKeys m
        → Reconciled m (reconcile t k xs m reload d)
    unfolding reconcile
    reconcile-Reconciled xs m reload d f u =
        chain (settle t k xs m reload d) (settle-AllSettled t k mine l c xs m reload d f.rows u)
      where
        chain :
            (z : D × Result (Map V × Bool))
            → AllSettled t k mine l c xs m d z
            → Reconciled m (after z (λ p. add_rows t k p.0 p.1))
        chain (b, err q) s = tt
        chain (b, ok p) s =
            add_rows-Reconciled xs m p.0 d b (add_rows t k p.0 p.1 b) f u s
              (add_rows-Added t k mine l c p.0 p.1 b)

    -- A reconciliation that succeeds leaves the application with the wanted rows.
    pub reconcile-AsWanted :
        (xs : List R) (m : Map V) (reload r : Bool) (d e : D)
        → Fetched xs d
        → HasUniqueKeys m
        → reconcile t k xs m reload d ≡ (e, ok r)
        → (j : Text) → AsWanted j (lookup j m) e
    reconcile-AsWanted xs m reload r d e f u h =
        subst (Reconciled m) h (reconcile-Reconciled xs m reload d f u)
