-- ===== src/Core/Reconcile/Quiet.antt =====
-- A method that reports that no reload is needed has written nothing.
use newrr.Common.{
  Bool, true, false, ◌≡◌, refl, List, [], ◌∷◌, Option, none, some, Map, lookup, remove, Result, ok,
  err, inl, inr, Bool-cases, ◌∙◌,
}
use newrr.Core.Database.{Table}
use newrr.Core.Queries.{Query, after, answer}
use newrr.Core.Reconcile.{Kind, settle, settle_row, add_rows, reconcile}

-- A call that was told whether a reload is needed so far: if it ends with the answer that none is,
-- none was, and the database is as it was.
abbrev pub Silent : {D A : Type 0} → (A → Bool) → Bool → D → D × Result A → Type 0
Silent flag reload d (e, err _) = Unit
Silent flag reload d (e, ok a) = flag a ≡ false → (reload ≡ false) × (e ≡ d)

abbrev pub itself : Bool → Bool
itself b = b

abbrev pub Quiet : {D : Type 0} → (Bool → Query D Bool) → Type 0
Quiet m = (reload : Bool) (d : _) → Silent itself reload d (m reload d)

module _ {D A B : Type 0} (f : A → Bool) (g : B → Bool) where
  pub after-Silent :
      (reload : Bool) (d : D) (z : D × Result A) (m : A → Query D B)
      → Silent f reload d z
      → ((a : A) (e : D) → Silent g (f a) e (m a e))
      → Silent g reload d (after z m)
  after-Silent reload d (e, err c) m s h = tt
  after-Silent reload d (e, ok a) m s h = go (m a e) (h a e)
    where
      go : (z : D × Result B) → Silent g (f a) e z → Silent g reload d z
      go (b, err c) k = tt
      go (b, ok r) k = λ q. let (x, y) = k q in ((s x).0, y ∙ (s x).1)

-- What follows a write says that a reload is needed.
pub after_write-Silent :
    {D A B : Type 0} (g : B → Bool) (reload : Bool) (d : D) (z : D × Result A) (b : B)
    → g b ≡ true
    → Silent g reload d (after z (λ _. answer b))
after_write-Silent g reload d (e, err c) b h = tt
after_write-Silent g reload d (e, ok a) b h = λ q. cc

module _ {D R V : Type 0} (t : Table D R) (k : Kind R V) where
  abbrev flag_of : Map V × Bool → Bool
  flag_of p = p.1

  settle_row-Silent :
      (x : R) (m : Map V) (reload : Bool) (o : Option V) (d : D)
      → Silent flag_of reload d (settle_row t k x m reload o d)
  settle_row-Silent x m reload none d =
      after_write-Silent flag_of reload d (t.delete (t.id_of x) d) (m, true) refl
  settle_row-Silent x m reload (some v) d = elim (Bool-cases (k.same (k.value_of x) v)) [
    | inl y ↦ rw y (λ q. (q, refl))
    | inr y ↦ rw y (
        after_write-Silent flag_of reload d (t.save (k.write v x) d) (remove (k.key_of x) m, true)
          refl)
  ]

  settle-Silent :
      (xs : List R) (m : Map V) (reload : Bool) (d : D)
      → Silent flag_of reload d (settle t k xs m reload d)
  unfolding settle
  settle-Silent [] m reload d = λ q. (q, refl)
  settle-Silent (x ∷ xs) m reload d =
      after-Silent flag_of flag_of reload d (settle_row t k x m reload (lookup (k.key_of x) m) d)
        (λ p. settle t k xs p.0 p.1) (settle_row-Silent x m reload (lookup (k.key_of x) m) d)
        (λ p e. settle-Silent xs p.0 p.1 e)

  add_rows-Silent :
      (m : Map V) (reload : Bool) (d : D) → Silent itself reload d (add_rows t k m reload d)
  unfolding add_rows
  add_rows-Silent [] reload d = λ q. (q, refl)
  add_rows-Silent ((j, v) ∷ m) reload d = go (t.create (k.fresh j v) d) (add_rows-Silent m true)
    where
      told : (z : D × Result Bool) (e : D) → Silent itself true e z → Silent itself reload d z
      told (b, err c) e h = tt
      told (b, ok r) e h = λ q. cc (h q).0

      go :
          (z : D × Result R)
          → ((e : D) → Silent itself true e (add_rows t k m true e))
          → Silent itself reload d (after z (λ _. add_rows t k m true))
      go (e, err c) ih = tt
      go (e, ok x) ih = told (add_rows t k m true e) e (ih e)

  pub reconcile-Quiet : (xs : List R) (m : Map V) → Quiet (reconcile t k xs m)
  unfolding reconcile
  reconcile-Quiet xs m reload d =
      after-Silent flag_of itself reload d (settle t k xs m reload d) (λ p. add_rows t k p.0 p.1)
        (settle-Silent xs m reload d) (λ p e. add_rows-Silent p.0 p.1 e)
