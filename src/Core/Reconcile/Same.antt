-- ===== src/Core/Reconcile/Same.antt =====
-- What is known of the rows of an application stays true where the table has the same rows.
use newrr.Common.{
  arith, Bool, ◌≡◌, ◌∙◌, ap, ◌&&◌, ◌==◌, not, List, [], ◌∷◌, Text, text_eq, Map, lookup, Option,
  none, some, count,
}
use newrr.Core.Database.{Table, how_many}
use newrr.Core.Reconcile.{Kind}
use newrr.Core.Reconcile.Steps.{Held}
use newrr.Core.Reconcile.Rows.{Rows}
use newrr.Core.Reconcile.Exact.{Fetched, AsWanted, EachAsWanted}

-- The application's rows, when the rows of the table are as they were.
module _ {D R V : Type 0} (t : Table D R) (k : Kind R V) (mine : R → Bool) (d e : D)
    (same : t.rows e ≡ t.rows d) where
  same-number : (p : R → Bool) → how_many t p e ≡ how_many t p d
  same-number p = ap (count p) same

  same-Held : (x : R) → Held t x d → Held t x e
  same-Held x h = record {
    present = λ q f. omega (arith, same-number q, h.present q f);
    single = omega (arith, same-number (λ z. t.id_of z == t.id_of x), h.single);
  }

  same-Rows : (xs : List R) → Rows t k mine xs d → Rows t k mine xs e
  same-Rows [] r = tt
  same-Rows (x ∷ xs) r = (same-Held x r.0, r.1, r.2, same-Rows xs r.3)

  pub same-Fetched : (xs : List R) → Fetched t k mine xs d → Fetched t k mine xs e
  same-Fetched xs f = record {
    rows = same-Rows xs f.rows;
    all = λ p. same-number (λ z. mine z && p z) ∙ f.all p;
  }

  same-AsWanted : (j : Text) (o : Option V) → AsWanted t k mine j o d → AsWanted t k mine j o e
  same-AsWanted j none h = omega (arith, same-number (λ z. mine z && text_eq (k.key_of z) j))
  same-AsWanted j (some v) h = (
    omega (arith, same-number (λ z. mine z && text_eq (k.key_of z) j), h.0),
    omega (
      arith,
      same-number (λ z. mine z && (text_eq (k.key_of z) j && not (k.same (k.value_of z) v))),
      h.1,
    ),
  )

  pub same-EachAsWanted : (m : Map V) → EachAsWanted t k mine m d → EachAsWanted t k mine m e
  same-EachAsWanted m h j = same-AsWanted j (lookup j m) (h j)
