-- ===== src/Core/Reconcile.antt =====
-- How Update of swiftwave_service/core/application.operations.go brings the environment variables,
-- the config mounts and the volume bindings of an application in line with a map of wanted ones: the
-- three parts of the code differ only in the rows.
pub mod Steps
pub mod Wanted
pub mod Rows
pub mod Settled
pub mod Exact
pub mod Same
pub mod Quiet
use newrr.Common.{
  ℕ, Bool, true, false, not, if◌then◌else◌, List, [], ◌∷◌, Option, none, some, Text, Map, lookup,
  remove, Result, ok, err,
}
use newrr.Core.Database.{Table}
use newrr.Core.Queries.{Query, ◌>>=◌, ◌>>◌, answer, checked}

-- Rows `R` with a key and a value `V`: `write` is the row with another value, as its Update saves it,
-- and `fresh` the row that is created for a new key.
pub record Kind (R V : Type 0) : Type 0 where
  pub key_of : R → Text
  pub value_of : R → V
  pub same : V → V → Bool
  pub write : V → R → R
  pub fresh : Text → V → R

module _ {D R V : Type 0} (t : Table D R) (k : Kind R V) where
  -- One existing row: whether the application has to be reloaded, and the map of what is left.
  abbrev pub settle_row : R → Map V → Bool → Option V → Query D (Map V × Bool)
  settle_row x m reload none = t.delete (t.id_of x) >> answer (m, true)
  settle_row x m reload (some v) =
      if k.same (k.value_of x) v
      then answer (remove (k.key_of x) m, reload)
      else t.save (k.write v x) >> answer (remove (k.key_of x) m, true)

  unfoldable pub settle : List R → Map V → Bool → Query D (Map V × Bool)
  settle [] m reload = answer (m, reload)
  settle (x ∷ xs) m reload =
      settle_row x m reload (lookup (k.key_of x) m) >>= λ p. settle xs p.0 p.1

  -- The rows for the keys that are left.
  unfoldable pub add_rows : Map V → Bool → Query D Bool
  add_rows [] reload = answer reload
  add_rows ((j, v) ∷ m) reload = t.create (k.fresh j v) >> add_rows m true

  unfoldable pub reconcile : List R → Map V → Bool → Query D Bool
  reconcile xs m reload = settle xs m reload >>= λ p. add_rows p.0 p.1
