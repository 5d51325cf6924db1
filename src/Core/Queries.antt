-- ===== src/Core/Queries.antt =====
-- Methods of swiftwave_service/core that go through several calls of the database: an error ends the
-- method, and what was written before it stays written.
pub mod Effects
use newrr.Common.{Bool, true, false, Result, ok, err, Error, failure, List, [], ◌∷◌}
use Prim.Native.String.{String}

abbrev pub Query : Type 0 → Type 0 → Type 0
Query D A = D → D × Result A

module _ {D A B : Type 0} where
  abbrev pub after : D × Result A → (A → Query D B) → D × Result B
  after (d, ok a) f = f a d
  after (d, err e) f = (d, err e)

  infixl 5 ◌>>=◌ ◌>>◌
  abbrev pub ◌>>=◌ : Query D A → (A → Query D B) → Query D B
  ◌>>=◌ m f d = after (m d) f

  abbrev pub ◌>>◌ : Query D A → Query D B → Query D B
  m >> n = m >>= λ _. n

module _ {D A : Type 0} where
  abbrev pub answer : A → Query D A
  answer a d = (d, ok a)

  abbrev pub fail : Error → Query D A
  fail e d = (d, err e)

  -- A call that only reads.
  abbrev pub read : (D → Result A) → Query D A
  read f d = (d, f d)

  -- if err := m; err != nil { ... }
  abbrev pub recover : D × Result A → Query D A → D × Result A
  recover (d, ok a) other = (d, ok a)
  recover (d, err e) other = other d

  abbrev pub on_error : Query D A → Query D A → Query D A
  on_error m other d = recover (m d) other

module _ {D : Type 0} where
  -- if test { return errors.New(...) }
  abbrev pub reject : Bool → String → Query D (Unit {0})
  reject true text d = (d, err (failure text))
  reject false text d = (d, ok tt)

  -- if test { m }
  abbrev pub when : Bool → Query D (Unit {0}) → Query D (Unit {0})
  when true m d = m d
  when false m d = (d, ok tt)

  -- The answer of a call, of which only the error counts.
  abbrev pub checked : {A : Type 0} → Query D A → Query D (Unit {0})
  checked m = m >>= λ _. answer tt
