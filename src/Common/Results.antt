-- ===== src/Common/Results.antt =====
-- Go's pair of a value and an error.
use Prim.Native.String.{String}
use newrr.Common.Strings.{Text}
use mathlib.Core.Path.{◌≡◌, refl}
use mathlib.Core.Bool.{Bool, true, false}
use mathlib.Core.Logic.{◌⊎◌, inl, inr}

-- `errors.New(...)` and `fmt.Errorf(...)`, an error of a library that is passed on with its text, and
-- gorm.ErrRecordNotFound, which callers test for.
pub data Error : Type 0 where
  failure : String → Error
  external : Text → Error
  record_not_found : Error

pub data Result {ℓ} (A : Type ℓ) : Type ℓ where
  ok : A → Result A
  err : Error → Result A

infixl 5 ◌>>=◌ ◌>>◌
abbrev pub ◌>>=◌ {ℓ κ} : {A : Type ℓ} {B : Type κ} → Result A → (A → Result B) → Result B
err e >>= rest = err e
ok a >>= rest = rest a

abbrev pub ◌>>◌ {ℓ} : {B : Type ℓ} → Result (Unit {0}) → Result B → Result B
first >> second = first >>= λ done. second

-- `if test { return errors.New(text) }`
abbrev pub refuse : Bool → String → Result (Unit {0})
refuse true text = err (failure text)
refuse false text = ok tt

pub Result-cases {ℓ} :
    {A : Type ℓ} (r : Result A) → ((a : A) × (r ≡ ok a)) ⊎ ((e : Error) × (r ≡ err e))
Result-cases (ok a) = inl (a, refl)
Result-cases (err e) = inr (e, refl)

-- What a chain that succeeds has passed.
pub then-ok {ℓ} :
    {B : Type ℓ} (m : Result (Unit {0})) (k : Result B) (b : B)
    → (m >> k) ≡ ok b
    → (m ≡ ok tt) × (k ≡ ok b)
then-ok (ok _) k b h = (refl, h)
then-ok (err e) k b h = cc

pub refuse-ok :
    (test : Bool) (text : String) (u : Unit {0}) → refuse test text ≡ ok u → test ≡ false
refuse-ok true text u h = cc
refuse-ok false text u h = refl
