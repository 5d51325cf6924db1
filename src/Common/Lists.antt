-- ===== src/Common/Lists.antt =====
-- Lists measured by native numbers, and searches and counts by a Boolean test.
use Prim.Native.Nat.{ℕ, zero, suc, ◌+◌, ◌-◌, ◌≤◌}
use mathlib.Core.Path.{◌≡◌, refl, sym, ap, ◌∙◌}
use mathlib.Core.Bool.{Bool, true, false, ◌||◌}
use mathlib.Core.List.{List, [], ◌∷◌, ◌++◌, map}
use native.Mathlib.Omega.{arith}
use newrr.Common.Tests.{if◌then◌else◌}

module _ {ℓ} {A : Type ℓ} where
  abbrev pub length : List A → ℕ
  length [] = 0
  length (x ∷ xs) = suc (length xs)

  abbrev pub All {κ} : (A → Type κ) → List A → Type κ
  All P [] = Unit
  All P (x ∷ xs) = P x × All P xs

  abbrev pub drop : ℕ → List A → List A
  drop zero xs = xs
  drop (suc n) [] = []
  drop (suc n) (x ∷ xs) = drop n xs

  -- Whether some element passes the test.
  abbrev pub any : (A → Bool) → List A → Bool
  any p [] = false
  any p (x ∷ xs) = p x || any p xs

  -- The elements that pass the test, in order.
  abbrev pub select : (A → Bool) → List A → List A
  select p [] = []
  select p (x ∷ xs) = if p x then x ∷ select p xs else select p xs

  -- How many elements pass the test.
  abbrev pub count : (A → Bool) → List A → ℕ
  count p [] = 0
  count p (x ∷ xs) = (if p x then 1 else 0) + count p xs

module _ {ℓ} {A : Type ℓ} where
  pub length-append : (xs ys : List A) → length (xs ++ ys) ≡ length xs + length ys
  length-append [] ys = omega arith
  length-append (x ∷ xs) ys = omega (arith, length-append xs ys)

  pub count-append : (p : A → Bool) (xs ys : List A) → count p (xs ++ ys) ≡ count p xs + count p ys
  count-append p [] ys = omega arith
  count-append p (x ∷ xs) ys = ground (arith, count-append p xs ys)

  pub All-map {κ} :
      {B : Type κ} (P : B → Type κ) (f : A → B) (xs : List A)
      → All (λ x. P (f x)) xs
      → All P (map f xs)
  All-map P f [] h = tt
  All-map P f (x ∷ xs) h = (h.0, All-map P f xs h.1)

-- The last `n` elements of a list.
abbrev pub newest {ℓ} : {A : Type ℓ} → ℕ → List A → List A
newest n xs = drop (length xs - n) xs

module _ {ℓ} {A : Type ℓ} where
  drop-nil : (n : ℕ) → drop {A = A} n [] ≡ []
  drop-nil zero = refl
  drop-nil (suc n) = refl

  pub drop-append_le :
      (n : ℕ) (xs ys : List A) → n ≤ length xs → drop n (xs ++ ys) ≡ drop n xs ++ ys
  drop-append_le zero xs ys h = refl
  drop-append_le (suc n) [] ys h = absurd (omega arith)
  drop-append_le (suc n) (x ∷ xs) ys h = drop-append_le n xs ys (omega arith)

  pub newest-room : (n : ℕ) (xs : List A) → length xs ≤ n → newest n xs ≡ xs
  newest-room n xs h = let e : length xs - n ≡ 0 = omega arith in rw e refl

  -- A list of `n` elements, with one more behind it, loses its first.
  pub newest-full :
      (n : ℕ) (x y : A) (xs : List A)
      → suc (length xs) ≡ n
      → newest n (x ∷ (xs ++ y ∷ [])) ≡ xs ++ y ∷ []
  newest-full n x y xs h =
      let e : suc (length (xs ++ y ∷ [])) - n ≡ 1 = omega (arith, length-append xs (y ∷ [])) in
      rw e refl

  pub length-drop : (n : ℕ) (xs : List A) → length (drop n xs) ≡ length xs - n
  length-drop zero xs = omega arith
  length-drop (suc n) [] = omega arith
  length-drop (suc n) (x ∷ xs) = omega (arith, length-drop n xs)

  pub length-newest-le : (n : ℕ) (xs : List A) → length (newest n xs) ≤ n
  length-newest-le n xs = omega (arith, length-drop (length xs - n) xs)

  drop-drop : (m n : ℕ) (xs : List A) → drop m (drop n xs) ≡ drop (m + n) xs
  drop-drop m zero xs = let e : m + 0 ≡ m = omega arith in rw e refl
  drop-drop m (suc n) [] = drop-nil m ∙ sym (drop-nil (m + suc n))
  drop-drop m (suc n) (x ∷ xs) =
      let e : m + suc n ≡ suc (m + n) = omega arith in rw e (drop-drop m n xs)

  -- What was dropped before an element came would be dropped after it came.
  pub newest-newest : (n : ℕ) (xs ys : List A) → newest n (newest n xs ++ ys) ≡ newest n (xs ++ ys)
  newest-newest n xs ys =
      let d : ℕ = length xs - n in
      let e = drop-append_le d xs ys (omega arith) in
      let k : length (drop d (xs ++ ys)) - n + d ≡ length (xs ++ ys) - n =
        omega (arith, length-drop d (xs ++ ys), length-append xs ys) in
      rw (← e)
        (drop-drop (length (drop d (xs ++ ys)) - n) d (xs ++ ys) ∙ ap (λ i. drop i (xs ++ ys)) k)

module _ {ℓ} {A : Type ℓ} where
  -- A test that two others cover together.
  pub count-covered :
      (p q r : A → Bool) (xs : List A)
      → ((x : A) → p x ≡ true → (q x || r x) ≡ true)
      → count p xs ≤ count q xs + count r xs
  count-covered p q r [] h = omega arith
  count-covered p q r (x ∷ xs) h = ground (arith, count-covered p q r xs h, h x)

  pub count-ext : (p q : A → Bool) (xs : List A) → ((x : A) → p x ≡ q x) → count p xs ≡ count q xs
  count-ext p q [] h = refl
  count-ext p q (x ∷ xs) h = ground (arith, count-ext p q xs h, h x)

  pub count-implies :
      (p q : A → Bool) (xs : List A) → ((x : A) → p x ≡ true → q x ≡ true) → count p xs ≤ count q xs
  count-implies p q [] h = omega arith
  count-implies p q (x ∷ xs) h = ground (arith, count-implies p q xs h, h x)

pub count-nowhere {ℓ} :
    {R : Type ℓ} (p : R → Bool) (xs : List R) → ((x : R) → p x ≡ false) → count p xs ≡ 0
count-nowhere p [] h = refl
count-nowhere p (x ∷ xs) h = ground (arith, h x, count-nowhere p xs h)
