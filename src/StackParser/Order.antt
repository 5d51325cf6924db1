-- ===== src/StackParser/Order.antt =====
-- Which versions isCurrentVersionSameOrLargerThanMinimum of swiftwave_service/stack_parser/utils.go
-- accepts.
use newrr.Common.{
  ℕ, zero, suc, ◌<◌, ◌≡◌, ◌↔◌, refl, Bool, true, false, ◌||◌, ltb, if◌then◌else◌, List, [], ◌∷◌,
  ◌++◌, map, length, Text, text, text_eq, text_eq_iff, Bool-cases, inl, inr, ◌⊎◌, arith,
}
use newrr.StackParser.Versions.{
  clean_up_version, atoi, compare_parts, parts, is_current_version_same_or_larger_than_minimum,
}

-- A version that is not compared: a build from the development branch.
abbrev pub is_development : Text → Bool
is_development v = text_eq v (text "develop") || text_eq v (text "")

-- What follows the numbers that two versions share: the minimum has no more, or its next one is
-- below the next one of the current version.
pub data Lower : List ℕ → List ℕ → Type 0 where
  shorter : (cs : List ℕ) → Lower [] cs
  smaller : (m c : ℕ) (ms cs : List ℕ) → m < c → Lower (m ∷ ms) (c ∷ cs)

-- The minimum is lower within so many numbers.
pub record LowerWithin (n : ℕ) (minimum current : List ℕ) : Type 0 where
  pub shared : List ℕ
  pub rest_of_minimum : List ℕ
  pub rest_of_current : List ℕ
  pub few : length shared < n
  pub in_minimum : minimum ≡ shared ++ rest_of_minimum
  pub in_current : current ≡ shared ++ rest_of_current
  pub lower : Lower rest_of_minimum rest_of_current

abbrev pub numbers : List Text → List ℕ
numbers xs = map atoi xs

-- One round of the loop: by two numbers, or else by what follows.
abbrev round : ℕ → ℕ → Bool → Bool
round x y rest = if ltb x y then true else if ltb y x then false else rest

round-cases : (x y : ℕ) (p : Bool) → round x y p ≡ true → (x < y) ⊎ ((x ≡ y) × (p ≡ true))
round-cases x y p h = ground arith

round-below : (x y : ℕ) (p : Bool) → x < y → round x y p ≡ true
round-below x y p h = ground arith

round-same : (x y : ℕ) (p : Bool) → x ≡ y → p ≡ true → round x y p ≡ true
round-same x y p e h = ground arith

one_more :
    (n x y : ℕ) (ms cs : List ℕ)
    → x ≡ y
    → LowerWithin n ms cs
    → LowerWithin (suc n) (x ∷ ms) (y ∷ cs)
one_more n x y ms cs e w = record {
  shared = y ∷ w.shared;
  rest_of_minimum = w.rest_of_minimum;
  rest_of_current = w.rest_of_current;
  few = omega (arith, w.few);
  in_minimum = rw (e, ← w.in_minimum) refl;
  in_current = rw (← w.in_current) refl;
  lower = w.lower;
}

compare_parts-LowerWithin :
    (n : ℕ) (ms cs : List Text)
    → compare_parts n ms cs ≡ true
    → LowerWithin n (numbers ms) (numbers cs)
unfolding compare_parts
compare_parts-LowerWithin zero ms cs h = absurd (ground arith)
compare_parts-LowerWithin (suc n) [] cs h = record {
  shared = [];
  rest_of_minimum = [];
  rest_of_current = numbers cs;
  few = omega arith;
  in_minimum = refl;
  in_current = refl;
  lower = shorter (numbers cs);
}
compare_parts-LowerWithin (suc n) (m ∷ ms) [] h = absurd (ground arith)
compare_parts-LowerWithin (suc n) (m ∷ ms) (c ∷ cs) h =
    elim (round-cases (atoi m) (atoi c) (compare_parts n ms cs) h) [
      | inl l ↦ record {
        shared = [];
        rest_of_minimum = numbers (m ∷ ms);
        rest_of_current = numbers (c ∷ cs);
        few = omega arith;
        in_minimum = refl;
        in_current = refl;
        lower = smaller (atoi m) (atoi c) (numbers ms) (numbers cs) l;
      }
      | inr e ↦
          one_more n (atoi m) (atoi c) (numbers ms) (numbers cs) e.0
            (compare_parts-LowerWithin n ms cs e.1)
    ]

Lower-compare_parts :
    (n : ℕ) (ms cs : List Text) (xs ys : List ℕ)
    → numbers ms ≡ xs
    → numbers cs ≡ ys
    → Lower xs ys
    → compare_parts (suc n) ms cs ≡ true
unfolding compare_parts
Lower-compare_parts n [] cs xs ys a b l = refl
Lower-compare_parts n (m ∷ ms) cs _ _ a b (shorter ys) = absurd (ground arith)
Lower-compare_parts n (m ∷ ms) [] _ _ a b (smaller x y xs ys l) = absurd (ground arith)
Lower-compare_parts n (m ∷ ms) (c ∷ cs) _ _ a b (smaller x y xs ys l) =
    round-below (atoi m) (atoi c) (compare_parts n ms cs) (ground (arith, a, b, l))

shared-compare_parts :
    (n : ℕ) (ms cs : List Text) (shared xs ys : List ℕ)
    → length shared < n
    → numbers ms ≡ shared ++ xs
    → numbers cs ≡ shared ++ ys
    → Lower xs ys
    → compare_parts n ms cs ≡ true
unfolding compare_parts
shared-compare_parts zero ms cs shared xs ys h a b l = absurd (omega (arith, h))
shared-compare_parts (suc n) ms cs [] xs ys h a b l = Lower-compare_parts n ms cs xs ys a b l
shared-compare_parts (suc n) [] cs (s ∷ shared) xs ys h a b l = refl
shared-compare_parts (suc n) (m ∷ ms) [] (s ∷ shared) xs ys h a b l = absurd (ground arith)
shared-compare_parts (suc n) (m ∷ ms) (c ∷ cs) (s ∷ shared) xs ys h a b l =
    round-same (atoi m) (atoi c) (compare_parts n ms cs) (ground (arith, a, b)) (
      shared-compare_parts n ms cs shared xs ys (omega (arith, h)) (ground (arith, a))
        (ground (arith, b)) l)

compare_parts_iff :
    (n : ℕ) (ms cs : List Text)
    → (compare_parts n ms cs ≡ true) ↔ LowerWithin n (numbers ms) (numbers cs)
compare_parts_iff n ms cs = (
  compare_parts-LowerWithin n ms cs,
  λ w.
      shared-compare_parts n ms cs w.shared w.rest_of_minimum w.rest_of_current w.few w.in_minimum
        w.in_current w.lower,
)

-- The numbers of a version.
abbrev pub numbers_of : Text → List ℕ
numbers_of v = numbers (parts (clean_up_version v))

-- A release, that is a current version other than "" and "develop", is accepted exactly if it is the
-- minimum, both cleaned up, or if the minimum is lower within its first three numbers: after numbers
-- that are the same it has none where a number is asked for, or one below that of the release.
pub is_current_version_same_or_larger_than_minimum-LowerWithin :
    (u v : Text)
    → is_development v ≡ false
    → (is_current_version_same_or_larger_than_minimum u v ≡ true)
      ↔ ((clean_up_version u ≡ clean_up_version v) ⊎ LowerWithin 3 (numbers_of u) (numbers_of v))
unfolding is_current_version_same_or_larger_than_minimum
is_current_version_same_or_larger_than_minimum-LowerWithin u v d =
    let i = text_eq_iff (clean_up_version u) (clean_up_version v) in
    let w = compare_parts_iff 3 (parts (clean_up_version u)) (parts (clean_up_version v)) in
    elim (Bool-cases (text_eq (clean_up_version u) (clean_up_version v))) [
      | inl e ↦ (λ h. inl (i.0 e), λ h. rw (d, e) refl)
      | inr e ↦ (
        λ h. inr (w.0 (rw (d, e) at h)),
        λ h. elim h [ inl s ↦ absurd (ground (arith, i.1 s, e)) | inr l ↦ rw (d, e) (w.1 l) ],
      )
    ]
