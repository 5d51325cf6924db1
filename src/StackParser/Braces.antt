-- ===== src/StackParser/Braces.antt =====
-- How many opening braces a match of variableFillerHelper's patterns leaves.
use newrr.Common.{
  ℕ, zero, suc, ◌+◌, ◌≤◌, ◌≡◌, refl, Bool, true, false, ◌==◌, inl, inr, Bool-cases, [], ◌∷◌, ◌++◌,
  count, count-append, Option, none, some, Text, text, after_prefix, arith,
}
use newrr.StackParser.Variables.{
  Match, Pattern, match_name, match_braces, find_match, char_at, or_later, long_enough, closed_here,
  with_first,
}

-- The opening braces of a text.
abbrev pub opens : Text → ℕ
opens = count (λ c. c == b'{')

abbrev pub IsPlain : Text → Type 0
IsPlain s = opens s ≡ 0

after_prefix-opens : (s p r : Text) → after_prefix s p ≡ some r → opens r + opens p ≤ opens s
unfolding after_prefix
after_prefix-opens s [] r e = ground arith
after_prefix-opens [] (q ∷ p) r e = cc
after_prefix-opens (c ∷ s) (q ∷ p) r e = ground (arith, after_prefix-opens s p r)

closed_here-opens :
    (o : Option Text) (s : Text) (p : Text × Text)
    → ((r : Text) → o ≡ some r → opens r ≤ opens s)
    → closed_here o ≡ some p
    → opens p.1 ≤ opens s
closed_here-opens none s p h e = cc
closed_here-opens (some r) s p h e = ground (arith, h r refl)

with_first-rest :
    (c : ℕ) (o : Option (Text × Text)) (s : Text) (p : Text × Text)
    → ((q : Text × Text) → o ≡ some q → opens q.1 ≤ opens s)
    → with_first c o ≡ some p
    → opens p.1 ≤ opens s
with_first-rest c none s p h e = cc
with_first-rest c (some q) s p h e = ground (arith, h q refl)

match_name-opens :
    (allowed : ℕ → Bool) (s : Text) (p : Text × Text)
    → match_name allowed s ≡ some p
    → opens p.1 ≤ opens s
unfolding match_name
match_name-opens allowed [] p e = cc
match_name-opens allowed (c ∷ s) p e = elim (Bool-cases (allowed c)) [
  | inl a ↦
      omega (
        arith,
        with_first-rest c (match_name allowed s) s p (match_name-opens allowed s) (rw a at e),
      )
  | inr a ↦
      closed_here-opens (after_prefix (c ∷ s) (text "}}")) (c ∷ s) p
        (λ r f. omega (arith, after_prefix-opens (c ∷ s) (text "}}") r f)) (rw a at e)
]

long_enough-same :
    (b : Bool) (o : Option (Text × Text)) (p : Text × Text) → long_enough b o ≡ some p → o ≡ some p
long_enough-same true none p e = e
long_enough-same true (some ([], rest)) p e = cc
long_enough-same true (some (c ∷ name, rest)) p e = e
long_enough-same false o p e = e

match_braces-opens :
    (r : Pattern) (o : Option Text) (s : Text)
    → ((q : Text) → o ≡ some q → opens q + 2 ≤ opens s)
    → (p : Text × Text) → match_braces r o ≡ some p
    → opens p.1 + 2 ≤ opens s
match_braces-opens r none s h p e = cc
match_braces-opens r (some q) s h p e = omega (
  arith,
  h q refl,
  match_name-opens r.allowed q p (long_enough-same r.some_needed (match_name r.allowed q) p e),
)

or_later-opens :
    (c : ℕ) (s : Text) (o : Option (Text × Text)) (l : Option Match) (m : Match)
    → ((p : Text × Text) → o ≡ some p → opens p.1 + 2 ≤ opens (c ∷ s))
    → ((n : Match) → l ≡ some n → opens n.before + opens n.after + 2 ≤ opens s)
    → or_later c o l ≡ some m
    → opens m.before + opens m.after + 2 ≤ opens (c ∷ s)
or_later-opens c s (some p) l m h k e = ground (arith, h p refl)
or_later-opens c s none none m h k e = cc
or_later-opens c s none (some n) m h k e = ground (arith, k n refl)

-- A match takes the two opening braces of its own.
pub find_match-opens :
    (r : Pattern) (s : Text) (m : Match)
    → find_match r s ≡ some m
    → opens m.before + opens m.after + 2 ≤ opens s
unfolding find_match
find_match-opens r [] m e = cc
find_match-opens r (c ∷ s) m e =
    or_later-opens c s (match_braces r (after_prefix (c ∷ s) (text "{{"))) (find_match r s) m
      (match_braces-opens r (after_prefix (c ∷ s) (text "{{")) (c ∷ s)
        (λ q. after_prefix-opens (c ∷ s) (text "{{") q))
      (find_match-opens r s) e

pub char_at-opens : (s : Text) (i : ℕ) → IsPlain s → (char_at s i == b'{') ≡ false
char_at-opens [] i h = refl
char_at-opens (c ∷ s) zero h = ground arith
char_at-opens (c ∷ s) (suc i) h = char_at-opens s i (omega arith)

pub opens-three : (a b c : Text) → opens (a ++ b ++ c) ≡ opens a + opens b + opens c
opens-three a b c =
    omega (arith, count-append (λ d. d == b'{') (a ++ b) c, count-append (λ d. d == b'{') a b)
