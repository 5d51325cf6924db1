-- ===== src/StackParser/Cycles.antt =====
-- A variable whose value refers to itself keeps variableFillerHelper in its last loop.
use newrr.Common.{
  ℕ, zero, suc, ◌≡◌, refl, true, [], ◌∷◌, ◌++◌, append-nil, Option, none, some, Text, text,
  after_prefix, lookup, All,
}
use newrr.StackParser.Variables.{
  match_name, find_match, Filling, random_number_filler, random_character_filler, variable_filler,
  repeat, variable_filler_helper, variable_pattern,
}

-- {{name}}
abbrev pub reference : Text → Text
reference name = b'{' ∷ b'{' ∷ (name ++ b'}' ∷ b'}' ∷ [])

-- The name has no braces.
abbrev pub IsName : Text → Type 0
IsName = All (λ c. variable_pattern.allowed c ≡ true)

match_name-reference :
    (name : Text)
    → IsName name
    → match_name variable_pattern.allowed (name ++ text "}}") ≡ some (name, [])
unfolding match_name after_prefix
match_name-reference [] h = refl
match_name-reference (c ∷ name) h = rw h.0 (rw (match_name-reference name h.1) refl)

find_match-reference :
    (name : Text)
    → IsName name
    → find_match variable_pattern (reference name)
      ≡ some (record { before = []; name = name; after = [] })
unfolding find_match after_prefix
find_match-reference name h = rw (match_name-reference name h) refl

module _ {G : Type 0} (intn : ℕ → G → ℕ × G) where
  repeat-same :
      (filler : Filling G → Option (Filling G)) (x : Filling G)
      → filler x ≡ some x
      → (n : ℕ) → repeat intn n filler x ≡ none
  unfolding repeat
  repeat-same filler x e zero = refl
  repeat-same filler x e (suc n) = rw (repeat, e) (repeat-same filler x e n)

  repeat-done :
      (filler : Filling G → Option (Filling G)) (x : Filling G)
      → filler x ≡ none
      → (n : ℕ) → repeat intn (suc n) filler x ≡ some x
  unfolding repeat
  repeat-done filler x e n = rw (repeat, e) refl

  repeat-zero :
      (filler : Filling G → Option (Filling G)) (x : Filling G) → repeat intn zero filler x ≡ none
  unfolding repeat
  repeat-zero filler x = refl

  variable_filler-reference :
      (name : Text) (x : Filling G)
      → IsName name
      → x.content ≡ reference name
      → lookup name x.mapping ≡ some (reference name)
      → variable_filler intn x ≡ some x
  variable_filler-reference name x h e l =
      rw (variable_filler, e)
        (rw (find_match-reference name h) (rw l (rw (append-nil (reference name)) refl)))

  -- For a text {{name}}, where the mapping gives the name that same text, and which the two loops for
  -- random values leave alone, no number of rounds lets variableFillerHelper return.
  pub variable_filler_helper-endless :
      (name : Text) (x : Filling G)
      → IsName name
      → x.content ≡ reference name
      → lookup name x.mapping ≡ some (reference name)
      → random_number_filler intn x ≡ none
      → random_character_filler intn x ≡ none
      → (n : ℕ) → variable_filler_helper intn n x ≡ none
  unfolding variable_filler_helper mathlib.Core.Option.bind
  variable_filler_helper-endless name x h e l a b zero =
      rw (repeat-zero (random_number_filler intn) x) refl
  variable_filler_helper-endless name x h e l a b (suc n) =
      rw (repeat-done (random_number_filler intn) x a n) (
        rw (repeat-done (random_character_filler intn) x b n)
          (repeat-same (variable_filler intn) x (variable_filler-reference name x h e l) (suc n)))
