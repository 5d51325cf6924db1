-- ===== src/StackParser/Variables.antt =====
-- The filling of variables of swiftwave_service/stack_parser/utils.go: variableFillerHelper and what
-- it calls. A loop `for { ... if !isUpdated { break } }` runs on fuel, and is `none` when that runs
-- out. The numbers of math/rand are a parameter with its own state.
use newrr.Common.{
  ℕ, zero, suc, Bool, true, false, not, ◌&&◌, ◌==◌, ltb, if◌then◌else◌, [], ◌∷◌, ◌++◌, length,
  Option, none, some, Text, text, has_prefix, Map, lookup, insert, after_prefix,
}
use mathlib.Core.Option

-- A match of a regular expression: the text before, the text between the braces, the text after.
pub record Match : Type 0 where
  pub before : Text
  pub name : Text
  pub after : Text

-- `{{`, characters of a class, `}}`; with `nonempty` there is at least one of them.
pub record Pattern : Type 0 where
  pub allowed : ℕ → Bool
  pub some_needed : Bool

-- {{[^{}]*}}
abbrev pub variable_pattern : Pattern
variable_pattern = record { allowed = λ c. not (c == b'{') && not (c == b'}'); some_needed = false }

-- {{\$+}}
abbrev pub number_pattern : Pattern
number_pattern = record { allowed = λ c. c == b'$'; some_needed = true }

-- {{#+}}
abbrev pub character_pattern : Pattern
character_pattern = record { allowed = λ c. c == b'#'; some_needed = true }

abbrev pub with_first : ℕ → Option (Text × Text) → Option (Text × Text)
with_first c none = none
with_first c (some p) = some (c ∷ p.0, p.1)

abbrev pub closed_here : Option Text → Option (Text × Text)
closed_here none = none
closed_here (some rest) = some ([], rest)

-- Characters of the class up to the closing braces, and what follows those.
unfoldable pub match_name : (ℕ → Bool) → Text → Option (Text × Text)
unfolding after_prefix
match_name allowed [] = none
match_name allowed (c ∷ s) =
    let longer = match_name allowed s in
    if allowed c then with_first c longer else closed_here (after_prefix (c ∷ s) (text "}}"))

abbrev pub long_enough : Bool → Option (Text × Text) → Option (Text × Text)
long_enough true (some ([], rest)) = none
long_enough _ p = p

abbrev pub match_braces : Pattern → Option Text → Option (Text × Text)
match_braces r none = none
match_braces r (some s) = long_enough r.some_needed (match_name r.allowed s)

abbrev pub or_later : ℕ → Option (Text × Text) → Option Match → Option Match
or_later c (some p) later = some (record { before = []; name = p.0; after = p.1 })
or_later c none none = none
or_later c none (some m) = some (record m { before = c ∷ m.before })

-- regex.FindStringIndex: the leftmost match.
unfoldable pub find_match : Pattern → Text → Option Match
unfolding match_name after_prefix
find_match r [] = none
find_match r (c ∷ s) =
    or_later c (match_braces r (after_prefix (c ∷ s) (text "{{"))) (find_match r s)

-- charset[i]; an index out of range panics in Go, and does not occur for the answers of Intn.
abbrev pub char_at : Text → ℕ → ℕ
char_at [] i = 0
char_at (c ∷ s) zero = c
char_at (c ∷ s) (suc i) = char_at s i

-- What a filler works on: the text, the mapping that it reads and extends, the random numbers.
pub record Filling (G : Type 0) : Type 0 where
  pub content : Text
  pub mapping : Map Text
  pub random : G

-- rand.Intn of math/rand
module _ {G : Type 0} (intn : ℕ → G → ℕ × G) where
  unfoldable pub random_from : Text → ℕ → G → Text × G
  random_from charset zero g = ([], g)
  random_from charset (suc n) g =
      let i = intn (length charset) g in
      let rest = random_from charset n i.1 in (char_at charset i.0 ∷ rest.0, rest.1)

  -- generateRandomString and generateRandomNumber
  abbrev pub generate_random_string : ℕ → G → Text × G
  generate_random_string = random_from (text "abcdefghijklmnopqrstuvwxyz")

  abbrev pub generate_random_number : ℕ → G → Text × G
  generate_random_number = random_from (text "0123456789")

  abbrev pub replaced : Match → Filling G → Text × G → Filling G
  replaced m x p = record x { content = m.before ++ p.0 ++ m.after; random = p.1 }

  -- A filler answers `none` where the text was not updated.
  abbrev pub random_number_filler : Filling G → Option (Filling G)
  random_number_filler x = elim (find_match number_pattern x.content) [
    | none ↦ none
    | some m ↦ some (replaced m x (generate_random_number (length m.name) x.random))
  ]

  abbrev pub random_character_filler : Filling G → Option (Filling G)
  random_character_filler x = elim (find_match character_pattern x.content) [
    | none ↦ none
    | some m ↦ some (replaced m x (generate_random_string (length m.name) x.random))
  ]

  -- strings.Compare(variableName[:7], "RANDOM_") == 0, of a longer name
  abbrev pub is_random : Text → Bool
  is_random name = ltb 7 (length name) && has_prefix name (text "RANDOM_")

  abbrev pub remembered : Match → Filling G → Text × G → Filling G
  remembered m x p = record (replaced m x p) { mapping = insert m.name p.0 x.mapping }

  abbrev pub fill_in : Match → Filling G → Option Text → Option (Filling G)
  fill_in m x (some value) = some (replaced m x (value, x.random))
  fill_in m x none =
      if is_random m.name then some (remembered m x (generate_random_string 16 x.random)) else none

  abbrev pub variable_filler : Filling G → Option (Filling G)
  variable_filler x = elim (find_match variable_pattern x.content) [
    | none ↦ none
    | some m ↦ fill_in m x (lookup m.name x.mapping)
  ]

  -- for { output, isUpdated := filler(text); text = output; if !isUpdated { break } }
  unfoldable pub repeat : ℕ → (Filling G → Option (Filling G)) → Filling G → Option (Filling G)
  repeat zero filler x = none
  repeat (suc fuel) filler x = elim (filler x) [ none ↦ some x | some y ↦ repeat fuel filler y ]

  unfoldable pub variable_filler_helper : ℕ → Filling G → Option (Filling G)
  unfolding repeat find_match random_from
  variable_filler_helper fuel x =
      Option.bind (repeat fuel random_number_filler x)
        (λ y. Option.bind (repeat fuel random_character_filler y) (repeat fuel variable_filler))
