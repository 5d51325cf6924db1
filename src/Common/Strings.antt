-- ===== src/Common/Strings.antt =====
-- Go's strings as lists of code points, with what the program uses of the package `strings`.
use Prim.Native.Nat.{ℕ}
use Prim.Native.Char.{code}
use Prim.Native.String.{String}
use mathlib.Core.Path.{◌≡◌, refl}
use mathlib.Core.Logic.{◌↔◌}
use mathlib.Core.Bool.{Bool, true, false, ◌&&◌, ◌||◌}
use mathlib.Core.List.{List, [], ◌∷◌, ◌++◌, reverse}
use mathlib.Core.Option
use mathlib.Core.Option.{Option, none, some}
use native.Mathlib.Omega.{arith}
use newrr.Common.Lists.{select}
use newrr.Common.Tests.{◌==◌, leb, if◌then◌else◌}

abbrev pub Text : Type 0
Text = List ℕ

-- A literal of the source.
abbrev pub text : String → Text
text String.[] = []
text (String.◌∷◌ c s) = code c ∷ text s

unfoldable pub text_eq : Text → Text → Bool
text_eq [] [] = true
text_eq [] (d ∷ t) = false
text_eq (c ∷ s) [] = false
text_eq (c ∷ s) (d ∷ t) = c == d && text_eq s t

text_eq_sound : (s t : Text) → text_eq s t ≡ true → s ≡ t
unfolding text_eq
text_eq_sound [] [] h = refl
text_eq_sound [] (d ∷ t) h = cc
text_eq_sound (c ∷ s) [] h = cc
text_eq_sound (c ∷ s) (d ∷ t) h = ground (arith, text_eq_sound s t)

pub text_eq_refl : (s : Text) → text_eq s s ≡ true
unfolding text_eq
text_eq_refl [] = refl
text_eq_refl (c ∷ s) = ground (arith, text_eq_refl s)

pub text_eq_iff : (s t : Text) → (text_eq s t ≡ true) ↔ (s ≡ t)
text_eq_iff s t = (text_eq_sound s t, λ e. ground (arith, e, text_eq_refl s))

-- strings.HasPrefix
unfoldable pub has_prefix : Text → Text → Bool
has_prefix s [] = true
has_prefix [] (p ∷ ps) = false
has_prefix (c ∷ s) (p ∷ ps) = c == p && has_prefix s ps

-- strings.Contains
unfoldable pub contains : Text → Text → Bool
contains [] sub = has_prefix [] sub
contains (c ∷ s) sub = has_prefix (c ∷ s) sub || contains s sub

-- What follows a prefix.
unfoldable pub after_prefix : Text → Text → Option Text
after_prefix s [] = some s
after_prefix [] (p ∷ ps) = none
after_prefix (c ∷ s) (p ∷ ps) = if c == p then after_prefix s ps else none

abbrev pub or_text : Option Text → Text → Text
or_text none s = s
or_text (some t) s = t

-- strings.TrimPrefix and strings.TrimSuffix
unfoldable pub trim_prefix : Text → Text → Text
unfolding after_prefix
trim_prefix s p = or_text (after_prefix s p) s

unfoldable pub trim_suffix : Text → Text → Text
unfolding after_prefix
trim_suffix s p = or_text (Option.map reverse (after_prefix (reverse s) (reverse p))) s

-- unicode.IsSpace
unfoldable pub is_space : ℕ → Bool
is_space c =
    (leb 9 c && leb c 13)
    || c == 32
    || c == 0x85
    || c == 0xa0
    || c == 0x1680
    || (leb 0x2000 c && leb c 0x200a)
    || c == 0x2028
    || c == 0x2029
    || c == 0x202f
    || c == 0x205f
    || c == 0x3000

unfoldable pub trim_left : Text → Text
unfolding is_space
trim_left [] = []
trim_left (c ∷ s) = let rest = trim_left s in if is_space c then rest else c ∷ s

-- strings.TrimSpace
unfoldable pub trim_space : Text → Text
unfolding trim_left
trim_space s = reverse (trim_left (reverse (trim_left s)))

abbrev pub cons_first : ℕ → List Text → List Text
cons_first c [] = (c ∷ []) ∷ []
cons_first c (w ∷ ws) = (c ∷ w) ∷ ws

-- strings.Split at a separator of one character, and at each character that passes a test.
unfoldable pub split_by : (ℕ → Bool) → Text → List Text
split_by p [] = [] ∷ []
split_by p (c ∷ s) = let rest = split_by p s in if p c then [] ∷ rest else cons_first c rest

abbrev pub nonempty : Text → Bool
nonempty [] = false
nonempty (c ∷ s) = true

-- strings.FieldsFunc
unfoldable pub fields : (ℕ → Bool) → Text → List Text
unfolding split_by
fields p s = select nonempty (split_by p s)

-- strings.Join
unfoldable pub join : Text → List Text → Text
join sep [] = []
join sep (w ∷ []) = w
join sep (w ∷ v ∷ ws) = w ++ (sep ++ join sep (v ∷ ws))
