-- ===== src/StackParser/Versions.antt =====
-- The comparison of versions of swiftwave_service/stack_parser/utils.go:
-- isCurrentVersionSameOrLargerThanMinimum and cleanUpVersion.
use newrr.Common.{
  ℕ, zero, suc, ◌+◌, ◌-◌, ◌*◌, ◌^◌, Bool, true, false, ◌&&◌, ◌||◌, ◌==◌, ltb, leb, if◌then◌else◌,
  List, [], ◌∷◌, Text, text, text_eq, trim_space, trim_prefix, split_by,
}

abbrev pub first_part : List Text → Text → Text
first_part [] version = version
first_part (part ∷ parts) version = part

-- cleanUpVersion
unfoldable pub clean_up_version : Text → Text
unfolding trim_space trim_prefix split_by
clean_up_version version =
    let trimmed = trim_prefix (trim_space version) (text "v") in
    first_part (split_by (λ c. c == b'-') trimmed) trimmed

abbrev pub is_digit : ℕ → Bool
is_digit c = leb b'0' c && leb c b'9'

abbrev pub clamped : ℕ → ℕ
clamped n = if ltb n (2 ^ 63) then n else 2 ^ 63 - 1

-- The digits of strconv.ParseUint, which stops at the first number beyond 64 bits.
unfoldable pub parse_uint : ℕ → Text → ℕ
parse_uint n [] = n
parse_uint n (c ∷ s) =
    let rest = parse_uint (n * 10 + (c - b'0')) s in
    if is_digit c then (if ltb (n * 10 + (c - b'0')) (2 ^ 64) then rest else 2 ^ 64 - 1) else 0

abbrev pub after_sign : Text → Text
after_sign [] = []
after_sign (c ∷ s) = if c == b'+' then s else c ∷ s

-- What strconv.Atoi returns beside its error, which the code drops: 0 for what is no number, the
-- largest int for what is too large. A part of a cleaned version has no minus sign.
unfoldable pub atoi : Text → ℕ
unfolding parse_uint
atoi s = clamped (parse_uint 0 (after_sign s))

-- The loop over i < 3; the number counts the rounds that are left.
unfoldable pub compare_parts : ℕ → List Text → List Text → Bool
unfolding atoi
compare_parts zero min_parts current_parts = false
compare_parts (suc i) [] current_parts = true
compare_parts (suc i) (m ∷ ms) [] = false
compare_parts (suc i) (m ∷ ms) (c ∷ cs) =
    let rest = compare_parts i ms cs in
    if ltb (atoi m) (atoi c) then true else if ltb (atoi c) (atoi m) then false else rest

-- strings.Split(version, ".")
abbrev pub parts : Text → List Text
parts = split_by (λ c. c == b'.')

-- isCurrentVersionSameOrLargerThanMinimum
unfoldable pub is_current_version_same_or_larger_than_minimum : Text → Text → Bool
unfolding clean_up_version compare_parts split_by text_eq
is_current_version_same_or_larger_than_minimum minimum_version current_version =
    let m = clean_up_version minimum_version in
    let c = clean_up_version current_version in
    if text_eq current_version (text "develop") || text_eq current_version (text "")
    then true
    else if text_eq m c
    then true
    else compare_parts 3 (parts m) (parts c)
