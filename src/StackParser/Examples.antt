-- ===== src/StackParser/Examples.antt =====
-- The filling of variables on concrete texts.
use newrr.Common.{
  ℕ, suc, ◌≡◌, ◌↔◌, ◌⊎◌, refl, true, false, [], ◌∷◌, none, some, Text, text, arith, after_prefix,
  lookup, text_eq, has_prefix,
}
use newrr.StackParser.Variables.{
  Filling, repeat, variable_filler, variable_filler_helper, find_match, match_name, random_from,
}
use newrr.StackParser.Braces.{opens}
use newrr.StackParser.Filling.{Ended, variable_filler_helper-Ended}
use newrr.StackParser.Versions.{clean_up_version, is_current_version_same_or_larger_than_minimum}
use newrr.StackParser.Order.{
  LowerWithin, numbers_of, is_current_version_same_or_larger_than_minimum-LowerWithin,
}
use newrr.StackParser.Cycles.{variable_filler_helper-endless}

-- Intn, as if the answer were the state each time, which counts up.
abbrev counting : ℕ → ℕ → ℕ × ℕ
counting n g = (g, suc g)

abbrev database : Filling ℕ
database = record {
  content = text "{{STACK_NAME}}_db_{{###}}";
  mapping = (text "STACK_NAME", text "shop") ∷ [];
  random = 1;
}

filled :
    variable_filler_helper counting 5 database
    ≡ some (record {
      content = text "shop_db_bcd";
      mapping = (text "STACK_NAME", text "shop") ∷ [];
      random = 4;
    })
unfolding variable_filler_helper repeat find_match match_name after_prefix lookup text_eq
    random_from mathlib.Core.Option.bind
filled = refl

variable_filler_helper-Ended_example :
    Ended counting
      (variable_filler counting)
      (variable_filler_helper counting 5 database)
      (opens database.content)
variable_filler_helper-Ended_example =
    variable_filler_helper-Ended counting 5 database (refl, tt) (omega arith)

-- A variable that is not there keeps the ones behind it from being filled in.
abbrev unknown_first : Filling ℕ
unknown_first = record {
  content = text "{{X}} {{STACK_NAME}}";
  mapping = (text "STACK_NAME", text "shop") ∷ [];
  random = 1;
}

unknown_first_stays : variable_filler_helper counting 5 unknown_first ≡ some unknown_first
unfolding variable_filler_helper repeat find_match match_name after_prefix lookup text_eq has_prefix
    mathlib.Core.Option.bind
unknown_first_stays = refl

abbrev circular : Filling ℕ
circular = record { content = text "{{A}}"; mapping = (text "A", text "{{A}}") ∷ []; random = 1 }

variable_filler_helper-endless_example : variable_filler_helper counting 1_000 circular ≡ none
unfolding find_match match_name after_prefix lookup text_eq
variable_filler_helper-endless_example =
    variable_filler_helper-endless counting (text "A") circular (refl, tt) refl refl refl refl 1_000

abbrev release : Text
release = text "v2.2.10"

abbrev candidate : Text
candidate = text "2.10.0-rc1"

abbrev next : Text
next = text "v3"

is_current_version_same_or_larger_than_minimum-LowerWithin_example :
    (is_current_version_same_or_larger_than_minimum release candidate ≡ true) ↔ (
      (clean_up_version release ≡ clean_up_version candidate)
      ⊎ LowerWithin 3 (numbers_of release) (numbers_of candidate))
unfolding text_eq
is_current_version_same_or_larger_than_minimum-LowerWithin_example =
    is_current_version_same_or_larger_than_minimum-LowerWithin release candidate refl

-- By numbers and not by text, and not the other way round.
ten_above_two :
    (is_current_version_same_or_larger_than_minimum release candidate ≡ true)
    × (is_current_version_same_or_larger_than_minimum candidate release ≡ false)
    × (is_current_version_same_or_larger_than_minimum release next ≡ true)
unfolding is_current_version_same_or_larger_than_minimum
ten_above_two = (refl, refl, refl)

-- Releases with the same three numbers may still be refused.
same_numbers_refused :
    is_current_version_same_or_larger_than_minimum (text "2.2.1") (text "2.2.01") ≡ false
unfolding is_current_version_same_or_larger_than_minimum
same_numbers_refused = refl
