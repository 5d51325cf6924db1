-- ===== src/Core/ConsoleTokens/Examples.antt =====
-- A table of tokens in memory.
use newrr.Common.{◌≡◌, refl, List, [], ◌∷◌, text, text_eq, ok, err, failure}
use newrr.Core.Memory.{first_of-ok}
use newrr.Core.Applications.Store.{NamedTable}
use newrr.Core.Applications.Memory.{named_table, named_table-IsNamedTable}
use newrr.Core.ConsoleTokens.{
  ConsoleToken, server_token, generate_console_token_for_server, find_console_token,
}
use newrr.Core.ConsoleTokens.Once.{IsTokenTable, Answered, find_console_token-once}

abbrev tokens : NamedTable (List ConsoleToken) ConsoleToken
tokens = named_table (λ d. d) (λ xs d. xs) (λ x. x.id)

tokens-IsTokenTable : IsTokenTable tokens
tokens-IsTokenTable = record {
  named = named_table-IsNamedTable (λ d. d) (λ xs d. xs) (λ x. x.id) (λ xs d. refl);
  key = λ x. refl;
  first-there = λ p d x h. let f = first_of-ok p d x h in f.1 p f.0;
}

abbrev made : ConsoleToken
made = server_token (text "t1") (text "secret") 100 7

generated :
    generate_console_token_for_server tokens (λ i d. ok i) (text "t1") (text "secret") 100 7 []
    ≡ (made ∷ [], ok made)
unfolding generate_console_token_for_server
generated = refl

used : find_console_token tokens 150 (text "t1") (text "secret") (made ∷ []) ≡ ([], ok made)
unfolding find_console_token text_eq
used = refl

expired :
    find_console_token tokens 161 (text "t1") (text "secret") (made ∷ [])
    ≡ ([], err (failure "token expired"))
unfolding find_console_token text_eq
expired = refl

find_console_token-once_example :
    Answered tokens 150 (text "t1") (text "secret") made
    × (¬ (find_console_token tokens 151 (text "t1") (text "secret") [] ≡ ([], ok made)))
unfolding text_eq
find_console_token-once_example =
    find_console_token-once tokens tokens-IsTokenTable 150 151 (text "t1") (text "secret")
      (text "secret") (made ∷ []) [] [] made made refl used
