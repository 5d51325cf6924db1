-- ===== src/Core/ConsoleTokens.antt =====
-- swiftwave_service/core/console_token.operations.go: the tokens that open a console, for a minute
-- and once. A time is a number of seconds; identifiers, tokens and the time are answers from outside.
pub mod Once
pub mod Examples
use newrr.Common.{
  ℕ, ◌+◌, Bool, ◌&&◌, ltb, if◌then◌else◌, Option, none, some, Text, text_eq, Result, ok, err, Error,
  failure,
}
use Prim.Native.String.{String}
use newrr.Core.Queries.{Query, ◌>>=◌, ◌>>◌, answer, read}
use newrr.Core.Applications.Models.{Application}
use newrr.Core.Applications.Store.{NamedTable}

pub data ConsoleTarget : Type 0 where
  console_target_type_server console_target_type_application : ConsoleTarget

pub record ConsoleToken : Type 0 where
  pub id : Text
  pub target : ConsoleTarget
  pub server_id : Option ℕ
  pub application_id : Option Text
  pub token : Text
  pub expires_at : ℕ

-- if err != nil { return nil, errors.New(text) }
abbrev pub fetched {ℓ} : {A : Type ℓ} → String → Result A → Result A
fetched text (ok a) = ok a
fetched text (err e) = err (failure text)

-- A deferred call, whose error is dropped.
abbrev pub deferred : {D A : Type 0} → D × Result (Unit {0}) → Result A → D × Result A
deferred (d, r) result = (d, result)

-- The records that are made, for a minute.
abbrev pub server_token : Text → Text → ℕ → ℕ → ConsoleToken
server_token uuid random now server = record {
  id = uuid;
  target = console_target_type_server;
  server_id = some server;
  application_id = none;
  token = random;
  expires_at = now + 60;
}

abbrev pub application_token : Text → Text → ℕ → Text → ℕ → ConsoleToken
application_token uuid random now application server = record {
  id = uuid;
  target = console_target_type_application;
  server_id = some server;
  application_id = some application;
  token = random;
  expires_at = now + 60;
}

module _ {D : Type 0} (tokens : NamedTable D ConsoleToken) where
  -- GenerateConsoleTokenForServer; `find_server` gives the ID of the server that is there.
  unfoldable pub generate_console_token_for_server :
      (ℕ → D → Result ℕ) → Text → Text → ℕ → ℕ → Query D ConsoleToken
  generate_console_token_for_server find_server uuid random now server = do
    found ← read (λ d. fetched "failed to fetch server" (find_server server d))
    tokens.create (server_token uuid random now found)
    answer (server_token uuid random now found)

  -- GenerateConsoleTokenForApplication
  unfoldable pub generate_console_token_for_application :
      NamedTable D Application → Text → Text → ℕ → Text → ℕ → Query D ConsoleToken
  unfolding text_eq
  generate_console_token_for_application applications uuid random now application server = do
    found ← read (λ d.
        fetched "failed to fetch application"
          (applications.first (λ x. text_eq x.id application) d))
    tokens.create (application_token uuid random now found.id server)
    answer (application_token uuid random now found.id server)

  abbrev pub unless_expired : ℕ → ConsoleToken → Result ConsoleToken
  unless_expired now x = if ltb x.expires_at now then err (failure "token expired") else ok x

  -- What follows the search: the record is deleted when the function returns.
  abbrev pub used_up : ℕ → D → Result ConsoleToken → D × Result ConsoleToken
  used_up now d (err e) = (d, err e)
  used_up now d (ok x) = deferred (tokens.delete x.id d) (unless_expired now x)

  -- FindConsoleToken
  unfoldable pub find_console_token : ℕ → Text → Text → Query D ConsoleToken
  unfolding text_eq
  find_console_token now id token d =
      used_up now d (tokens.first (λ x. text_eq x.id id && text_eq x.token token) d)
