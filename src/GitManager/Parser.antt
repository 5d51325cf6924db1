-- ===== src/GitManager/Parser.antt =====
-- git_manager/parser.go. A URL is a list of code points. The three regular expressions are written
-- out as matchers: `.` is any character but a newline, and `.+` takes at least one.
pub mod Pieces
pub mod Printed
pub mod RoundTrip
pub mod Examples
use newrr.Common.{
  ℕ, Bool, true, false, ◌&&◌, ◌||◌, not, List, [], ◌∷◌, ◌++◌, Result, ok, err, failure, Error, Text,
  text, ◌==◌, has_prefix, contains, after_prefix, trim_prefix, trim_suffix, trim_space, split_by,
  fields, join, if◌then◌else◌, Option, none, some, text_eq, ◌≡◌, refl,
}

pub record GitRepoInfo : Type 0 where
  pub is_parsed : Bool
  pub provider : Text
  pub owner : Text
  pub name : Text
  pub endpoint : Text
  pub ssh_user : Text
  pub is_ssh_endpoint : Bool

abbrev pub unknown_parse_error : Error
unknown_parse_error = failure "unknown parse error"

abbrev pub invalid_git_url_error : Error
invalid_git_url_error = failure "invalid git url"

-- `.`
abbrev pub dot : ℕ → Bool
dot c = not (c == b'\n')

-- `.*$`
unfoldable pub all_dots : Text → Bool
all_dots [] = true
all_dots (c ∷ s) = dot c && all_dots s

-- `.+$`
unfoldable pub some_dots : Text → Bool
unfolding all_dots
some_dots [] = false
some_dots (c ∷ s) = dot c && all_dots s

-- `.*c`, and then the rest of the expression.
unfoldable pub then_char : ℕ → (Text → Bool) → Text → Bool
then_char c rest [] = false
then_char c rest (x ∷ s) = (x == c && rest s) || (dot x && then_char c rest s)

-- `.+c`, and then the rest of the expression.
unfoldable pub some_then : ℕ → (Text → Bool) → Text → Bool
unfolding then_char
some_then c rest [] = false
some_then c rest (x ∷ s) = dot x && then_char c rest s

abbrev pub match_after : (Text → Bool) → Option Text → Bool
match_after rest none = false
match_after rest (some s) = rest s

-- isValidSSHGitUrlV1: ^.+@.+\:.+\/.+$
unfoldable pub is_valid_ssh_git_url_v1 : Text → Bool
unfolding some_then some_dots
is_valid_ssh_git_url_v1 = some_then b'@' (some_then b':' (some_then b'/' some_dots))

-- isValidSSHGitUrlV2: ^ssh:\/\/.+@.+\/.+$
unfoldable pub is_valid_ssh_git_url_v2 : Text → Bool
unfolding some_then some_dots after_prefix
is_valid_ssh_git_url_v2 s =
    match_after (some_then b'@' (some_then b'/' some_dots)) (after_prefix s (text "ssh://"))

-- isValidHttpGitUrl: ^(https://|http://|).+/.+$
unfoldable pub is_valid_http_git_url : Text → Bool
unfolding some_then some_dots after_prefix
is_valid_http_git_url s =
    match_after (some_then b'/' some_dots) (after_prefix s (text "https://"))
    || match_after (some_then b'/' some_dots) (after_prefix s (text "http://"))
    || some_then b'/' some_dots s

-- gitProvider
unfoldable pub git_provider : Text → Text
unfolding contains
git_provider endpoint =
    if contains endpoint (text "github.com")
    then text "github"
    else if contains endpoint (text "gitlab.com")
    then text "gitlab"
    else if contains endpoint (text "bitbucket.org")
    then text "bitbucket"
    else endpoint

-- splits[len(splits)-1] and splits[:len(splits)-1] of a list that is not empty.
abbrev pub last_of : Text → List Text → Text
last_of x [] = x
last_of x (y ∷ ys) = last_of y ys

abbrev pub but_last : Text → List Text → List Text
but_last x [] = []
but_last x (y ∷ ys) = x ∷ but_last y ys

-- The branches for the two forms of SSH URLs, which differ in what separates the parts.
unfoldable pub ssh_info : List Text → Result GitRepoInfo
unfolding git_provider trim_suffix join
ssh_info (user ∷ endpoint ∷ x ∷ rest) = ok (record {
  is_parsed = true;
  provider = git_provider endpoint;
  owner = join (text "/") (but_last x rest);
  name = trim_suffix (last_of x rest) (text ".git");
  endpoint = endpoint;
  ssh_user = user;
  is_ssh_endpoint = true;
})
ssh_info _ = err invalid_git_url_error

abbrev pub ssh_v2_separator : ℕ → Bool
ssh_v2_separator c = c == b'@' || c == b'/'

abbrev pub ssh_v1_separator : ℕ → Bool
ssh_v1_separator c = c == b'@' || c == b':' || c == b'/'

abbrev pub slash : ℕ → Bool
slash c = c == b'/'

unfoldable pub http_info : Text → List Text → Result GitRepoInfo
unfolding git_provider trim_suffix join
http_info scheme (host ∷ x ∷ rest) = ok (record {
  is_parsed = true;
  provider = git_provider (scheme ++ host);
  owner = join (text "/") (but_last x rest);
  name = trim_suffix (last_of x rest) (text ".git");
  endpoint = scheme ++ host;
  ssh_user = [];
  is_ssh_endpoint = false;
})
http_info scheme _ = err invalid_git_url_error

-- What the branch for HTTP strips off.
unfoldable pub http_path : Text → Text
unfolding trim_prefix trim_suffix
http_path url =
    trim_suffix (trim_prefix (trim_prefix url (text "http://")) (text "https://")) (text "/")

-- The branches of ParseGitRepoInfo behind strings.TrimSpace.
unfoldable pub parse_trimmed : Text → Result GitRepoInfo
unfolding is_valid_ssh_git_url_v2 is_valid_ssh_git_url_v1 is_valid_http_git_url ssh_info http_info
    http_path fields split_by has_prefix
parse_trimmed url =
    if is_valid_ssh_git_url_v2 url
    then ssh_info (fields ssh_v2_separator (trim_prefix url (text "ssh://")))
    else if is_valid_ssh_git_url_v1 url
    then ssh_info (fields ssh_v1_separator url)
    else if is_valid_http_git_url url
    then http_info (if has_prefix url (text "http://") then text "http://" else text "https://")
        (split_by slash (http_path url))
    else err unknown_parse_error

-- ParseGitRepoInfo
unfoldable pub parse_git_repo_info : Text → Result GitRepoInfo
unfolding parse_trimmed trim_space
parse_git_repo_info url = parse_trimmed (trim_space url)

-- URL
unfoldable pub url : GitRepoInfo → Text
unfolding contains text_eq
url r =
    if not r.is_parsed
    then []
    else if r.is_ssh_endpoint
    then (if text_eq r.owner []
        then (if contains r.endpoint (text ":")
            then text "ssh://" ++ r.ssh_user ++ text "@" ++ r.endpoint ++ text "/" ++ r.name
            else r.ssh_user ++ text "@" ++ r.endpoint ++ text ":" ++ r.name)
        else (if contains r.endpoint (text ":")
            then text "ssh://"
              ++ r.ssh_user
              ++ text "@"
              ++ r.endpoint
              ++ text "/"
              ++ r.owner
              ++ text "/"
              ++ r.name
            else r.ssh_user ++ text "@" ++ r.endpoint ++ text ":" ++ r.owner ++ text "/" ++ r.name))
    else (if text_eq r.owner []
        then r.endpoint ++ text "/" ++ r.name
        else r.endpoint ++ text "/" ++ r.owner ++ text "/" ++ r.name)
