-- ===== src/GitManager/Parser/Examples.antt =====
-- URLs of repositories, printed and parsed.
use newrr.Common.{
  ◌≡◌, refl, true, false, [], text, inr, ok, after_prefix, trim_suffix, contains, is_space,
  has_prefix,
}
use newrr.GitManager.Parser.{GitRepoInfo, url, parse_git_repo_info, git_provider}
use newrr.GitManager.Parser.RoundTrip.{IsHttpRepo, parse-url}

abbrev pub library : GitRepoInfo
library = record {
  is_parsed = true;
  provider = text "gitlab";
  owner = text "team/sub";
  name = text "lib";
  endpoint = text "https://gitlab.com";
  ssh_user = [];
  is_ssh_endpoint = false;
}

pub library-IsHttpRepo : IsHttpRepo library (text "https://") (text "gitlab.com")
unfolding git_provider contains has_prefix after_prefix trim_suffix is_space
library-IsHttpRepo = record {
  parsed = refl;
  no_ssh = refl;
  no_user = refl;
  known_scheme = inr refl;
  endpoint_is = refl;
  provider_is = refl;
  host_some = λ e. cc;
  host_plain = (refl, (refl, (refl, (refl, (refl, (refl, (refl, (refl, (refl, (refl, tt))))))))));
  owner_plain = (refl, (refl, (refl, (refl, (refl, (refl, (refl, (refl, tt))))))));
  owner_start = refl;
  name_some = λ e. cc;
  name_plain = (refl, (refl, (refl, tt)));
  name_bare = refl;
}

parse-url_example : parse_git_repo_info (url library) ≡ ok library
parse-url_example = parse-url library (text "https://") (text "gitlab.com") library-IsHttpRepo
