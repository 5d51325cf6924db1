-- ===== src/Core/Deployments/Sources.antt =====
-- GitRepositoryURL of core/deployment.operations.go and URL of git_manager/parser.go.
use newrr.Common.{Bool, true, false, ◌≡◌, ◌≢◌, refl, ◌∙◌, ap}
use newrr.Core.Deployments.{
  Deployment, git, GitType, git_http, git_ssh, other_git, git_url, url_for, git_repository_url,
}
use newrr.GitManager.Parser.{GitRepoInfo, url}

abbrev pub is_ssh : GitType → Bool
is_ssh git_http = false
is_ssh git_ssh = true
is_ssh other_git = false

-- The repository that a deployment stores the parts of.
abbrev pub repository_of : Deployment → GitRepoInfo
repository_of x = record {
  is_parsed = true;
  provider = x.git_provider;
  owner = x.repository_owner;
  name = x.repository_name;
  endpoint = x.git_endpoint;
  ssh_user = x.git_ssh_user;
  is_ssh_endpoint = is_ssh x.git_type;
}

git_url-by_type :
    (t : GitType) (x : Deployment)
    → t ≢ other_git
    → git_url t x ≡ url (record (repository_of x) { is_ssh_endpoint = is_ssh t })
unfolding url
git_url-by_type git_http x n = refl
git_url-by_type git_ssh x n = refl
git_url-by_type other_git x n = absurd (n refl)

-- The URL that a deployment from a git repository is cloned from is the one that the parser's package
-- prints for the repository, for HTTP and SSH, with and without an owner or a port.
pub git_repository_url-url :
    (x : Deployment)
    → x.upstream_type ≡ git
    → x.git_type ≢ other_git
    → git_repository_url x ≡ url (repository_of x)
unfolding git_repository_url
git_repository_url-url x u n =
    ap (λ t. url_for t (git_url x.git_type x)) u ∙ git_url-by_type x.git_type x n
