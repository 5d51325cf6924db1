-- ===== src/Core/Deployments/Examples.antt =====
-- A deployment from a git repository, in a database in memory.
use newrr.Common.{
  arith, ◌≡◌, String, false, true, ◌⊎◌, refl, List, [], ◌∷◌, none, some, ok, text, text_eq,
}
use newrr.Core.Database.{Table}
use newrr.Core.Memory.{table}
use newrr.Core.Deployments.{
  Deployment, DeploymentUpdateResult, git, source_code, git_http, deployed, update, create,
  git_repository_url,
}
use newrr.Core.Deployments.Sources.{git_repository_url-url}
use newrr.Core.Deployments.Rebuilds.{Same, Rebuilds, update-Same}
use newrr.GitManager.Parser.{url}
use newrr.GitManager.Parser.Examples.{library}

abbrev site : Deployment
site = record {
  id = text "d1";
  application_id = text "a1";
  upstream_type = git;
  git_credential_id = some (record { address = 16; target = 3 });
  git_provider = text "gitlab";
  git_type = git_http;
  repository_owner = text "team/sub";
  repository_name = text "lib";
  repository_branch = text "main";
  git_endpoint = text "https://gitlab.com";
  git_ssh_user = [];
  code_path = [];
  commit_hash = [];
  commit_message = [];
  source_code_compressed_file_name = [];
  docker_image = [];
  image_registry_credential_id = none;
  build_args = [];
  dockerfile = [];
  status = deployed;
}

-- The same deployment as the database gives it, its credential at another address.
abbrev stored_site : Deployment
stored_site = record site { git_credential_id = some (record { address = 32; target = 3 }) }

abbrev deployments : Table (List Deployment) Deployment
deployments = table (λ d. d) (λ xs d. xs) (λ x. 0) (λ i x. x)

git_repository_url-url_example : git_repository_url site ≡ url library
git_repository_url-url_example = git_repository_url-url site refl (λ e. ground arith)

-- Built from sources that were sent, with no credential: only the argument differs.
abbrev with_arg : String → Deployment
with_arg value = record site {
  upstream_type = source_code;
  git_credential_id = none;
  build_args = record { key = text "MODE"; value = text value } ∷ [];
}

abbrev unchanged : DeploymentUpdateResult
unchanged = record { rebuild_required = false; deployment_id = text "d1" }

update-Same_example :
    (Same (with_arg "fast") (with_arg "small")
      × (update deployments (text "d2") (with_arg "fast") (with_arg "small" ∷ [])
          ≡ (with_arg "small" ∷ [], ok unchanged)))
    ⊎ ((¬ (Same (with_arg "fast") (with_arg "small")))
        × ((update deployments (text "d2") (with_arg "fast") (with_arg "small" ∷ [])).0
            ≡ (create deployments (text "d2") (with_arg "fast") (with_arg "small" ∷ [])).0)
        × Rebuilds
            (create deployments (text "d2") (with_arg "fast") (with_arg "small" ∷ [])).1
            (update deployments (text "d2") (with_arg "fast") (with_arg "small" ∷ [])).1)
unfolding text_eq
update-Same_example =
    update-Same deployments (text "d2") (with_arg "fast") (with_arg "small" ∷ [])
      (with_arg "small" ∷ []) refl

-- The same argument: nothing is built.
same_arg :
    update deployments (text "d2") (with_arg "fast") (with_arg "fast" ∷ [])
    ≡ (with_arg "fast" ∷ [], ok unchanged)
unfolding update text_eq
same_arg = refl

-- The same deployment, with its credential read to another address, is built again.
credential_rebuilt :
    (update deployments (text "d2") site (stored_site ∷ [])).1
    ≡ ok (record { rebuild_required = true; deployment_id = text "d2" })
unfolding update text_eq
credential_rebuilt = refl
