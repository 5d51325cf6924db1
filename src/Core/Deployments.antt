-- ===== src/Core/Deployments.antt =====
-- The part of swiftwave_service/core/deployment.operations.go that decides what is built again, and
-- where from.
pub mod Sources
pub mod Rebuilds
pub mod Examples
use newrr.Common.{
  ℕ, Bool, true, false, not, ◌&&◌, ◌||◌, ◌==◌, List, [], ◌∷◌, ◌++◌, length, any, Option, none, some,
  Result, ok, err, Error, Text, text, text_eq, contains, Map, lookup, insert, if◌then◌else◌,
  trim_suffix,
}
use newrr.Core.Database.{Table}

-- UpstreamType and GitType; the branch for any other text is other_*.
pub data UpstreamType : Type 0 where
  git source_code image other_upstream : UpstreamType

pub data GitType : Type 0 where
  git_http git_ssh other_git : GitType

pub data DeploymentStatus : Type 0 where
  pending deploy_pending deployed stopped failed stalled unset_status : DeploymentStatus

-- A *uint: two pointers are equal where they point to the same place.
pub record Pointer : Type 0 where
  pub address : ℕ
  pub target : ℕ

pub record BuildArg : Type 0 where
  pub key : Text
  pub value : Text

pub record Deployment : Type 0 where
  pub id : Text
  pub application_id : Text
  pub upstream_type : UpstreamType
  pub git_credential_id : Option Pointer
  pub git_provider : Text
  pub git_type : GitType
  pub repository_owner : Text
  pub repository_name : Text
  pub repository_branch : Text
  pub git_endpoint : Text
  pub git_ssh_user : Text
  pub code_path : Text
  pub commit_hash : Text
  pub commit_message : Text
  pub source_code_compressed_file_name : Text
  pub docker_image : Text
  pub image_registry_credential_id : Option Pointer
  pub build_args : List BuildArg
  pub dockerfile : Text
  pub status : DeploymentStatus

abbrev pub upstream_code : UpstreamType → ℕ
upstream_code git = 0
upstream_code source_code = 1
upstream_code image = 2
upstream_code other_upstream = 3

abbrev pub git_code : GitType → ℕ
git_code git_http = 0
git_code git_ssh = 1
git_code other_git = 2

abbrev pub same_pointer : Option Pointer → Option Pointer → Bool
same_pointer none none = true
same_pointer (some p) (some q) = p.address == q.address
same_pointer _ _ = false

-- The comparison of the parameters, in the order of the code.
unfoldable pub same_parameters : Deployment → Deployment → Bool
unfolding text_eq
same_parameters x y =
    upstream_code x.upstream_type == upstream_code y.upstream_type
    && same_pointer x.git_credential_id y.git_credential_id
    && text_eq x.git_provider y.git_provider
    && git_code x.git_type == git_code y.git_type
    && text_eq x.git_endpoint y.git_endpoint
    && text_eq x.git_ssh_user y.git_ssh_user
    && text_eq x.repository_owner y.repository_owner
    && text_eq x.repository_name y.repository_name
    && text_eq x.repository_branch y.repository_branch
    && text_eq x.commit_hash y.commit_hash
    && text_eq x.code_path y.code_path
    && text_eq x.source_code_compressed_file_name y.source_code_compressed_file_name
    && text_eq x.docker_image y.docker_image
    && same_pointer x.image_registry_credential_id y.image_registry_credential_id
    && text_eq x.dockerfile y.dockerfile

-- latestBuildArgsMap: a later argument replaces an earlier one with its key.
abbrev pub args_map : List BuildArg → Map Text → Map Text
args_map [] m = m
args_map (a ∷ rest) m = args_map rest (insert a.key a.value m)

-- m[key], which is empty for a missing key
abbrev pub value_at : Option Text → Text
value_at none = []
value_at (some v) = v

unfoldable pub same_build_args : List BuildArg → List BuildArg → Bool
unfolding lookup insert text_eq
same_build_args new latest =
    length new == length latest
    && not (any (λ a. not (text_eq (value_at (lookup a.key (args_map latest []))) a.value)) new)

abbrev pub recreation_required : Deployment → Deployment → Bool
recreation_required x latest =
    not (same_parameters x latest) || not (same_build_args x.build_args latest.build_args)

pub record DeploymentUpdateResult : Type 0 where
  pub rebuild_required : Bool
  pub deployment_id : Text

-- &Deployment{}, which Find leaves as it is where there is no row.
abbrev pub zero_deployment : Deployment
zero_deployment = record {
  id = [];
  application_id = [];
  upstream_type = other_upstream;
  git_credential_id = none;
  git_provider = [];
  git_type = other_git;
  repository_owner = [];
  repository_name = [];
  repository_branch = [];
  git_endpoint = [];
  git_ssh_user = [];
  code_path = [];
  commit_hash = [];
  commit_message = [];
  source_code_compressed_file_name = [];
  docker_image = [];
  image_registry_credential_id = none;
  build_args = [];
  dockerfile = [];
  status = unset_status;
}

abbrev pub found_deployment : List Deployment → Deployment
found_deployment [] = zero_deployment
found_deployment (x ∷ xs) = x

abbrev pub answer : {D : Type 0} → D × Result Deployment → D × Result DeploymentUpdateResult
answer (e, err c) = (e, err c)
answer (e, ok y) = (e, ok (record { rebuild_required = true; deployment_id = y.id }))

module _ {D : Type 0} (deployments : Table D Deployment) where
  -- Create; `uuid` is what uuid.NewString() returns.
  unfoldable pub create : Text → Deployment → D → D × Result Deployment
  create uuid x d = deployments.create (record x { id = uuid; status = pending }) d

  -- What Update answers for the latest deployment that it has found.
  abbrev pub update_found : Text → Deployment → Deployment → D → D × Result DeploymentUpdateResult
  update_found uuid x latest d =
      if recreation_required x latest
      then answer (deployments.create (record x { id = uuid; status = pending }) d)
      else (d, ok (record { rebuild_required = false; deployment_id = latest.id }))

  abbrev pub update_from :
      Text → Deployment → Result (List Deployment) → D → D × Result DeploymentUpdateResult
  update_from uuid x (err e) d = (d, err e)
  update_from uuid x (ok xs) d = update_found uuid x (found_deployment xs) d

  -- Update
  unfoldable pub update : Text → Deployment → D → D × Result DeploymentUpdateResult
  unfolding text_eq same_parameters same_build_args
  update uuid x d = update_from uuid x (deployments.find (λ y. text_eq y.id x.id) d) d

-- DeployableDockerImageURI
abbrev pub prefixed : Text → Text → Text
prefixed prefix uri =
    if text_eq prefix [] then uri else trim_suffix prefix (text "/") ++ text "/" ++ uri

unfoldable pub deployable_docker_image_uri : Deployment → Text → Text
unfolding text_eq trim_suffix
deployable_docker_image_uri x prefix = elim x.upstream_type [
  | image ↦ x.docker_image
  | git ↦ prefixed prefix (x.application_id ++ text ":" ++ x.id)
  | source_code ↦ prefixed prefix (x.application_id ++ text ":" ++ x.id)
  | other_upstream ↦ []
]

-- GitRepositoryURL
abbrev pub git_url : GitType → Deployment → Text
git_url git_http x =
    if text_eq x.repository_owner []
    then x.git_endpoint ++ text "/" ++ x.repository_name
    else x.git_endpoint ++ text "/" ++ x.repository_owner ++ text "/" ++ x.repository_name
git_url git_ssh x =
    if text_eq x.repository_owner []
    then (if contains x.git_endpoint (text ":")
        then text "ssh://"
          ++ x.git_ssh_user
          ++ text "@"
          ++ x.git_endpoint
          ++ text "/"
          ++ x.repository_name
        else x.git_ssh_user ++ text "@" ++ x.git_endpoint ++ text ":" ++ x.repository_name)
    else (if contains x.git_endpoint (text ":")
        then text "ssh://"
          ++ x.git_ssh_user
          ++ text "@"
          ++ x.git_endpoint
          ++ text "/"
          ++ x.repository_owner
          ++ text "/"
          ++ x.repository_name
        else x.git_ssh_user
          ++ text "@"
          ++ x.git_endpoint
          ++ text ":"
          ++ x.repository_owner
          ++ text "/"
          ++ x.repository_name)
git_url other_git x = []

abbrev pub url_for : UpstreamType → Text → Text
url_for git s = s
url_for source_code s = []
url_for image s = []
url_for other_upstream s = []

unfoldable pub git_repository_url : Deployment → Text
unfolding text_eq contains
git_repository_url x = url_for x.upstream_type (git_url x.git_type x)
