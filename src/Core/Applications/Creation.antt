-- ===== src/Core/Applications/Creation.antt =====
-- IsExistApplicationName and Create of swiftwave_service/core/application.operations.go.
use newrr.Common.{
  ℕ, Bool, true, false, not, ◌&&◌, ◌||◌, ◌==◌, ltb, if◌then◌else◌, List, [], ◌∷◌, ◌++◌, map, length,
  any, Option, none, some, Text, text, text_eq, contains, Result, ok, err, external,
  record_not_found, has_prefix,
}
use mathlib.Core.List.{reverse}
use newrr.Common.Integers.{is_zero, below}
use newrr.Core.Queries.{Query, ◌>>=◌, ◌>>◌, answer, read, reject}
use newrr.Core.Deployments
use newrr.Core.Deployments.{
  Deployment, zero_deployment, Pointer, UpstreamType, git, source_code, image, other_upstream,
}
use newrr.Core.Applications.Models.{
  Application, EnvironmentVariable, ConfigMount, PersistentVolumeBinding,
}
use newrr.Core.Applications.Store.{Store}

abbrev pub special : List Text
special =
    text "/"
    ∷ text "\\"
    ∷ text ":"
    ∷ text "*"
    ∷ text "?"
    ∷ text "\""
    ∷ text "<"
    ∷ text ">"
    ∷ text "|"
    ∷ text "&"
    ∷ []

-- strings.HasSuffix(name, "_")
abbrev pub ends_in_underscore : Text → Bool
ends_in_underscore name = has_prefix (reverse name) (text "_")

-- The set of mounting paths that are taken.
abbrev pub member : Text → List Text → Bool
member s xs = any (λ x. text_eq x s) xs

-- The resource limits, which Create and Update check alike.
unfoldable pub check_limits : {D : Type 0} → Application → Query D (Unit {0})
check_limits x =
    reject (not (is_zero x.resource_limit_memory_mb) && below x.resource_limit_memory_mb 6)
      "memory limit should be at least 6 MB or 0 for unlimited"
    >> reject (not (is_zero x.reserved_resource_memory_mb) && below x.reserved_resource_memory_mb 6)
        "reserved memory should be at least 6 MB or 0 for unlimited"

abbrev pub new_variable : Text → EnvironmentVariable → EnvironmentVariable
new_variable id e = record { id = 0; application_id = id; key = e.key; value = e.value }

-- createdApplication
abbrev pub created_application : Text → Text → Application → Application
created_application id token x = record {
  id = id;
  name = x.name;
  application_group_id = x.application_group_id;
  environment_variables = [];
  config_mounts = [];
  persistent_volume_bindings = [];
  deployment_mode = x.deployment_mode;
  replicas = x.replicas;
  latest_deployment = zero_deployment;
  command = x.command;
  capabilities = x.capabilities;
  sysctls = x.sysctls;
  resource_limit_memory_mb = x.resource_limit_memory_mb;
  reserved_resource_memory_mb = x.reserved_resource_memory_mb;
  is_deleted = false;
  webhook_token = token;
  is_sleeping = false;
  preferred_server_hostnames = x.preferred_server_hostnames;
  custom_health_check = x.custom_health_check;
  docker_proxy = x.docker_proxy;
}

-- createdDeployment
abbrev pub created_deployment : Text → Option Pointer → Option Pointer → Deployment → Deployment
created_deployment id git_id image_id x = record zero_deployment {
  application_id = id;
  upstream_type = x.upstream_type;
  git_credential_id = git_id;
  git_type = x.git_type;
  git_provider = x.git_provider;
  git_endpoint = x.git_endpoint;
  git_ssh_user = x.git_ssh_user;
  repository_owner = x.repository_owner;
  repository_name = x.repository_name;
  repository_branch = x.repository_branch;
  commit_hash = x.commit_hash;
  code_path = x.code_path;
  source_code_compressed_file_name = x.source_code_compressed_file_name;
  docker_image = x.docker_image;
  image_registry_credential_id = image_id;
  dockerfile = x.dockerfile;
}

-- Any error counts for a service that does not exist.
abbrev pub no_error : Result (Unit {0}) → Bool
no_error (ok _) = true
no_error (err e) = false

module _ {D : Type 0} (s : Store D) where
  unfoldable pub is_exist_application_name : Text → Query D Bool
  unfolding contains has_prefix
  is_exist_application_name name =
      reject (any (λ c. contains name c) special || ends_in_underscore name)
        "application name cannot contain any special characters at the end"
      >> read (s.applications.count (λ x. text_eq x.name name))
      >>= λ n. if ltb 0 n then answer true else answer (no_error (s.get_service name))

  abbrev pub found_server : Text → Result ℕ → Result (Unit {0})
  found_server host (ok n) = ok tt
  found_server host (err record_not_found) =
      err (external (text "invalid hostname " ++ host ++ text " provided for preferred server"))
  found_server host (err e) = err e

  unfoldable pub check_servers : List Text → Query D (Unit {0})
  check_servers [] = answer tt
  check_servers (host ∷ hosts) =
      read (λ d. found_server host (s.find_server host d)) >> check_servers hosts

  -- The credential of the deployment, looked up where its upstream asks for one.
  abbrev pub credential : (ℕ → D → Result (Unit {0})) → Option Pointer → Query D (Option Pointer)
  credential find none = answer none
  credential find (some p) = read (find p.target) >> answer (some p)

  abbrev pub check_git : Deployment → UpstreamType → Query D (Option Pointer)
  check_git x git = credential s.find_git_credential x.git_credential_id
  check_git x _ = answer none

  abbrev pub check_image : Deployment → UpstreamType → Query D (Option Pointer)
  check_image x image = credential s.find_image_registry_credential x.image_registry_credential_id
  check_image x _ = answer none

  abbrev pub check_source : Text → Deployment → UpstreamType → Query D (Unit {0})
  check_source dir x source_code =
      reject (s.is_not_exist dir x.source_code_compressed_file_name) "source code not found"
  check_source dir x _ = answer tt

  -- The rows for the volumes: no mounting path twice, and each volume there.
  unfoldable pub make_bindings :
      Text → List PersistentVolumeBinding → List Text → Query D (List PersistentVolumeBinding)
  make_bindings id [] used = answer []
  make_bindings id (b ∷ bs) used =
      reject (member b.mounting_path used) "mounting path already used"
      >> read (s.find_persistent_volume b.persistent_volume_id)
      >> (make_bindings id bs (b.mounting_path ∷ used) >>= λ rest. answer (
          record {
            id = 0;
            application_id = id;
            persistent_volume_id = b.persistent_volume_id;
            mounting_path = b.mounting_path;
          }
          ∷ rest))

  unfoldable pub make_mounts : Text → List ConfigMount → List Text → Query D (List ConfigMount)
  make_mounts id [] used = answer []
  make_mounts id (c ∷ cs) used =
      reject (member c.mounting_path used) "mounting path already used"
      >> (make_mounts id cs (c.mounting_path ∷ used) >>= λ rest.
          answer (record c { application_id = id } ∷ rest))

  -- if len(xs) > 0 { db.Create(&xs) }
  abbrev pub create_all : {R : Type 0} → (List R → Query D (Unit {0})) → List R → Query D (Unit {0})
  create_all insert [] = answer tt
  create_all insert (x ∷ xs) = insert (x ∷ xs)

  -- What Create has checked before it writes: the credentials of the first deployment.
  unfoldable pub check_creation : Text → Application → Query D (Option Pointer × Option Pointer)
  unfolding is_exist_application_name check_limits check_servers
  check_creation dir x = do
    taken ← is_exist_application_name x.name
    reject taken "application name not available"
    check_limits x
    check_servers x.preferred_server_hostnames
    git_id ← check_git x.latest_deployment x.latest_deployment.upstream_type
    image_id ← check_image x.latest_deployment x.latest_deployment.upstream_type
    check_source dir x.latest_deployment x.latest_deployment.upstream_type
    reject (x.docker_proxy.enabled && length x.preferred_server_hostnames == 0)
        "you need to select exactly one preferred server for getting access to docker socket proxy"
    answer (git_id, image_id)

  -- The rows that belong to the new application.
  unfoldable pub create_rows : Text → Application → Query D (Unit {0})
  unfolding make_bindings make_mounts
  create_rows id x = do
    create_all s.create_environment_variables (map (new_variable id) x.environment_variables)
    bindings ← make_bindings id x.persistent_volume_bindings []
    create_all s.create_bindings bindings
    mounts ← make_mounts id x.config_mounts []
    create_all s.create_config_mounts mounts

  unfoldable pub create_first_deployment :
      Text → Text → Option Pointer × Option Pointer → Deployment → Query D (Unit {0})
  create_first_deployment id uuid ids x =
      Deployments.create s.deployments uuid (created_deployment id ids.0 ids.1 x) >>= λ made.
      create_all (s.create_build_args made.id) x.build_args

  -- Create: `id`, `token` and `uuid` are the three answers of uuid.NewString().
  unfoldable pub create : Text → Text → Text → Text → Application → Query D Application
  unfolding check_creation create_rows create_first_deployment
  create id token uuid dir x = do
    ids ← check_creation dir x
    s.applications.create (created_application id token x)
    create_rows id x
    create_first_deployment id uuid ids x.latest_deployment
    answer (created_application id token x)
