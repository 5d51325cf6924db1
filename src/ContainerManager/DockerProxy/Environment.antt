-- ===== src/ContainerManager/DockerProxy/Environment.antt =====
-- What the environment of the socket proxy grants, resource by resource.
use mathlib.Core.Option.{some-injective}
use newrr.Common.{
  ◌≡◌, refl, Bool, Option, none, some, List, [], ◌∷◌, ◌++◌, Text, text, has_prefix, if◌then◌else◌,
  ◌↔◌, sym, ap, ◌∙◌, arith,
}
use newrr.ContainerManager.DockerProxy.{
  DockerProxyPermissionType, DockerProxyPermission, environment_variables, reads, writes,
}

-- The resources of the Docker API for which there is a permission.
pub data Resource : Type 0 where
  ping version info events auth secrets build commit configs containers distribution exec grpc
        images networks nodes plugins services session swarm system tasks volumes :
      Resource

abbrev pub permission_of : Resource → DockerProxyPermission → DockerProxyPermissionType
permission_of ping p = p.ping
permission_of version p = p.version
permission_of info p = p.info
permission_of events p = p.events
permission_of auth p = p.auth
permission_of secrets p = p.secrets
permission_of build p = p.build
permission_of commit p = p.commit
permission_of configs p = p.configs
permission_of containers p = p.containers
permission_of distribution p = p.distribution
permission_of exec p = p.exec
permission_of grpc p = p.grpc
permission_of images p = p.images
permission_of networks p = p.networks
permission_of nodes p = p.nodes
permission_of plugins p = p.plugins
permission_of services p = p.services
permission_of session p = p.session
permission_of swarm p = p.swarm
permission_of system p = p.system
permission_of tasks p = p.tasks
permission_of volumes p = p.volumes

abbrev pub read_key : Resource → Text
read_key ping = text "PING_READ"
read_key version = text "VERSION_READ"
read_key info = text "INFO_READ"
read_key events = text "EVENTS_READ"
read_key auth = text "AUTH_READ"
read_key secrets = text "SECRETS_READ"
read_key build = text "BUILD_READ"
read_key commit = text "COMMIT_READ"
read_key configs = text "CONFIGS_READ"
read_key containers = text "CONTAINERS_READ"
read_key distribution = text "DISTRIBUTION_READ"
read_key exec = text "EXEC_READ"
read_key grpc = text "GRPC_READ"
read_key images = text "IMAGES_READ"
read_key networks = text "NETWORKS_READ"
read_key nodes = text "NODES_READ"
read_key plugins = text "PLUGINS_READ"
read_key services = text "SERVICES_READ"
read_key session = text "SESSION_READ"
read_key swarm = text "SWARM_READ"
read_key system = text "SYSTEM_READ"
read_key tasks = text "TASKS_READ"
read_key volumes = text "VOLUMES_READ"

abbrev pub write_key : Resource → Text
write_key ping = text "PING_WRITE"
write_key version = text "VERSION_WRITE"
write_key info = text "INFO_WRITE"
write_key events = text "EVENTS_WRITE"
write_key auth = text "AUTH_WRITE"
write_key secrets = text "SECRETS_WRITE"
write_key build = text "BUILD_WRITE"
write_key commit = text "COMMIT_WRITE"
write_key configs = text "CONFIGS_WRITE"
write_key containers = text "CONTAINERS_WRITE"
write_key distribution = text "DISTRIBUTION_WRITE"
write_key exec = text "EXEC_WRITE"
write_key grpc = text "GRPC_WRITE"
write_key images = text "IMAGES_WRITE"
write_key networks = text "NETWORKS_WRITE"
write_key nodes = text "NODES_WRITE"
write_key plugins = text "PLUGINS_WRITE"
write_key services = text "SERVICES_WRITE"
write_key session = text "SESSION_WRITE"
write_key swarm = text "SWARM_WRITE"
write_key system = text "SYSTEM_WRITE"
write_key tasks = text "TASKS_WRITE"
write_key volumes = text "VOLUMES_WRITE"

-- How a process reads its environment: the first entry that begins with the key and `=`.
pub env_lookup : Text → List Text → Option Text
env_lookup key [] = none
env_lookup key (entry ∷ rest) =
    if has_prefix entry (key ++ text "=") then some entry else env_lookup key rest

abbrev pub digit : Bool → Text
digit b = if b then text "1" else text "0"

-- The permission that decides over a resource: the one of `exec` for `grpc` and `images`, and its
-- own for any other.
abbrev pub decided_by : Resource → Resource
decided_by grpc = exec
decided_by images = exec
decided_by ping = ping
decided_by version = version
decided_by info = info
decided_by events = events
decided_by auth = auth
decided_by secrets = secrets
decided_by build = build
decided_by commit = commit
decided_by configs = configs
decided_by containers = containers
decided_by distribution = distribution
decided_by exec = exec
decided_by networks = networks
decided_by nodes = nodes
decided_by plugins = plugins
decided_by services = services
decided_by session = session
decided_by swarm = swarm
decided_by system = system
decided_by tasks = tasks
decided_by volumes = volumes

read_entry :
    (r : Resource) (p : DockerProxyPermission)
    → env_lookup (read_key r) (environment_variables p)
      ≡ some (read_key r ++ text "=" ++ digit (reads (permission_of (decided_by r) p)))
unfolding env_lookup environment_variables has_prefix
read_entry ping p = refl
read_entry _ p = refl

write_entry :
    (r : Resource) (p : DockerProxyPermission)
    → env_lookup (write_key r) (environment_variables p)
      ≡ some (write_key r ++ text "=" ++ digit (writes (permission_of (decided_by r) p)))
unfolding env_lookup environment_variables has_prefix
write_entry ping p = refl
write_entry _ p = refl

-- For every resource the environment has an entry for reading and one for writing; each is 1 if the
-- permission that decides over the resource allows it and 0 if not. For grpc and images that is
-- the permission of exec.
pub environment_exact :
    (r : Resource) (p : DockerProxyPermission)
    → (env_lookup (read_key r) (environment_variables p)
        ≡ some (read_key r ++ text "=" ++ digit (reads (permission_of (decided_by r) p))))
      × (env_lookup (write_key r) (environment_variables p)
          ≡ some (write_key r ++ text "=" ++ digit (writes (permission_of (decided_by r) p))))
environment_exact r p = (read_entry r p, write_entry r p)

permission_of_flags :
    (a b : DockerProxyPermissionType) → reads a ≡ reads b → writes a ≡ writes b → a ≡ b
permission_of_flags a b r w = ground arith

flag_injective :
    (key : Text) (a b : Bool) → key ++ text "=" ++ digit a ≡ key ++ text "=" ++ digit b → a ≡ b
flag_injective [] a b e = ground arith
flag_injective (c ∷ key) a b e = flag_injective key a b (ground arith)

same_decided :
    (r : Resource) (p q : DockerProxyPermission)
    → environment_variables p ≡ environment_variables q
    → permission_of (decided_by r) p ≡ permission_of (decided_by r) q
same_decided r p q e =
    permission_of_flags _ _
      (flag_injective (read_key r) _ _ (
        some-injective _ _
          (sym (read_entry r p) ∙ ap (env_lookup (read_key r)) e ∙ read_entry r q)))
      (flag_injective (write_key r) _ _ (
        some-injective _ _
          (sym (write_entry r p) ∙ ap (env_lookup (write_key r)) e ∙ write_entry r q)))

decided_same :
    (p q : DockerProxyPermission)
    → ((r : Resource) → permission_of (decided_by r) p ≡ permission_of (decided_by r) q)
    → environment_variables p ≡ environment_variables q
unfolding environment_variables
decided_same p q h = rw (
  h ping,
  h version,
  h info,
  h events,
  h auth,
  h secrets,
  h build,
  h commit,
  h configs,
  h containers,
  h distribution,
  h exec,
  h networks,
  h nodes,
  h plugins,
  h services,
  h session,
  h swarm,
  h system,
  h tasks,
  h volumes,
)

-- Two configurations have the same environment exactly when they give every resource other than
-- grpc and images the same permission; the permissions of these two are never looked at.
pub environment_iff :
    (p q : DockerProxyPermission)
    → (environment_variables p ≡ environment_variables q)
      ↔ ((r : Resource) → permission_of (decided_by r) p ≡ permission_of (decided_by r) q)
environment_iff p q = (λ e r. same_decided r p q e, decided_same p q)
