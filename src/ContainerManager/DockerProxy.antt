-- ===== src/ContainerManager/DockerProxy.antt =====
-- container_manager/docker_proxy.go and its types in container_manager/types.go: the service that
-- gives an application a filtered access to the Docker socket.
pub mod Environment
pub mod Lists
pub mod Rollout
use newrr.Common.{
  ℕ, zero, suc, Bool, true, false, ◌&&◌, ◌||◌, Option, none, some, inl, inr, ◌⊎◌, List, [], ◌∷◌,
  ◌++◌, Result, ok, err, external, String, Text, text, text_eq, length, ◌==◌, any, if◌then◌else◌,
  not,
}
use newrr.Common.Run.{Run, returns}
use newrr.ContainerManager.Client.{ServiceSpec, ServiceData, ContainerSpec, Mount, DockerClient}
use newrr.ContainerManager.Updates.{
  Prepared, sends, update_loop, remove_service, max_retries_for_version_conflict,
}

pub data DockerProxyPermissionType : Type 0 where
  none_permission read_permission read_write_permission : DockerProxyPermissionType

pub record DockerProxyPermission : Type 0 where
  pub ping : DockerProxyPermissionType
  pub version : DockerProxyPermissionType
  pub info : DockerProxyPermissionType
  pub events : DockerProxyPermissionType
  pub auth : DockerProxyPermissionType
  pub secrets : DockerProxyPermissionType
  pub build : DockerProxyPermissionType
  pub commit : DockerProxyPermissionType
  pub configs : DockerProxyPermissionType
  pub containers : DockerProxyPermissionType
  pub distribution : DockerProxyPermissionType
  pub exec : DockerProxyPermissionType
  pub grpc : DockerProxyPermissionType
  pub images : DockerProxyPermissionType
  pub networks : DockerProxyPermissionType
  pub nodes : DockerProxyPermissionType
  pub plugins : DockerProxyPermissionType
  pub services : DockerProxyPermissionType
  pub session : DockerProxyPermissionType
  pub swarm : DockerProxyPermissionType
  pub system : DockerProxyPermissionType
  pub tasks : DockerProxyPermissionType
  pub volumes : DockerProxyPermissionType

-- DockerProxyConfig
pub record DockerProxyConfig : Type 0 where
  pub permission : DockerProxyPermission

-- config.Permission.X == DockerProxyReadPermission || config.Permission.X == DockerProxyReadWritePermission
abbrev pub reads : DockerProxyPermissionType → Bool
reads none_permission = false
reads read_permission = true
reads read_write_permission = true

-- config.Permission.X == DockerProxyReadWritePermission
abbrev pub writes : DockerProxyPermissionType → Bool
writes none_permission = false
writes read_permission = false
writes read_write_permission = true

-- fmt.Sprintf("NAME=%d", boolToInt(b))
abbrev pub flag : String → Bool → Text
flag name b = text name ++ text "=" ++ (if b then text "1" else text "0")

unfoldable pub environment_variables : DockerProxyPermission → List Text
environment_variables p =
    flag "PING_READ" (reads p.ping)
    ∷ flag "PING_WRITE" (writes p.ping)
    ∷ flag "VERSION_READ" (reads p.version)
    ∷ flag "VERSION_WRITE" (writes p.version)
    ∷ flag "INFO_READ" (reads p.info)
    ∷ flag "INFO_WRITE" (writes p.info)
    ∷ flag "EVENTS_READ" (reads p.events)
    ∷ flag "EVENTS_WRITE" (writes p.events)
    ∷ flag "AUTH_READ" (reads p.auth)
    ∷ flag "AUTH_WRITE" (writes p.auth)
    ∷ flag "SECRETS_READ" (reads p.secrets)
    ∷ flag "SECRETS_WRITE" (writes p.secrets)
    ∷ flag "BUILD_READ" (reads p.build)
    ∷ flag "BUILD_WRITE" (writes p.build)
    ∷ flag "COMMIT_READ" (reads p.commit)
    ∷ flag "COMMIT_WRITE" (writes p.commit)
    ∷ flag "CONFIGS_READ" (reads p.configs)
    ∷ flag "CONFIGS_WRITE" (writes p.configs)
    ∷ flag "CONTAINERS_READ" (reads p.containers)
    ∷ flag "CONTAINERS_WRITE" (writes p.containers)
    ∷ flag "DISTRIBUTION_READ" (reads p.distribution)
    ∷ flag "DISTRIBUTION_WRITE" (writes p.distribution)
    ∷ flag "EXEC_READ" (reads p.exec)
    ∷ flag "EXEC_WRITE" (writes p.exec)
    ∷ flag "GRPC_READ" (reads p.exec)
    ∷ flag "GRPC_WRITE" (writes p.exec)
    ∷ flag "IMAGES_READ" (reads p.exec)
    ∷ flag "IMAGES_WRITE" (writes p.exec)
    ∷ flag "NETWORKS_READ" (reads p.networks)
    ∷ flag "NETWORKS_WRITE" (writes p.networks)
    ∷ flag "NODES_READ" (reads p.nodes)
    ∷ flag "NODES_WRITE" (writes p.nodes)
    ∷ flag "PLUGINS_READ" (reads p.plugins)
    ∷ flag "PLUGINS_WRITE" (writes p.plugins)
    ∷ flag "SERVICES_READ" (reads p.services)
    ∷ flag "SERVICES_WRITE" (writes p.services)
    ∷ flag "SESSION_READ" (reads p.session)
    ∷ flag "SESSION_WRITE" (writes p.session)
    ∷ flag "SWARM_READ" (reads p.swarm)
    ∷ flag "SWARM_WRITE" (writes p.swarm)
    ∷ flag "SYSTEM_READ" (reads p.system)
    ∷ flag "SYSTEM_WRITE" (writes p.system)
    ∷ flag "TASKS_READ" (reads p.tasks)
    ∷ flag "TASKS_WRITE" (writes p.tasks)
    ∷ flag "VOLUMES_READ" (reads p.volumes)
    ∷ flag "VOLUMES_WRITE" (writes p.volumes)
    ∷ []

-- isSameList: the lists are as long, and each element of the first is in the second.
unfoldable pub covers : List Text → List Text → Bool
covers [] b = true
covers (x ∷ a) b = any (text_eq x) b && covers a b

unfoldable pub is_same_list : List Text → List Text → Bool
unfolding covers
is_same_list a b = length a == length b && covers a b

-- The two comparisons with the service that is there; a nil pointer counts as no difference.
unfoldable pub env_differs : Option ContainerSpec → List Text → Bool
unfolding is_same_list
env_differs none env = false
env_differs (some c) env = not (is_same_list c.env env)

unfoldable pub constraints_differ : Option (List Text) → List Text → Bool
unfolding is_same_list
constraints_differ none constraints = false
constraints_differ (some c) constraints = not (is_same_list c constraints)

unfoldable pub is_update : List Text → List Text → ServiceData → Bool
unfolding env_differs constraints_differ
is_update env constraints found =
    env_differs found.spec.container_spec env || constraints_differ found.spec.placement constraints

abbrev pub proxy_spec : Text → List Text → List Text → Text → ServiceSpec
proxy_spec name env constraints network = record {
  name = name;
  container_spec = some (record {
    image = text "ghcr.io/swiftwave-org/docker-socket-proxy:latest";
    command = [];
    env = env;
    mounts =
        record {
          bind = true;
          source = text "/var/run/docker.sock";
          target = text "/var/run/docker.sock";
          read_only = true;
        }
        ∷ [];
    no_new_privileges = false;
    capability_add = text "CAP_DAC_OVERRIDE" ∷ [];
    sysctls = [];
  });
  placement = some constraints;
  reservation_memory = 0;
  limit_memory = 0;
  networks = network ∷ [];
  replicated = some 1;
  dns_round_robin = true;
  force_update = 0;
}

module _ {World : Type 0} (docker : DockerClient World) where
  -- The error of ServiceCreate is passed on as it is.
  abbrev pub created : Option Text → Result (Unit {0})
  created none = ok tt
  created (some e) = err (external e)

  abbrev pub roll_out :
      Text → ServiceSpec → Text ⊎ ServiceData → Bool → Run World (Result (Unit {0}))
  roll_out name spec (inl e) differs w =
      let (error, v) = docker.service_create spec w in returns (created error) v
  roll_out name spec (inr found) false w = returns (ok tt) w
  roll_out name spec (inr found) true w =
      update_loop docker max_retries_for_version_conflict name (λ _. sends spec) w

  abbrev pub differs : List Text → List Text → Text ⊎ ServiceData → Bool
  differs env constraints (inl e) = true
  differs env constraints (inr found) = is_update env constraints found

  -- CreateDockerProxy
  unfoldable pub create_docker_proxy :
      Text → List Text → DockerProxyConfig → Text → Run World (Result (Unit {0}))
  unfolding is_update
  create_docker_proxy name constraints config network w =
      let env = environment_variables config.permission in
      let (answer, w') = docker.service_inspect name w in
      roll_out name (proxy_spec name env constraints network) answer
        (differs env constraints answer) w'

  -- RemoveDockerProxy: the error is dropped.
  unfoldable pub remove_docker_proxy : Text → World → World
  remove_docker_proxy name w = (docker.service_remove name w).1
