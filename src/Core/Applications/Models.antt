-- ===== src/Core/Applications/Models.antt =====
-- The records of applications in swiftwave_service/core/models.go and core/types.go, with their
-- methods in core/utils.go. The kinds of permission are the texts of the code.
use newrr.Common.{
  ℕ, Bool, true, false, ◌&&◌, ◌==◌, if◌then◌else◌, Option, List, Text, text_eq, text, ◌++◌,
}
use newrr.Common.Integers.{ℤ}
use newrr.Core.Deployments.{Deployment}

pub record DockerProxyPermission : Type 0 where
  pub ping : Text
  pub version : Text
  pub info : Text
  pub events : Text
  pub auth : Text
  pub secrets : Text
  pub build : Text
  pub commit : Text
  pub configs : Text
  pub containers : Text
  pub distribution : Text
  pub exec : Text
  pub grpc : Text
  pub images : Text
  pub networks : Text
  pub nodes : Text
  pub plugins : Text
  pub services : Text
  pub session : Text
  pub swarm : Text
  pub system : Text
  pub tasks : Text
  pub volumes : Text

pub record DockerProxyConfig : Type 0 where
  pub enabled : Bool
  pub permission : DockerProxyPermission

-- b == c on bool
abbrev pub same_bool : Bool → Bool → Bool
same_bool true c = c
same_bool false true = false
same_bool false false = true

-- (*DockerProxyConfig).Equal
unfoldable pub equal_proxy : DockerProxyConfig → DockerProxyConfig → Bool
unfolding text_eq
equal_proxy d other =
    same_bool d.enabled other.enabled
    && text_eq d.permission.ping other.permission.ping
    && text_eq d.permission.version other.permission.version
    && text_eq d.permission.info other.permission.info
    && text_eq d.permission.events other.permission.events
    && text_eq d.permission.auth other.permission.auth
    && text_eq d.permission.secrets other.permission.secrets
    && text_eq d.permission.build other.permission.build
    && text_eq d.permission.commit other.permission.commit
    && text_eq d.permission.configs other.permission.configs
    && text_eq d.permission.containers other.permission.containers
    && text_eq d.permission.distribution other.permission.distribution
    && text_eq d.permission.exec other.permission.exec
    && text_eq d.permission.grpc other.permission.grpc
    && text_eq d.permission.images other.permission.images
    && text_eq d.permission.networks other.permission.networks
    && text_eq d.permission.nodes other.permission.nodes
    && text_eq d.permission.plugins other.permission.plugins
    && text_eq d.permission.services other.permission.services
    && text_eq d.permission.session other.permission.session
    && text_eq d.permission.swarm other.permission.swarm
    && text_eq d.permission.system other.permission.system
    && text_eq d.permission.tasks other.permission.tasks
    && text_eq d.permission.volumes other.permission.volumes

pub record ApplicationCustomHealthCheck : Type 0 where
  pub enabled : Bool
  pub test_command : Text
  pub interval_seconds : ℕ
  pub timeout_seconds : ℕ
  pub start_period_seconds : ℕ
  pub start_interval_seconds : ℕ
  pub retries : ℕ

-- (*ApplicationCustomHealthCheck).Equal
unfoldable pub equal_health_check :
    ApplicationCustomHealthCheck → ApplicationCustomHealthCheck → Bool
unfolding text_eq
equal_health_check c other =
    same_bool c.enabled other.enabled
    && text_eq c.test_command other.test_command
    && c.interval_seconds == other.interval_seconds
    && c.timeout_seconds == other.timeout_seconds
    && c.start_period_seconds == other.start_period_seconds
    && c.start_interval_seconds == other.start_interval_seconds
    && c.retries == other.retries

pub record EnvironmentVariable : Type 0 where
  pub id : ℕ
  pub application_id : Text
  pub key : Text
  pub value : Text

pub record ConfigMount : Type 0 where
  pub id : ℕ
  pub application_id : Text
  pub config_id : Text
  pub content : Text
  pub mounting_path : Text
  pub uid : ℕ
  pub gid : ℕ
  pub file_mode : ℕ

pub record PersistentVolumeBinding : Type 0 where
  pub id : ℕ
  pub application_id : Text
  pub persistent_volume_id : ℕ
  pub mounting_path : Text

pub record ApplicationGroup : Type 0 where
  pub id : Text
  pub name : Text

pub data DeploymentMode : Type 0 where
  replicated : DeploymentMode
  global : DeploymentMode
  other_mode : Text → DeploymentMode

abbrev pub same_mode : DeploymentMode → DeploymentMode → Bool
same_mode replicated replicated = true
same_mode global global = true
same_mode (other_mode s) (other_mode t) = text_eq s t
same_mode _ _ = false

-- An application, with the rows of other tables that its methods read from it.
pub record Application : Type 0 where
  pub id : Text
  pub name : Text
  pub application_group_id : Option Text
  pub environment_variables : List EnvironmentVariable
  pub config_mounts : List ConfigMount
  pub persistent_volume_bindings : List PersistentVolumeBinding
  pub deployment_mode : DeploymentMode
  pub replicas : ℕ
  pub latest_deployment : Deployment
  pub command : Text
  pub capabilities : List Text
  pub sysctls : List Text
  pub resource_limit_memory_mb : ℤ
  pub reserved_resource_memory_mb : ℤ
  pub is_deleted : Bool
  pub webhook_token : Text
  pub is_sleeping : Bool
  pub preferred_server_hostnames : List Text
  pub custom_health_check : ApplicationCustomHealthCheck
  pub docker_proxy : DockerProxyConfig

-- ReplicaCount
unfoldable pub replica_count : Application → ℕ
replica_count x = if x.is_sleeping then 0 else x.replicas

-- DockerProxyServiceName
unfoldable pub docker_proxy_service_name : Application → Text
docker_proxy_service_name x = x.id ++ text "-dp"
