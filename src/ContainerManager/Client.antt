-- ===== src/ContainerManager/Client.antt =====
-- The Docker client that container_manager calls, as far as it calls it.
-- A specification holds the fields of swarm.ServiceSpec that the modelled functions read or write.
use newrr.Common.{ℕ, Bool, Option, List, Text, ◌⊎◌}

pub record Mount : Type 0 where
  pub bind : Bool
  pub source : Text
  pub target : Text
  pub read_only : Bool

pub record ContainerSpec : Type 0 where
  pub image : Text
  pub command : List Text
  pub env : List Text
  pub mounts : List Mount
  pub no_new_privileges : Bool
  pub capability_add : List Text
  pub sysctls : List (Text × Text)

-- `none` is a nil pointer; `replicated` is nil for a global service.
pub record ServiceSpec : Type 0 where
  pub name : Text
  pub container_spec : Option ContainerSpec
  pub placement : Option (List Text)
  pub reservation_memory : ℕ
  pub limit_memory : ℕ
  pub networks : List Text
  pub replicated : Option ℕ
  pub dns_round_robin : Bool
  pub force_update : ℕ

-- swarm.Service, as ServiceInspectWithRaw returns it.
pub record ServiceData : Type 0 where
  pub version : ℕ
  pub spec : ServiceSpec
  pub previous_spec : Option ServiceSpec

-- A request may fail with an error's text, and the cluster goes on meanwhile.
pub record DockerClient (World : Type 0) : Type 0 where
  pub service_inspect : Text → World → (Text ⊎ ServiceData) × World
  pub service_update : Text → ℕ → ServiceSpec → World → Option Text × World
  pub service_create : ServiceSpec → World → Option Text × World
  pub service_remove : Text → World → Option Text × World
