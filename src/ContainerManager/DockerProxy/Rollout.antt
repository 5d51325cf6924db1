-- ===== src/ContainerManager/DockerProxy/Rollout.antt =====
-- CreateDockerProxy of container_manager/docker_proxy.go: what a success stands for.
use mathlib.Core.List.{Subset}
use newrr.Common.{
  ◌≡◌, refl, subst, Bool, true, false, Bool-cases, Option, none, some, inl, inr, ◌⊎◌, List, [], ◌∷◌,
  ◌++◌, length, ok, Text, text, arith,
}
use newrr.Common.Run.{returns}
use newrr.ContainerManager.Client.{ServiceSpec, ServiceData, ContainerSpec, Mount, DockerClient}
use newrr.ContainerManager.Updates.{sends, max_retries_for_version_conflict}
use newrr.ContainerManager.Updates.Loop.{Written, update_loop-Written}
use newrr.ContainerManager.DockerProxy.{
  DockerProxyConfig, DockerProxyPermission, environment_variables, proxy_spec, is_update,
  env_differs, constraints_differ, differs, roll_out, create_docker_proxy, created, reads, writes,
}
use newrr.ContainerManager.DockerProxy.Environment.{
  Resource, permission_of, read_key, write_key, env_lookup, digit, decided_by, environment_exact,
}
use newrr.ContainerManager.DockerProxy.Lists.{is_same_list_iff}

-- As many entries as in the other list, each of which is there.
abbrev pub Within : List Text → List Text → Type 0
Within a b = (length a ≡ length b) × Subset a b

-- Where the service has a list to compare, it is within the wanted one.
abbrev pub Passes : Option (List Text) → List Text → Type 0
Passes o wanted = (a : List Text) → o ≡ some a → Within a wanted

abbrev pub env_of : Option ContainerSpec → Option (List Text)
env_of none = none
env_of (some c) = some c.env

-- A service that passes for the wanted one.
pub record Matches (env constraints : List Text) (found : ServiceData) : Type 0 where
  pub environment : Passes (env_of found.spec.container_spec) env
  pub placement : Passes found.spec.placement constraints

-- What the proxy is: the image with the permissions in its environment, and the Docker socket for
-- reading only.
pub record IsProxyContainer (p : DockerProxyPermission) (c : ContainerSpec) : Type 0 where
  pub image : c.image ≡ text "ghcr.io/swiftwave-org/docker-socket-proxy:latest"
  pub no_command : c.command ≡ []
  pub readable :
      (r : Resource)
      → env_lookup (read_key r) c.env
        ≡ some (read_key r ++ text "=" ++ digit (reads (permission_of (decided_by r) p)))
  pub writable :
      (r : Resource)
      → env_lookup (write_key r) c.env
        ≡ some (write_key r ++ text "=" ++ digit (writes (permission_of (decided_by r) p)))
  pub entries : length c.env ≡ 46
  pub mount : Mount
  pub one_mount : c.mounts ≡ mount ∷ []
  pub socket :
      (mount.source ≡ text "/var/run/docker.sock") × (mount.target ≡ text "/var/run/docker.sock")
  pub for_reading : (mount.bind ≡ true) × (mount.read_only ≡ true)
  pub capability : c.capability_add ≡ text "CAP_DAC_OVERRIDE" ∷ []

pub record IsProxySpec (name : Text) (p : DockerProxyPermission) (constraints : List Text)
    (network : Text) (s : ServiceSpec) : Type 0 where
  pub named : s.name ≡ name
  pub container : ContainerSpec
  pub contained : s.container_spec ≡ some container
  pub proxies : IsProxyContainer p container
  pub placed : s.placement ≡ some constraints
  pub attached : s.networks ≡ network ∷ []
  pub one_replica : s.replicated ≡ some 1
  pub round_robin : s.dns_round_robin ≡ true

entries_46 : (p : DockerProxyPermission) → length (environment_variables p) ≡ 46
unfolding environment_variables
entries_46 p = refl

proxy_spec-IsProxySpec :
    (name : Text) (p : DockerProxyPermission) (constraints : List Text) (network : Text)
    → IsProxySpec name p constraints network
        (proxy_spec name (environment_variables p) constraints network)
proxy_spec-IsProxySpec name p constraints network = record {
  named = refl;
  container = _;
  contained = refl;
  proxies = record {
    image = refl;
    no_command = refl;
    readable = λ r. (environment_exact r p).0;
    writable = λ r. (environment_exact r p).1;
    entries = entries_46 p;
    mount = _;
    one_mount = refl;
    socket = (refl, refl);
    for_reading = (refl, refl);
    capability = refl;
  };
  placed = refl;
  attached = refl;
  one_replica = refl;
  round_robin = refl;
}

some-Passes : (a b : List Text) → Within a b → Passes (some a) b
some-Passes a b w c e = let same : a ≡ c = cc in subst (λ z. Within z b) same w

env_differs-Passes :
    (o : Option ContainerSpec) (env : List Text)
    → (env_differs o env ≡ false → Passes (env_of o) env)
      × (env_differs o env ≡ true → ¬ (Passes (env_of o) env))
unfolding env_differs
env_differs-Passes none env = (λ h a e. absurd (ground (arith, e)), λ h p. ground arith)
env_differs-Passes (some c) env = (
  λ h. some-Passes c.env env ((is_same_list_iff c.env env).0 (ground arith)),
  λ h p. let s = (is_same_list_iff c.env env).1 (p c.env refl) in ground (arith, s, h),
)

constraints_differ-Passes :
    (o : Option (List Text)) (constraints : List Text)
    → (constraints_differ o constraints ≡ false → Passes o constraints)
      × (constraints_differ o constraints ≡ true → ¬ (Passes o constraints))
unfolding constraints_differ
constraints_differ-Passes none b = (λ h a e. absurd (ground (arith, e)), λ h p. ground arith)
constraints_differ-Passes (some a) b = (
  λ h. some-Passes a b ((is_same_list_iff a b).0 (ground arith)),
  λ h p. let s = (is_same_list_iff a b).1 (p a refl) in ground (arith, s, h),
)

-- The test for an update is a decision.
is_update-Matches :
    (env constraints : List Text) (found : ServiceData)
    → (is_update env constraints found ≡ false → Matches env constraints found)
      × (is_update env constraints found ≡ true → ¬ (Matches env constraints found))
unfolding is_update
is_update-Matches env constraints found =
    let e = env_differs-Passes found.spec.container_spec env in
    let c = constraints_differ-Passes found.spec.placement constraints in
    (
      λ h. record { environment = e.0 (ground arith); placement = c.0 (ground arith) },
      λ h m. elim (Bool-cases (env_differs found.spec.container_spec env)) [
        | inl t ↦ e.1 t m.environment
        | inr t ↦ c.1 (ground arith) m.placement
      ],
    )

module _ {World : Type 0} (docker : DockerClient World) (name : Text) (spec : ServiceSpec) where
  -- What a successful rollout has done: nothing, since the service passed for the wanted one;
  -- created the service, since none was found; or replaced its specification, since it did not.
  pub data Rolled (env constraints : List Text) (w w' : World) : Type 0 where
    kept :
        (found : ServiceData)
        → docker.service_inspect name w ≡ (inr found, w')
        → Matches env constraints found
        → Rolled env constraints w w'
    made :
        (message : Text) (v : World)
        → docker.service_inspect name w ≡ (inl message, v)
        → docker.service_create spec v ≡ (none, w')
        → Rolled env constraints w w'
    replaced :
        (found : ServiceData) (v : World)
        → docker.service_inspect name w ≡ (inr found, v)
        → ¬ (Matches env constraints found)
        → Written docker name (λ _. sends spec) w'
        → Rolled env constraints w w'

  created-none : (e : Option Text) → created docker e ≡ ok tt → e ≡ none
  created-none none h = refl
  created-none (some e) h = absurd (ground arith)

  roll_out-Rolled :
      (env constraints : List Text) (w v u : World) (answer : Text ⊎ ServiceData) (b : Bool)
      → docker.service_inspect name w ≡ (answer, v)
      → differs docker env constraints answer ≡ b
      → roll_out docker name spec answer b v ≡ returns (ok tt) u
      → Rolled env constraints w u
  roll_out-Rolled env constraints w v u (inl e) b i d q =
      made e v i (ground (arith, created-none (docker.service_create spec v).0 (ground arith)))
  roll_out-Rolled env constraints w v u (inr found) false i d q =
      kept found (ground arith) ((is_update-Matches env constraints found).0 d)
  roll_out-Rolled env constraints w v u (inr found) true i d q =
      replaced found v i ((is_update-Matches env constraints found).1 d)
        (update_loop-Written docker name (λ _. sends spec) u max_retries_for_version_conflict v q)

module _ {World : Type 0} (docker : DockerClient World) where
  -- A CreateDockerProxy that returns no error has, for one specification of the socket proxy (the
  -- name, the image, the 46 entries of the environment with the permissions that decide, the Docker
  -- socket mounted for reading only, the constraints, the network, one replica), done one of three
  -- things: found a service whose environment and constraints, where it has them, are as many as the
  -- wanted ones and among them, and changed nothing; found none, and created one with that
  -- specification; or found one that is not so, and replaced its specification by that one, for the
  -- version that it had read.
  pub create_docker_proxy-Rolled :
      (name : Text) (constraints : List Text) (config : DockerProxyConfig) (network : Text)
      (w u : World)
      → create_docker_proxy docker name constraints config network w ≡ returns (ok tt) u
      → (spec : ServiceSpec) × IsProxySpec name config.permission constraints network spec
        × Rolled docker name spec (environment_variables config.permission) constraints w u
  unfolding create_docker_proxy
  create_docker_proxy-Rolled name constraints config network w u q =
      let env = environment_variables config.permission in
      (
        proxy_spec name env constraints network,
        proxy_spec-IsProxySpec name config.permission constraints network,
        roll_out-Rolled docker name (proxy_spec name env constraints network) env constraints w
            (docker.service_inspect name w).1 u (docker.service_inspect name w).0
            (differs docker env constraints (docker.service_inspect name w).0) refl refl q,
      )
