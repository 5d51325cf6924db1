-- ===== src/ContainerManager/Examples.antt =====
-- Runs against a cluster with one service at most, which answers so many updates with a conflict.
use mathlib.Core.List.{Nodup, Perm, not-mem-nil, mem-cons, Nodup-cons}
use mathlib.Core.List.Pairwise
use mathlib.Core.Logic.Or
use mathlib.Core.HLevel.{⊥_prop}
use newrr.Common.{
  arith, ℕ, zero, suc, ◌+◌, ◌≤◌, ◌≡◌, ◌↔◌, refl, true, false, [], ◌∷◌, Option, none, some, Text,
  text, inl, inr, ◌⊎◌,
}
use newrr.Common.Run.{final}
use newrr.ContainerManager.Client.{ServiceSpec, ServiceData, DockerClient}
use newrr.ContainerManager.Updates.{attempt, restart_service}
use newrr.ContainerManager.Updates.Loop.{Counts, Written}
use newrr.ContainerManager.Updates.Services.{
  restarts, change, sent_by, updates_at_most_six, success_is_Written,
}
use newrr.ContainerManager.DockerProxy.{
  DockerProxyPermission, none_permission, read_write_permission, environment_variables,
  is_same_list, create_docker_proxy, proxy_spec,
}
use newrr.ContainerManager.DockerProxy.Environment.{
  Resource, permission_of, read_key, write_key, env_lookup, digit, decided_by, environment_exact,
  environment_iff,
}
use newrr.ContainerManager.DockerProxy.Environment
use newrr.ContainerManager.DockerProxy.Lists.{is_same_list-perm}
use newrr.ContainerManager.DockerProxy.Rollout.{Rolled, IsProxySpec, create_docker_proxy-Rolled}

record Cluster : Type 0 where
  pub service : Option ServiceData
  pub conflicts : ℕ
  pub updates : ℕ

abbrev inspected : Option ServiceData → Text ⊎ ServiceData
inspected none = inl (text "not found")
inspected (some s) = inr s

abbrev updated : ℕ → ServiceSpec → Cluster → Option Text × Cluster
updated zero spec c = (
  none,
  record c {
    service = some (record { version = 9; spec = spec; previous_spec = none });
    updates = c.updates + 1;
  },
)
updated (suc n) spec c =
    (some (text "update out of sequence"), record c { conflicts = n; updates = c.updates + 1 })

abbrev docker : DockerClient Cluster
docker = record {
  service_inspect = λ name c. (inspected c.service, c);
  service_update = λ name version spec c. updated c.conflicts spec c;
  service_create = λ spec c. (
    none,
    record c { service = some (record { version = 1; spec = spec; previous_spec = none }) },
  );
  service_remove = λ name c. (none, record c { service = none });
}

abbrev web : ServiceSpec
web = record {
  name = text "web";
  container_spec = none;
  placement = none;
  reservation_memory = 0;
  limit_memory = 0;
  networks = [];
  replicated = none;
  dns_round_robin = false;
  force_update = 3;
}

abbrev running : ServiceData
running = record { version = 4; spec = web; previous_spec = none }

abbrev contended : Cluster
contended = record { service = some running; conflicts = 1; updates = 0 }

abbrev quiet : Cluster
quiet = record { service = some running; conflicts = 0; updates = 0 }

counted : Counts docker (λ c. c.updates)
counted = record {
  at_inspect = λ name c. refl;
  at_update = λ name v spec c. one_more spec c.conflicts c;
}
  where
    one_more :
        (spec : ServiceSpec) (n : ℕ) (c : Cluster) → (updated n spec c).1.updates ≡ c.updates + 1
    one_more spec zero c = refl
    one_more spec (suc n) c = refl

abbrev after_restart : Cluster
after_restart = record {
  service =
      some (record { version = 9; spec = record web { force_update = 4 }; previous_spec = none });
  conflicts = 0;
  updates = 1;
}

updates_at_most_six_example : (final (change docker restarts (text "web") contended)).updates ≤ 6
updates_at_most_six_example =
    updates_at_most_six docker (λ c. c.updates) counted restarts (text "web") contended

success_is_Written_example : Written docker (text "web") (sent_by restarts) after_restart
unfolding restart_service attempt
success_is_Written_example =
    success_is_Written docker restarts (text "web") quiet after_restart refl

abbrev closed : DockerProxyPermission
closed = record {
  ping = none_permission;
  version = none_permission;
  info = none_permission;
  events = none_permission;
  auth = none_permission;
  secrets = none_permission;
  build = none_permission;
  commit = none_permission;
  configs = none_permission;
  containers = none_permission;
  distribution = none_permission;
  exec = none_permission;
  grpc = none_permission;
  images = none_permission;
  networks = none_permission;
  nodes = none_permission;
  plugins = none_permission;
  services = none_permission;
  session = none_permission;
  swarm = none_permission;
  system = none_permission;
  tasks = none_permission;
  volumes = none_permission;
}

abbrev executing : DockerProxyPermission
executing = record closed { exec = read_write_permission }

-- The right to execute opens the images.
environment_exact_example :
    (env_lookup (text "IMAGES_READ") (environment_variables executing)
      ≡ some (text "IMAGES_READ=1"))
    × (env_lookup (text "IMAGES_WRITE") (environment_variables executing)
        ≡ some (text "IMAGES_WRITE=1"))
environment_exact_example = environment_exact Environment.images executing

environment_iff_example : (environment_variables closed ≡ environment_variables executing) ↔ (
    (r : Resource) → permission_of (decided_by r) closed ≡ permission_of (decided_by r) executing)
environment_iff_example = environment_iff closed executing

distinct : Nodup (text "a" ∷ text "b" ∷ [])
distinct = Nodup-cons.1 (
  (λ m. Or.elim (⊥_prop) (mem-cons.0 m) (λ e. ground arith) (λ n. not-mem-nil n)),
  Nodup-cons.1 (not-mem-nil, Pairwise.nil),
)

is_same_list-perm_example :
    (is_same_list (text "a" ∷ text "b" ∷ []) (text "b" ∷ text "a" ∷ []) ≡ true)
    ↔ Perm (text "a" ∷ text "b" ∷ []) (text "b" ∷ text "a" ∷ [])
is_same_list-perm_example =
    is_same_list-perm (text "a" ∷ text "b" ∷ []) (text "b" ∷ text "a" ∷ []) distinct

abbrev bare : Cluster
bare = record { service = none; conflicts = 0; updates = 0 }

abbrev proxied : Cluster
proxied = record bare {
  service = some (record {
    version = 1;
    spec = proxy_spec (text "proxy") (environment_variables executing) [] (text "net");
    previous_spec = none;
  });
}

create_docker_proxy-Rolled_example :
    (spec : ServiceSpec) × IsProxySpec (text "proxy") executing [] (text "net") spec
    × Rolled docker (text "proxy") spec (environment_variables executing) [] bare proxied
create_docker_proxy-Rolled_example =
    create_docker_proxy-Rolled docker (text "proxy") [] (record { permission = executing })
      (text "net") bare proxied (unfold create_docker_proxy in refl)
