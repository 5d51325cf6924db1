-- ===== src/Core/Applications/Samples.antt =====
-- Applications, requests and states of the database for the examples.
use newrr.Common.{ℕ, false, [], ◌∷◌, some, Text, text}
use newrr.Common.Integers.{pos}
use newrr.Core.Deployments.{Deployment, zero_deployment, image, deployed}
use newrr.Core.Applications.Models.{Application, EnvironmentVariable, DockerProxyConfig, replicated}
use newrr.Core.Applications.Memory.{Memory}

abbrev pub no_proxy : DockerProxyConfig
no_proxy = record {
  enabled = false;
  permission = record {
    ping = text "read";
    version = text "none";
    info = text "none";
    events = text "none";
    auth = text "none";
    secrets = text "none";
    build = text "none";
    commit = text "none";
    configs = text "none";
    containers = text "none";
    distribution = text "none";
    exec = text "none";
    grpc = text "none";
    images = text "none";
    networks = text "none";
    nodes = text "none";
    plugins = text "none";
    services = text "none";
    session = text "none";
    swarm = text "none";
    system = text "none";
    tasks = text "none";
    volumes = text "none";
  };
}

abbrev pub running : Deployment
running = record zero_deployment {
  id = text "d1";
  application_id = text "a1";
  upstream_type = image;
  docker_image = text "nginx:1.27";
  status = deployed;
}

abbrev pub site : Application
site = record {
  id = text "a1";
  name = text "site";
  application_group_id = some (text "g1");
  environment_variables = [];
  config_mounts = [];
  persistent_volume_bindings = [];
  deployment_mode = replicated;
  replicas = 2;
  latest_deployment = running;
  command = [];
  capabilities = [];
  sysctls = [];
  resource_limit_memory_mb = pos 64;
  reserved_resource_memory_mb = pos 0;
  is_deleted = false;
  webhook_token = text "w";
  is_sleeping = false;
  preferred_server_hostnames = text "node-1" ∷ [];
  custom_health_check = record {
    enabled = false;
    test_command = [];
    interval_seconds = 10;
    timeout_seconds = 5;
    start_period_seconds = 5;
    start_interval_seconds = 5;
    retries = 0;
  };
  docker_proxy = no_proxy;
}

abbrev pub variable : ℕ → Text → Text → EnvironmentVariable
variable i k v = record { id = i; application_id = text "a1"; key = k; value = v }

abbrev pub start : Memory
start = record {
  applications = site ∷ [];
  groups = record { id = text "g1"; name = text "web" } ∷ [];
  variables = variable 1 (text "PORT") (text "80") ∷ [];
  mounts = [];
  bindings = [];
  deployments = running ∷ [];
  rules = [];
}

-- The request changes PORT and brings a variable with it.
abbrev pub request : Application
request = record site {
  environment_variables =
      variable 0 (text "PORT") (text "8080") ∷ variable 0 (text "MODE") (text "a") ∷ [];
}

-- The request is what is there already.
abbrev pub same_request : Application
same_request = record site { environment_variables = variable 0 (text "PORT") (text "80") ∷ [] }

abbrev pub after_request : Memory
after_request = record start {
  variables = variable 2 (text "MODE") (text "a") ∷ variable 1 (text "PORT") (text "8080") ∷ [];
}
