-- ===== src/Core/Applications/Updates.antt =====
-- Update of swiftwave_service/core/application.operations.go.
use newrr.Common.{
  ℕ, Bool, true, false, not, ◌&&◌, ◌||◌, ◌==◌, ltb, if◌then◌else◌, List, [], ◌∷◌, length, any, Text,
  text_eq, Map, insert, Result, ok, err,
}
use newrr.Common.Integers.{same_int}
use newrr.Core.Queries.{Query, ◌>>=◌, ◌>>◌, answer, read, reject, on_error}
use newrr.Core.Reconcile.{Kind, reconcile}
use newrr.Core.Deployments
use newrr.Core.Deployments.{Deployment, DeploymentStatus, deployed, DeploymentUpdateResult}
use newrr.Core.Applications.Models.{
  Application, EnvironmentVariable, ConfigMount, PersistentVolumeBinding, replicated, same_mode,
  equal_proxy, equal_health_check,
}
use newrr.Core.Applications.Store.{Store}
use newrr.Core.Applications.Creation.{check_limits, check_servers, member}

pub record ApplicationUpdateResult : Type 0 where
  pub rebuild_required : Bool
  pub reload_required : Bool
  pub deployment_id : Text

-- The rows that Update brings in line: environment variables by their keys, the others by their
-- mounting paths.
abbrev pub variable_kind : Text → Kind EnvironmentVariable Text
variable_kind id = record {
  key_of = λ x. x.key;
  value_of = λ x. x.value;
  same = text_eq;
  write = λ v x. record x { value = v };
  fresh = λ j v. record { id = 0; application_id = id; key = j; value = v };
}

-- What Update compares of a config mount.
pub record MountValue : Type 0 where
  pub content : Text
  pub uid : ℕ
  pub gid : ℕ

abbrev pub mount_value : ConfigMount → MountValue
mount_value x = record { content = x.content; uid = x.uid; gid = x.gid }

abbrev pub same_mount : MountValue → MountValue → Bool
same_mount v w = text_eq v.content w.content && v.uid == w.uid && v.gid == w.gid

-- Its Update empties the ConfigID, so that the swarm makes the config anew.
abbrev pub mount_kind : Text → Kind ConfigMount MountValue
mount_kind id = record {
  key_of = λ x. x.mounting_path;
  value_of = mount_value;
  same = same_mount;
  write = λ v x. record x { content = v.content; uid = v.uid; gid = v.gid; config_id = [] };
  fresh = λ j v. record {
    id = 0;
    application_id = id;
    config_id = [];
    content = v.content;
    mounting_path = j;
    uid = v.uid;
    gid = v.gid;
    file_mode = 444;
  };
}

abbrev pub binding_kind : Text → Kind PersistentVolumeBinding ℕ
binding_kind id = record {
  key_of = λ x. x.mounting_path;
  value_of = λ x. x.persistent_volume_id;
  same = λ v w. v == w;
  write = λ v x. record x { persistent_volume_id = v };
  fresh =
      λ j v. record { id = 0; application_id = id; persistent_volume_id = v; mounting_path = j };
}

-- newEnvironmentVariableMap and newConfigMountMap: a later entry replaces an earlier one.
abbrev pub variable_map : List EnvironmentVariable → Map Text → Map Text
variable_map [] m = m
variable_map (x ∷ xs) m = variable_map xs (insert x.key x.value m)

abbrev pub mount_map : List ConfigMount → Map MountValue → Map MountValue
mount_map [] m = m
mount_map (x ∷ xs) m = mount_map xs (insert x.mounting_path (mount_value x) m)

-- isPreferredServerHostnameChanged
unfoldable pub hostnames_changed : List Text → List Text → Bool
unfolding text_eq
hostnames_changed new existing =
    not (length new == length existing) || any (λ h. not (any (λ e. text_eq h e) existing)) new

abbrev pub is_deployed : DeploymentStatus → Bool
is_deployed deployed = true
is_deployed _ = false

abbrev pub id_of_found : Result Deployment → Result Text
id_of_found (ok x) = ok x.id
id_of_found (err e) = err e

abbrev pub update_result : Bool → DeploymentUpdateResult → ApplicationUpdateResult
update_result reload made = record {
  rebuild_required = made.rebuild_required;
  reload_required = reload;
  deployment_id = made.deployment_id;
}

module _ {D : Type 0} (s : Store D) where
  -- newPersistentVolumeBindingMap, with an error where two volumes have one mounting path
  unfoldable pub binding_map : List PersistentVolumeBinding → List Text → Map ℕ → Query D (Map ℕ)
  binding_map [] used m = answer m
  binding_map (b ∷ bs) used m =
      reject (member b.mounting_path used) "duplicate mounting path found"
      >> binding_map bs (b.mounting_path ∷ used) (insert b.mounting_path b.persistent_volume_id m)

  -- IsApplicationDeleted
  unfoldable pub is_application_deleted : Text → Query D Bool
  unfolding text_eq
  is_application_deleted id =
      read (s.applications.count (λ x. text_eq x.id id && x.is_deleted)) >>= λ n. answer (ltb 0 n)

  -- Columns of the application are written, and it has to be reloaded, if they have changed.
  abbrev pub write_if : Bool → Query D (Unit {0}) → Bool → Query D Bool
  write_if changed write reload = if changed then write >> answer true else answer reload

  -- db.Model(&applicationExistingFull).Update(column, value): the model has the preloaded rows.
  unfoldable pub update_columns : Application → Application → Bool → Query D Bool
  unfolding text_eq
  update_columns x existing reload =
      write_if (not (same_mode existing.deployment_mode x.deployment_mode))
        (s.update_full existing (λ a. record a { deployment_mode = x.deployment_mode })) reload
      >>= write_if (not (text_eq existing.command x.command))
          (s.update_full existing (λ a. record a { command = x.command }))
      >>= write_if (same_mode x.deployment_mode replicated && not (existing.replicas == x.replicas))
          (s.update_full existing (λ a. record a { replicas = x.replicas }))

  unfoldable pub update_limits : Application → Application → Bool → Query D Bool
  update_limits x existing =
      write_if
        (not (same_int existing.resource_limit_memory_mb x.resource_limit_memory_mb)
          || not (same_int existing.reserved_resource_memory_mb x.reserved_resource_memory_mb))
        (s.update_full existing
            (λ a. record a { resource_limit_memory_mb = x.resource_limit_memory_mb })
          >> s.update_full existing
              (λ a. record a { reserved_resource_memory_mb = x.reserved_resource_memory_mb }))

  -- The last two name their columns by Select, so that gorm writes no other rows.
  unfoldable pub update_settings : Application → Application → Bool → Query D Bool
  unfolding hostnames_changed equal_proxy equal_health_check
  update_settings x existing reload =
      write_if (hostnames_changed x.preferred_server_hostnames existing.preferred_server_hostnames)
        (s.update_full existing
          (λ a. record a { preferred_server_hostnames = x.preferred_server_hostnames }))
        reload
      >>= write_if (not (equal_proxy x.docker_proxy existing.docker_proxy))
          (s.applications.update existing.id (λ a. record a { docker_proxy = x.docker_proxy }))
      >>= write_if (not (equal_health_check x.custom_health_check existing.custom_health_check)) (
          s.applications.update existing.id
            (λ a. record a { custom_health_check = x.custom_health_check }))

  -- What Update checks before it reads the application.
  unfoldable pub check_update : Application → Query D (Unit {0})
  unfolding is_application_deleted check_limits check_servers
  check_update x = do
    deleted ← is_application_deleted x.id
    reject deleted "application is deleted"
    check_limits x
    check_servers s x.preferred_server_hostnames
    reject (x.docker_proxy.enabled && not (length x.preferred_server_hostnames == 1))
        "you must select preferred servers for deployment to get access to docker proxy"

  -- The application with the rows that gorm preloads.
  unfoldable pub fetch_full : Text → Query D Application
  unfolding text_eq
  fetch_full id = do
    existing ← read (s.applications.first (λ x. text_eq x.id id))
    variables ← read (s.environment_variables.find (λ x. text_eq x.application_id id))
    mounts ← read (s.config_mounts.find (λ x. text_eq x.application_id id))
    bound ← read (s.bindings.find (λ x. text_eq x.application_id id))
    answer (record existing {
      environment_variables = variables;
      config_mounts = mounts;
      persistent_volume_bindings = bound;
    })

  -- FindCurrentDeployedDeploymentIDByApplicationId, and FindLatestDeploymentIDByApplicationId where
  -- that fails
  unfoldable pub current_deployment_id : Text → Query D Text
  unfolding text_eq
  current_deployment_id id =
      on_error
        (read (λ d.
          id_of_found
            (s.newest_deployment (λ y. text_eq y.application_id id && is_deployed y.status) d)))
        (read (λ d. id_of_found (s.newest_deployment (λ y. text_eq y.application_id id) d)))

  -- The rows of the three other tables, in the order of the code.
  unfoldable pub update_rows : Application → Application → Bool → Query D Bool
  update_rows x existing reload = do
    a ←
        reconcile s.environment_variables (variable_kind x.id) existing.environment_variables
          (variable_map x.environment_variables []) reload
    b ←
        reconcile s.config_mounts (mount_kind x.id) existing.config_mounts
          (mount_map x.config_mounts []) a
    wanted ← binding_map x.persistent_volume_bindings [] []
    reconcile s.bindings (binding_kind x.id) existing.persistent_volume_bindings wanted b

  -- The latest deployment is updated under the identifier of the current one.
  abbrev pub update_current : Text → Application → Bool → Text → Query D ApplicationUpdateResult
  update_current uuid x reload current =
      Deployments.update s.deployments uuid (record x.latest_deployment { id = current })
      >>= λ made. answer (update_result reload made)

  unfoldable pub update_deployment : Text → Application → Bool → Query D ApplicationUpdateResult
  update_deployment uuid x reload = current_deployment_id x.id >>= update_current uuid x reload

  unfoldable pub update_existing :
      Text → Application → Application → Query D ApplicationUpdateResult
  unfolding update_columns update_limits update_rows update_settings update_deployment
  update_existing uuid x existing = do
    a ← update_columns x existing false
    b ← update_limits x existing a
    c ← update_rows x existing b
    e ← update_settings x existing c
    update_deployment uuid x e

  -- Update; `uuid` is what uuid.NewString() returns if there is a new deployment.
  unfoldable pub update : Text → Application → Query D ApplicationUpdateResult
  unfolding check_update fetch_full update_existing
  update uuid x = check_update x >> fetch_full x.id >>= update_existing uuid x
