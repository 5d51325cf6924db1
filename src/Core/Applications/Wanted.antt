-- ===== src/Core/Applications/Wanted.antt =====
-- The rows of an application after an Update that succeeds.
use newrr.Common.{
  ℕ, ◌≡◌, refl, ==_iff, arith, Bool, true, List, [], ◌∷◌, All, Text, text_eq, text_eq_iff,
  text_eq_refl, Map, insert,
}
use newrr.Core.Reconcile.Steps.{Held}
use newrr.Core.Database.{Table, Apart, IsTable}
use newrr.Core.Reconcile.Wanted.{HasUniqueKeys, insert-HasUniqueKeys}
use newrr.Core.Reconcile.Rows.{IsKind}
use newrr.Core.Applications.Models.{
  Application, EnvironmentVariable, ConfigMount, PersistentVolumeBinding,
}
use newrr.Core.Applications.Store.{Store}
use newrr.Core.Applications.Updates.{
  MountValue, mount_value, same_mount, variable_kind, mount_kind, binding_kind, variable_map,
  mount_map,
}

pub variable_map-HasUniqueKeys :
    (xs : List EnvironmentVariable) (m : Map Text)
    → HasUniqueKeys m
    → HasUniqueKeys (variable_map xs m)
variable_map-HasUniqueKeys [] m u = u
variable_map-HasUniqueKeys (x ∷ xs) m u =
    variable_map-HasUniqueKeys xs (insert x.key x.value m) (insert-HasUniqueKeys x.key x.value m u)

pub mount_map-HasUniqueKeys :
    (xs : List ConfigMount) (m : Map MountValue) → HasUniqueKeys m → HasUniqueKeys (mount_map xs m)
mount_map-HasUniqueKeys [] m u = u
mount_map-HasUniqueKeys (x ∷ xs) m u =
    mount_map-HasUniqueKeys xs (insert x.mounting_path (mount_value x) m)
      (insert-HasUniqueKeys x.mounting_path (mount_value x) m u)

-- The map of the wanted volumes, by mounting path.
abbrev pub volume_map : List PersistentVolumeBinding → Map ℕ → Map ℕ
volume_map [] m = m
volume_map (b ∷ bs) m = volume_map bs (insert b.mounting_path b.persistent_volume_id m)

pub volume_map-HasUniqueKeys :
    (bs : List PersistentVolumeBinding) (m : Map ℕ)
    → HasUniqueKeys m
    → HasUniqueKeys (volume_map bs m)
volume_map-HasUniqueKeys [] m u = u
volume_map-HasUniqueKeys (b ∷ bs) m u =
    volume_map-HasUniqueKeys bs (insert b.mounting_path b.persistent_volume_id m)
      (insert-HasUniqueKeys b.mounting_path b.persistent_volume_id m u)

abbrev pub variable_of : Text → EnvironmentVariable → Bool
variable_of id x = text_eq x.application_id id

abbrev pub mount_of : Text → ConfigMount → Bool
mount_of id x = text_eq x.application_id id

abbrev pub binding_of : Text → PersistentVolumeBinding → Bool
binding_of id x = text_eq x.application_id id

-- A row that is in its table, and of which a test holds.
abbrev pub There : {D R : Type 0} → Table D R → (R → Bool) → D → R → Type 0
There t mine d x = Held t x d × (mine x ≡ true)

-- What the database documents of the three tables, of the applications and of the deployments:
-- keys, and which rows a call on one of them leaves as they are.
pub record IsStore {D : Type 0} (s : Store D) : Type 0 where
  pub variables-IsTable : IsTable s.environment_variables
  pub mounts-IsTable : IsTable s.config_mounts
  pub bindings-IsTable : IsTable s.bindings
  pub variable_id : (x : EnvironmentVariable) → s.environment_variables.id_of x ≡ x.id
  pub variable_with_id :
      (i : ℕ) (x : EnvironmentVariable) → s.environment_variables.with_id i x ≡ record x { id = i }
  pub mount_id : (x : ConfigMount) → s.config_mounts.id_of x ≡ x.id
  pub mount_with_id : (i : ℕ) (x : ConfigMount) → s.config_mounts.with_id i x ≡ record x { id = i }
  pub binding_id : (x : PersistentVolumeBinding) → s.bindings.id_of x ≡ x.id
  pub binding_with_id :
      (i : ℕ) (x : PersistentVolumeBinding) → s.bindings.with_id i x ≡ record x { id = i }
  -- Named columns are written, and nothing else.
  pub applications-variables :
      (i : Text) (f : Application → Application) (d : D)
      → s.environment_variables.rows (s.applications.update i f d).0
        ≡ s.environment_variables.rows d
  pub applications-mounts :
      (i : Text) (f : Application → Application) (d : D)
      → s.config_mounts.rows (s.applications.update i f d).0 ≡ s.config_mounts.rows d
  pub applications-bindings :
      (i : Text) (f : Application → Application) (d : D)
      → s.bindings.rows (s.applications.update i f d).0 ≡ s.bindings.rows d
  -- With preloaded rows only if those are all there and the application's.
  pub full-variables :
      (a : Application) (f : Application → Application) (d : D)
      → All (There s.environment_variables (variable_of a.id) d) a.environment_variables
      → s.environment_variables.rows (s.update_full a f d).0 ≡ s.environment_variables.rows d
  pub full-mounts :
      (a : Application) (f : Application → Application) (d : D)
      → All (There s.config_mounts (mount_of a.id) d) a.config_mounts
      → s.config_mounts.rows (s.update_full a f d).0 ≡ s.config_mounts.rows d
  pub full-bindings :
      (a : Application) (f : Application → Application) (d : D)
      → All (There s.bindings (binding_of a.id) d) a.persistent_volume_bindings
      → s.bindings.rows (s.update_full a f d).0 ≡ s.bindings.rows d
  pub mounts-variables : Apart s.config_mounts s.environment_variables
  pub bindings-variables : Apart s.bindings s.environment_variables
  pub deployments-variables : Apart s.deployments s.environment_variables
  pub variables-mounts : Apart s.environment_variables s.config_mounts
  pub bindings-mounts : Apart s.bindings s.config_mounts
  pub deployments-mounts : Apart s.deployments s.config_mounts
  pub variables-bindings : Apart s.environment_variables s.bindings
  pub mounts-bindings : Apart s.config_mounts s.bindings
  pub deployments-bindings : Apart s.deployments s.bindings

module _ {D : Type 0} (s : Store D) (l : IsStore s) (id : Text) where
  pub variable-IsKind : IsKind s.environment_variables (variable_kind id) (variable_of id)
  variable-IsKind = record {
    same_sound = λ v w. (text_eq_iff v w).0;
    same_refl = text_eq_refl;
    write-id = λ v x. ground (arith, l.variable_id x, l.variable_id (record x { value = v }));
    write-key = λ v x. refl;
    write-value = λ v x. refl;
    write-mine = λ v x. refl;
    fresh-key = λ i j v. rw (l.variable_with_id i ((variable_kind id).fresh j v));
    fresh-value = λ i j v. rw (l.variable_with_id i ((variable_kind id).fresh j v));
    fresh-mine =
        λ i j v. rw (l.variable_with_id i ((variable_kind id).fresh j v)) (text_eq_refl id);
  }

  same_mount_sound : (v w : MountValue) → same_mount v w ≡ true → v ≡ w
  same_mount_sound v w h = ground (arith, text_eq_iff v.content w.content)

  pub mount-IsKind : IsKind s.config_mounts (mount_kind id) (mount_of id)
  mount-IsKind = record {
    same_sound = same_mount_sound;
    same_refl = λ v. ground (arith, text_eq_refl v.content);
    write-id = λ v x. ground (arith, l.mount_id x, l.mount_id ((mount_kind id).write v x));
    write-key = λ v x. refl;
    write-value = λ v x. refl;
    write-mine = λ v x. refl;
    fresh-key = λ i j v. rw (l.mount_with_id i ((mount_kind id).fresh j v));
    fresh-value = λ i j v. rw (l.mount_with_id i ((mount_kind id).fresh j v));
    fresh-mine = λ i j v. rw (l.mount_with_id i ((mount_kind id).fresh j v)) (text_eq_refl id);
  }

  pub binding-IsKind : IsKind s.bindings (binding_kind id) (binding_of id)
  binding-IsKind = record {
    same_sound = λ v w. (==_iff v w).0;
    same_refl = λ v. (==_iff v v).1 refl;
    write-id =
        λ v x. ground (arith, l.binding_id x, l.binding_id (record x { persistent_volume_id = v }));
    write-key = λ v x. refl;
    write-value = λ v x. refl;
    write-mine = λ v x. refl;
    fresh-key = λ i j v. rw (l.binding_with_id i ((binding_kind id).fresh j v));
    fresh-value = λ i j v. rw (l.binding_with_id i ((binding_kind id).fresh j v));
    fresh-mine = λ i j v. rw (l.binding_with_id i ((binding_kind id).fresh j v)) (text_eq_refl id);
  }
