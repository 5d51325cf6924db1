-- ===== src/Core/Applications/Memory.antt =====
-- Tables with textual keys in memory, and a store of applications that is made of such tables.
use newrr.Common.{
  arith, ℕ, ◌≤◌, ◌==◌, Bool, true, false, any, All, not, ◌≡◌, refl, List, [], ◌∷◌, ◌++◌, count, map,
  select, Result, ok, err, record_not_found, if◌then◌else◌, Text, text, text_eq,
}
use newrr.Core.Memory.{table, table-IsTable, first_of, first_of-ok, count-map, count-select}
use newrr.Core.Database.{Table}
use newrr.Core.Models.{IngressRule}
use newrr.Core.Deployments.{Deployment}
use newrr.Core.Applications.Models.{
  Application, ApplicationGroup, EnvironmentVariable, ConfigMount, PersistentVolumeBinding,
}
use newrr.Core.Applications.Store.{NamedTable, IsNamedTable, FirstOf, Store}
use newrr.Core.Applications.Wanted.{There, IsStore, variable_of, mount_of, binding_of}
use newrr.Core.Applications.Groups.{IsNamedStore}
use newrr.Core.Applications.Unique.{KeepsApplications}

module _ {D R : Type 0} (rows : D → List R) (put : List R → D → D) (id_of : R → Text) where
  abbrev pub named_table : NamedTable D R
  named_table = record {
    rows = rows;
    id_of = id_of;
    count = λ p d. ok (count p (rows d));
    first = λ p d. first_of p (rows d);
    find = λ p d. ok (select p (rows d));
    create = λ x d. (put (x ∷ rows d) d, ok tt);
    update = λ i f d. (put (map (λ x. if text_eq (id_of x) i then f x else x) (rows d)) d, ok tt);
    delete = λ i d. (put (select (λ x. not (text_eq (id_of x) i)) (rows d)) d, ok tt);
  }

  module _ (rows-put : (xs : List R) (d : D) → rows (put xs d) ≡ xs) where
    first_of-FirstOf :
        (p : R → Bool) (d : D) (r : Result R) → first_of p (rows d) ≡ r → FirstOf named_table p r
    first_of-FirstOf p d (ok x) h = (first_of-ok p (rows d) x h).0
    first_of-FirstOf p d (err e) h = tt

    pub named_table-IsNamedTable : IsNamedTable named_table
    named_table-IsNamedTable = record {
      count-Counted = λ p d. refl;
      first-FirstOf = λ p d. first_of-FirstOf p d (first_of p (rows d)) refl;
      create-NamedCreated = λ x d p. rw (rows-put (x ∷ rows d) d) (omega arith);
      update-NamedUpdated = λ i f d p.
          rw (rows-put (map (λ x. if text_eq (id_of x) i then f x else x) (rows d)) d)
            (count-map p (λ x. if text_eq (id_of x) i then f x else x) (rows d));
      delete-NamedDeleted = λ i d p.
          rw (rows-put (select (λ x. not (text_eq (id_of x) i)) (rows d)) d)
            (count-select p (λ x. not (text_eq (id_of x) i)) (rows d));
    }

pub record Memory : Type 0 where
  pub applications : List Application
  pub groups : List ApplicationGroup
  pub variables : List EnvironmentVariable
  pub mounts : List ConfigMount
  pub bindings : List PersistentVolumeBinding
  pub deployments : List Deployment
  pub rules : List IngressRule

-- The rows of the first list that the second has not, before it.
abbrev pub rejoin : {R : Type 0} → (R → ℕ) → List R → List R → List R
rejoin id_of [] ys = ys
rejoin id_of (x ∷ xs) ys =
    let rest = rejoin id_of xs ys in if any (λ y. id_of y == id_of x) ys then rest else x ∷ rest

any-count : {R : Type 0} (p : R → Bool) (xs : List R) → 1 ≤ count p xs → any p xs ≡ true
any-count p [] h = absurd (omega arith)
any-count p (x ∷ xs) h = ground (arith, any-count p xs)

module _ {D R : Type 0} (t : Table D R) (mine : R → Bool) (d : D) where
  rejoin-There : (xs : List R) → All (There t mine d) xs → rejoin t.id_of xs (t.rows d) ≡ t.rows d
  rejoin-There [] h = refl
  rejoin-There (x ∷ xs) h =
      rw
        (any-count (λ y. t.id_of y == t.id_of x) (t.rows d)
          (h.0.0.present (λ y. t.id_of y == t.id_of x) (ground arith)))
        (rejoin-There xs h.1)

abbrev pub store : Store Memory
store = record {
  applications =
      named_table (λ d. d.applications) (λ xs d. record d { applications = xs }) (λ x. x.id);
  update_full = λ a f d. (
    record d {
      applications = map (λ x. if text_eq x.id a.id then f x else x) d.applications;
      variables = rejoin (λ x. x.id) a.environment_variables d.variables;
      mounts = rejoin (λ x. x.id) a.config_mounts d.mounts;
      bindings = rejoin (λ x. x.id) a.persistent_volume_bindings d.bindings;
    },
    ok tt,
  );
  groups = named_table (λ d. d.groups) (λ xs d. record d { groups = xs }) (λ x. x.id);
  environment_variables =
      table (λ d. d.variables) (λ xs d. record d { variables = xs }) (λ x. x.id)
        (λ i x. record x { id = i });
  config_mounts =
      table (λ d. d.mounts) (λ xs d. record d { mounts = xs }) (λ x. x.id)
        (λ i x. record x { id = i });
  bindings =
      table (λ d. d.bindings) (λ xs d. record d { bindings = xs }) (λ x. x.id)
        (λ i x. record x { id = i });
  deployments =
      table (λ d. d.deployments) (λ xs d. record d { deployments = xs }) (λ x. 0) (λ i x. x);
  rules =
      table (λ d. d.rules) (λ xs d. record d { rules = xs }) (λ x. x.id)
        (λ i x. record x { id = i });
  newest_deployment = λ p d. first_of p d.deployments;
  create_environment_variables = λ xs d. (record d { variables = xs ++ d.variables }, ok tt);
  create_config_mounts = λ xs d. (record d { mounts = xs ++ d.mounts }, ok tt);
  create_bindings = λ xs d. (record d { bindings = xs ++ d.bindings }, ok tt);
  create_build_args = λ i xs d. (d, ok tt);
  find_build_args = λ i d. ok [];
  find_server = λ h d. if text_eq h (text "node-1") then ok 1 else err record_not_found;
  find_git_credential = λ i d. err record_not_found;
  find_image_registry_credential = λ i d. err record_not_found;
  find_persistent_volume = λ i d. ok tt;
  get_service = λ name. if text_eq name (text "traefik") then ok tt else err record_not_found;
  is_not_exist = λ dir file. false;
}

pub store-IsNamedStore : IsNamedStore store
store-IsNamedStore = record {
  applications-IsNamedTable =
      named_table-IsNamedTable (λ d. d.applications) (λ xs d. record d { applications = xs })
        (λ x. x.id) (λ xs d. refl);
  groups-IsNamedTable =
      named_table-IsNamedTable (λ d. d.groups) (λ xs d. record d { groups = xs }) (λ x. x.id)
        (λ xs d. refl);
  application_id = λ a. refl;
  group_id = λ g. refl;
}

pub store-KeepsApplications : KeepsApplications store
store-KeepsApplications = record {
  variables_keep = λ xs d. refl;
  mounts_keep = λ xs d. refl;
  bindings_keep = λ xs d. refl;
  build_args_keep = λ i xs d. refl;
  deployments_keep = λ y d. refl;
}

pub store-IsStore : IsStore store
store-IsStore = record {
  variables-IsTable =
      table-IsTable (λ d. d.variables) (λ xs d. record d { variables = xs }) (λ x. x.id)
        (λ i x. record x { id = i }) (λ xs d. refl);
  mounts-IsTable =
      table-IsTable (λ d. d.mounts) (λ xs d. record d { mounts = xs }) (λ x. x.id)
        (λ i x. record x { id = i }) (λ xs d. refl);
  bindings-IsTable =
      table-IsTable (λ d. d.bindings) (λ xs d. record d { bindings = xs }) (λ x. x.id)
        (λ i x. record x { id = i }) (λ xs d. refl);
  variable_id = λ x. refl;
  variable_with_id = λ i x. refl;
  mount_id = λ x. refl;
  mount_with_id = λ i x. refl;
  binding_id = λ x. refl;
  binding_with_id = λ i x. refl;
  applications-variables = λ i f d. refl;
  applications-mounts = λ i f d. refl;
  applications-bindings = λ i f d. refl;
  full-variables = λ a f d h.
      rejoin-There store.environment_variables (variable_of a.id) d a.environment_variables h;
  full-mounts = λ a f d h. rejoin-There store.config_mounts (mount_of a.id) d a.config_mounts h;
  full-bindings =
      λ a f d h. rejoin-There store.bindings (binding_of a.id) d a.persistent_volume_bindings h;
  mounts-variables = record {
    create-apart = λ x d. refl;
    update-apart = λ i f d. refl;
    save-apart = λ x d. refl;
    delete-apart = λ i d. refl;
  };
  bindings-variables = record {
    create-apart = λ x d. refl;
    update-apart = λ i f d. refl;
    save-apart = λ x d. refl;
    delete-apart = λ i d. refl;
  };
  deployments-variables = record {
    create-apart = λ x d. refl;
    update-apart = λ i f d. refl;
    save-apart = λ x d. refl;
    delete-apart = λ i d. refl;
  };
  variables-mounts = record {
    create-apart = λ x d. refl;
    update-apart = λ i f d. refl;
    save-apart = λ x d. refl;
    delete-apart = λ i d. refl;
  };
  bindings-mounts = record {
    create-apart = λ x d. refl;
    update-apart = λ i f d. refl;
    save-apart = λ x d. refl;
    delete-apart = λ i d. refl;
  };
  deployments-mounts = record {
    create-apart = λ x d. refl;
    update-apart = λ i f d. refl;
    save-apart = λ x d. refl;
    delete-apart = λ i d. refl;
  };
  variables-bindings = record {
    create-apart = λ x d. refl;
    update-apart = λ i f d. refl;
    save-apart = λ x d. refl;
    delete-apart = λ i d. refl;
  };
  mounts-bindings = record {
    create-apart = λ x d. refl;
    update-apart = λ i f d. refl;
    save-apart = λ x d. refl;
    delete-apart = λ i d. refl;
  };
  deployments-bindings = record {
    create-apart = λ x d. refl;
    update-apart = λ i f d. refl;
    save-apart = λ x d. refl;
    delete-apart = λ i d. refl;
  };
}
