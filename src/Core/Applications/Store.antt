-- ===== src/Core/Applications/Store.antt =====
-- What the methods of applications call: the tables of the database, and the queries and the
-- programs outside it, which are parameters.
use newrr.Common.{
  ℕ, ◌+◌, ◌≡◌, Bool, true, not, ◌&&◌, if◌then◌else◌, List, [], ◌∷◌, count, Result, ok, err, Text,
  text_eq,
}
use newrr.Core.Database.{Table}
use newrr.Core.Queries.{Query}
use newrr.Core.Models.{IngressRule}
use newrr.Core.Deployments.{Deployment, BuildArg}
use newrr.Core.Applications.Models.{
  Application, ApplicationGroup, EnvironmentVariable, ConfigMount, PersistentVolumeBinding,
}

-- A table whose primary keys are texts that the program chooses.
pub record NamedTable (D R : Type 0) : Type 0 where
  pub rows : D → List R
  pub id_of : R → Text
  pub count : (R → Bool) → D → Result ℕ
  pub first : (R → Bool) → D → Result R
  pub find : (R → Bool) → D → Result (List R)
  pub create : R → Query D (Unit {0})
  pub update : Text → (R → R) → Query D (Unit {0})
  pub delete : Text → Query D (Unit {0})

module _ {D R : Type 0} (t : NamedTable D R) where
  abbrev pub named_rows : (R → Bool) → D → ℕ
  named_rows p d = count p (t.rows d)

  abbrev pub Counted : (R → Bool) → D → Result ℕ → Type 0
  Counted p d (ok n) = n ≡ named_rows p d
  Counted p d (err e) = Unit

  abbrev pub NamedCreated : R → D → D × Result (Unit {0}) → Type 0
  NamedCreated x d (e, ok _) = (p : R → Bool) → named_rows p e ≡ count p (x ∷ []) + named_rows p d
  NamedCreated x d (e, err _) = (p : R → Bool) → named_rows p e ≡ named_rows p d

  abbrev pub NamedUpdated : Text → (R → R) → D → D × Result (Unit {0}) → Type 0
  NamedUpdated i f d (e, ok _) =
      (p : R → Bool)
      → named_rows p e ≡ named_rows (λ x. p (if text_eq (t.id_of x) i then f x else x)) d
  NamedUpdated i f d (e, err _) = (p : R → Bool) → named_rows p e ≡ named_rows p d

  abbrev pub NamedDeleted : Text → D → D × Result (Unit {0}) → Type 0
  NamedDeleted i d (e, ok _) =
      (p : R → Bool) → named_rows p e ≡ named_rows (λ x. not (text_eq (t.id_of x) i) && p x) d
  NamedDeleted i d (e, err _) = (p : R → Bool) → named_rows p e ≡ named_rows p d

  abbrev pub FirstOf : (R → Bool) → Result R → Type 0
  FirstOf p (ok x) = p x ≡ true
  FirstOf p (err e) = Unit

  -- What the database documents of the calls on such a table.
  pub record IsNamedTable : Type 0 where
    pub count-Counted : (p : R → Bool) (d : D) → Counted p d (t.count p d)
    pub first-FirstOf : (p : R → Bool) (d : D) → FirstOf p (t.first p d)
    pub create-NamedCreated : (x : R) (d : D) → NamedCreated x d (t.create x d)
    pub update-NamedUpdated : (i : Text) (f : R → R) (d : D) → NamedUpdated i f d (t.update i f d)
    pub delete-NamedDeleted : (i : Text) (d : D) → NamedDeleted i d (t.delete i d)

pub record Store (D : Type 0) : Type 0 where
  pub applications : NamedTable D Application
  -- Update of one column through a model with preloaded rows. gorm also saves those rows: one that
  -- is there stays, with the application as its owner, and one that is not is created.
  pub update_full : Application → (Application → Application) → Query D (Unit {0})
  pub groups : NamedTable D ApplicationGroup
  pub environment_variables : Table D EnvironmentVariable
  pub config_mounts : Table D ConfigMount
  pub bindings : Table D PersistentVolumeBinding
  pub deployments : Table D Deployment
  pub rules : Table D IngressRule
  -- Order("created_at desc").First
  pub newest_deployment : (Deployment → Bool) → D → Result Deployment
  -- db.Create of a list of rows
  pub create_environment_variables : List EnvironmentVariable → Query D (Unit {0})
  pub create_config_mounts : List ConfigMount → Query D (Unit {0})
  pub create_bindings : List PersistentVolumeBinding → Query D (Unit {0})
  pub create_build_args : Text → List BuildArg → Query D (Unit {0})
  pub find_build_args : Text → D → Result (List BuildArg)
  -- FetchServerIDByHostName, and FindById of the other records
  pub find_server : Text → D → Result ℕ
  pub find_git_credential : ℕ → D → Result (Unit {0})
  pub find_image_registry_credential : ℕ → D → Result (Unit {0})
  pub find_persistent_volume : ℕ → D → Result (Unit {0})
  -- GetService of the Docker client, of whose answer only the error counts
  pub get_service : Text → Result (Unit {0})
  -- os.IsNotExist of os.Stat of the path, joined of a directory and a name
  pub is_not_exist : Text → Text → Bool
