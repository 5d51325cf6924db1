-- ===== src/Core/Applications/Unique.antt =====
-- A Create that succeeds: the new application is the only one with its name.
use newrr.Common.{
  arith, ◌≡◌, refl, ◌∙◌, ap, false, List, [], ◌∷◌, Text, text_eq, text_eq_refl, Result, ok, err,
  count, Option,
}
use newrr.Core.Queries.{Query}
use newrr.Core.Queries.Effects.{
  Ends, after-Ends, imply-Ends, both-Ends, ok-Ends, kept-Ends, reject-Keeps, read-Keeps,
  answer-Keeps, Keeps, bind-Keeps,
}
use newrr.Core.Deployments
use newrr.Core.Deployments.{Deployment, BuildArg, Pointer}
use newrr.Core.Applications.Models.{
  Application, ConfigMount, PersistentVolumeBinding, EnvironmentVariable,
}
use newrr.Core.Applications.Store.{Store, IsNamedTable, named_rows, NamedCreated}
use newrr.Core.Applications.Creation.{
  no_error, make_bindings, make_mounts, create_all, check_creation, create_rows,
  create_first_deployment, create, created_application, created_deployment,
}
use newrr.Core.Applications.Naming.{
  MountedOnce, Free, create_rows-once, check_creation-Free, check_creation-Keeps,
}

-- The rows of the other tables are created without any change to the applications.
pub record KeepsApplications {D : Type 0} (s : Store D) : Type 0 where
  pub variables_keep :
      (xs : List EnvironmentVariable)
      → Keeps s.applications.rows (s.create_environment_variables xs)
  pub mounts_keep : (xs : List ConfigMount) → Keeps s.applications.rows (s.create_config_mounts xs)
  pub bindings_keep :
      (xs : List PersistentVolumeBinding) → Keeps s.applications.rows (s.create_bindings xs)
  pub build_args_keep :
      (i : Text) (xs : List BuildArg) → Keeps s.applications.rows (s.create_build_args i xs)
  pub deployments_keep : (y : Deployment) → Keeps s.applications.rows (s.deployments.create y)

module _ {D B : Type 0} (s : Store D) (part : D → B) where
  make_bindings-Keeps :
      (id : Text) (bs : List PersistentVolumeBinding) (used : List Text)
      → Keeps part (make_bindings s id bs used)
  unfolding make_bindings
  make_bindings-Keeps id [] used = λ d. refl
  make_bindings-Keeps id (b ∷ bs) used =
      search
        (
          bind-Keeps part,
          reject-Keeps part,
          read-Keeps part,
          answer-Keeps part,
          make_bindings-Keeps id bs (b.mounting_path ∷ used),
        )
        depth 10

  make_mounts-Keeps :
      (id : Text) (cs : List ConfigMount) (used : List Text) → Keeps part (make_mounts s id cs used)
  unfolding make_mounts
  make_mounts-Keeps id [] used = λ d. refl
  make_mounts-Keeps id (c ∷ cs) used =
      search
        (
          bind-Keeps part,
          reject-Keeps part,
          answer-Keeps part,
          make_mounts-Keeps id cs (c.mounting_path ∷ used),
        )
        depth 10

  create_all-Keeps :
      {R : Type 0} (insert : List R → Query D (Unit {0})) (xs : List R)
      → ((ys : List R) → Keeps part (insert ys))
      → Keeps part (create_all s insert xs)
  create_all-Keeps insert [] h = λ d. refl
  create_all-Keeps insert (x ∷ xs) h = h (x ∷ xs)

module _ {D : Type 0} (s : Store D) (l : IsNamedTable s.applications)
    (k : KeepsApplications s) where
  create_rows-Keeps : (id : Text) (x : Application) → Keeps s.applications.rows (create_rows s id x)
  unfolding create_rows
  create_rows-Keeps id x =
      search
        (
          bind-Keeps s.applications.rows,
          create_all-Keeps s s.applications.rows,
          make_bindings-Keeps s s.applications.rows,
          make_mounts-Keeps s s.applications.rows,
          k.variables_keep,
          k.mounts_keep,
          k.bindings_keep,
        )
        depth 14

  first_deployment-Keeps :
      (id uuid : Text) (ids : Option Pointer × Option Pointer) (x : Deployment)
      → Keeps s.applications.rows (create_first_deployment s id uuid ids x)
  unfolding create_first_deployment Deployments.create
  first_deployment-Keeps id uuid ids x =
      bind-Keeps s.applications.rows
        (Deployments.create s.deployments uuid (created_deployment id ids.0 ids.1 x)) _
        (k.deployments_keep _)
        (λ made.
          create_all-Keeps s s.applications.rows (s.create_build_args made.id) x.build_args
            (k.build_args_keep made.id))

  -- One application has the name.
  abbrev Named : Text → D → Type 0
  Named name e = named_rows s.applications (λ z. text_eq z.name name) e ≡ 1

  created-Named :
      (id token : Text) (x : Application) (d : D) (z : D × Result (Unit {0}))
      → named_rows s.applications (λ z. text_eq z.name x.name) d ≡ 0
      → NamedCreated s.applications (created_application id token x) d z
      → Ends (λ _ e. Named x.name e) z
  created-Named id token x d (e, err c) f h = tt
  created-Named id token x d (e, ok u) f h =
      ground (arith, h (λ z. text_eq z.name x.name), f, text_eq_refl x.name)

  still-Named :
      {A : Type 0} (name : Text) (d : D) (m : Query D A)
      → Keeps s.applications.rows m
      → Named name d
      → Ends (λ _ e. Named name e) (m d)
  still-Named name d m h n =
      imply-Ends (λ _ e. s.applications.rows e ≡ s.applications.rows d) (λ _ e. Named name e) (m d)
        (kept-Ends s.applications.rows d (m d) (h d))
        (λ _ e q. ap (count (λ z. text_eq z.name name)) q ∙ n)

  abbrev Sound : Application → D → Type 0
  Sound x e = Named x.name e × (no_error (s.get_service x.name) ≡ false) × MountedOnce x

  create-Ends :
      (id token uuid dir : Text) (x : Application) (d : D)
      → Ends (λ _ e. Sound x e) (create s id token uuid dir x d)
  unfolding create
  create-Ends id token uuid dir x d =
      let P = λ (y : Application) (e : D). Sound x e in
      after-Ends (λ _ e. Free s x.name d × (e ≡ d)) P (check_creation s dir x d) _
        (both-Ends (λ _ _. Free s x.name d) (λ _ e. e ≡ d) (check_creation s dir x d)
          (check_creation-Free s l dir x d)
          (kept-Ends (λ q. q) d (check_creation s dir x d) (check_creation-Keeps s dir x d)))
        (λ ids b f.
          after-Ends (λ _ e. Named x.name e) P
            (s.applications.create (created_application id token x) b) _
            (created-Named id token x b (s.applications.create (created_application id token x) b)
              (ap (λ (q : D). named_rows s.applications (λ z. text_eq z.name x.name) q) f.1 ∙ f.0.0)
              (l.create-NamedCreated (created_application id token x) b))
            (λ _ c n.
              after-Ends (λ _ e. MountedOnce x × Named x.name e) P (create_rows s id x c) _
                (both-Ends (λ _ _. MountedOnce x) (λ _ e. Named x.name e) (create_rows s id x c)
                  (create_rows-once s id x c)
                  (still-Named x.name c (create_rows s id x) (create_rows-Keeps id x) n))
                (λ _ e m.
                  after-Ends (λ _ e. Named x.name e) P
                    (create_first_deployment s id uuid ids x.latest_deployment e) _
                    (still-Named x.name e
                      (create_first_deployment s id uuid ids x.latest_deployment)
                      (first_deployment-Keeps id uuid ids x.latest_deployment) m.1)
                    (λ _ g n. (n, f.0.1, m.0)))))

  -- A Create that succeeds was for a name that no other application has: afterwards one application
  -- has it, and GetService gave an error for it, as it does where there is no such service. In the
  -- request no mounting path stands twice among the volumes, nor twice among the config mounts.
  pub create_sound :
      (id token uuid dir : Text) (x y : Application) (d e : D)
      → create s id token uuid dir x d ≡ (e, ok y)
      → (named_rows s.applications (λ z. text_eq z.name x.name) e ≡ 1)
        × (no_error (s.get_service x.name) ≡ false)
        × MountedOnce x
  create_sound id token uuid dir x y d e h =
      ok-Ends (λ _ e. Sound x e) (create s id token uuid dir x d) e y
        (create-Ends id token uuid dir x d) h
