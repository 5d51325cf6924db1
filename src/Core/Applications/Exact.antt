-- ===== src/Core/Applications/Exact.antt =====
-- The rows of an application after Update.
use newrr.Common.{
  ◌≡◌, sym, subst, ◌∙◌, ap, Bool, true, false, ◌∷◌, All, List, [], Text, text_eq, ok,
}
use newrr.Core.Database.{Table}
use newrr.Core.Queries.{Query, ◌>>=◌, answer, read, after}
use newrr.Core.Reconcile.{Kind}
use newrr.Core.Reconcile.Rows.{Rows}
use newrr.Core.Queries.Effects.{Ends, after-Ends, imply-Ends, kept-Ends, ok-Ends, read-Ends, Keeps}
use newrr.Core.Reconcile.Exact.{Fetched}
use newrr.Core.Reconcile.Same.{same-Fetched, same-EachAsWanted}
use newrr.Core.Deployments.{Deployment}
use newrr.Core.Applications.Models.{
  Application, EnvironmentVariable, ConfigMount, PersistentVolumeBinding,
}
use newrr.Core.Applications.Store.{Store}
use newrr.Core.Applications.Updates.{
  ApplicationUpdateResult, write_if, hostnames_changed, variable_kind, mount_kind, binding_kind,
  variable_map, mount_map, check_update, fetch_full, update_columns, update_limits, update_rows,
  update_settings, update_deployment, update_existing, update,
}
use newrr.Core.Applications.Frames.{
  check_update-Keeps, update_settings-Keeps, update_deployment-Keeps,
}
use newrr.Core.Applications.Wanted.{There, IsStore, variable_of, mount_of, binding_of, volume_map}
use newrr.Core.Applications.Rows.{FetchedRows, AllAsWanted, update_rows-Ends}

ok_inj : {A : Type 0} (a b : A) → ok a ≡ ok b → a ≡ b
ok_inj a b e = cc

module _ {D : Type 0} (s : Store D) where
  -- What the three queries find are the rows of the application, each alone with its key.
  pub record FindsRows (id : Text) (d : D) : Type 0 where
    pub finds_variables :
        (xs : List EnvironmentVariable)
        → s.environment_variables.find (variable_of id) d ≡ ok xs
        → Fetched s.environment_variables (variable_kind id) (variable_of id) xs d
    pub finds_mounts :
        (xs : List ConfigMount)
        → s.config_mounts.find (mount_of id) d ≡ ok xs
        → Fetched s.config_mounts (mount_kind id) (mount_of id) xs d
    pub finds_bindings :
        (xs : List PersistentVolumeBinding)
        → s.bindings.find (binding_of id) d ≡ ok xs
        → Fetched s.bindings (binding_kind id) (binding_of id) xs d

  abbrev three : D → List EnvironmentVariable × List ConfigMount × List PersistentVolumeBinding
  three d = (s.environment_variables.rows d, s.config_mounts.rows d, s.bindings.rows d)

  module _ (l : IsStore s) (x : Application) where
    kept-FetchedRows :
        (existing : Application) (d e : D)
        → three e ≡ three d
        → FetchedRows s l x existing d
        → FetchedRows s l x existing e
    kept-FetchedRows existing d e h f = (
      same-Fetched s.environment_variables (variable_kind x.id) (variable_of x.id) d e
          (ap (λ z. z.0) h) existing.environment_variables f.0,
      same-Fetched s.config_mounts (mount_kind x.id) (mount_of x.id) d e (ap (λ z. z.1) h)
          existing.config_mounts f.1,
      same-Fetched s.bindings (binding_kind x.id) (binding_of x.id) d e (ap (λ z. z.2) h)
          existing.persistent_volume_bindings f.2,
    )

    kept-AllAsWanted : (d e : D) → three e ≡ three d → AllAsWanted s l x d → AllAsWanted s l x e
    kept-AllAsWanted d e h w = (
      same-EachAsWanted s.environment_variables (variable_kind x.id) (variable_of x.id) d e
          (ap (λ z. z.0) h) (variable_map x.environment_variables []) w.0,
      same-EachAsWanted s.config_mounts (mount_kind x.id) (mount_of x.id) d e (ap (λ z. z.1) h)
          (mount_map x.config_mounts []) w.1,
      same-EachAsWanted s.bindings (binding_kind x.id) (binding_of x.id) d e (ap (λ z. z.2) h)
          (volume_map x.persistent_volume_bindings []) w.2,
    )

    writes : (i : Text) (f : Application → Application) → Keeps three (s.applications.update i f)
    writes i f d j = (
      l.applications-variables i f d j,
      l.applications-mounts i f d j,
      l.applications-bindings i f d j,
    )

    Rows-There :
        {R V : Type 0} (t : Table D R) (k : Kind R V) (mine : R → Bool) (xs : List R) (d : D)
        → Rows t k mine xs d
        → All (There t mine d) xs
    Rows-There t k mine [] d h = tt
    Rows-There t k mine (y ∷ ys) d h = ((h.0, h.1), Rows-There t k mine ys d h.3)

    -- A write with the preloaded rows leaves the three tables as long as those rows are there.
    full_write :
        (existing : Application) (f : Application → Application) (d : D)
        → existing.id ≡ x.id
        → FetchedRows s l x existing d
        → three (s.update_full existing f d).0 ≡ three d
    full_write existing f d i h = λ j. (
      l.full-variables existing f d
          (subst
            (λ n.
              All (There s.environment_variables (variable_of n) d) existing.environment_variables)
            (sym i)
            (Rows-There s.environment_variables (variable_kind x.id) (variable_of x.id)
              existing.environment_variables d h.0.rows))
          j,
      l.full-mounts existing f d
          (subst (λ n. All (There s.config_mounts (mount_of n) d) existing.config_mounts) (sym i)
            (Rows-There s.config_mounts (mount_kind x.id) (mount_of x.id) existing.config_mounts d
              h.1.rows))
          j,
      l.full-bindings existing f d
          (subst (λ n. All (There s.bindings (binding_of n) d) existing.persistent_volume_bindings)
            (sym i)
            (Rows-There s.bindings (binding_kind x.id) (binding_of x.id)
              existing.persistent_volume_bindings d h.2.rows))
          j,
    )

    creates : (y : Deployment) → Keeps three (s.deployments.create y)
    creates y d j = (
      l.deployments-variables.create-apart y d j,
      l.deployments-mounts.create-apart y d j,
      l.deployments-bindings.create-apart y d j,
    )

    -- A call that keeps the three tables keeps what is known of their rows.
    step :
        {A : Type 0} (P : D → Type 0) (d : D) (m : Query D A)
        → ((e : D) → three e ≡ three d → P d → P e)
        → Keeps three m
        → P d
        → Ends (λ _ e. P e) (m d)
    step P d m t k p =
        imply-Ends (λ _ e. three e ≡ three d) (λ _ e. P e) (m d) (kept-Ends three d (m d) (k d))
          (λ _ e h. t e h p)

    -- What keeps the fetched rows where they are.
    abbrev Stays : {A : Type 0} → Application → Query D A → Type 0
    Stays existing m =
        (d : D) → FetchedRows s l x existing d → Ends (λ _ e. FetchedRows s l x existing e) (m d)

    after-Stays :
        {A B : Type 0} (existing : Application) (m : Query D A) (n : A → Query D B)
        → Stays existing m
        → ((a : A) → Stays existing (n a))
        → Stays existing (m >>= n)
    after-Stays existing m n h k d f =
        after-Ends (λ _ e. FetchedRows s l x existing e) (λ _ e. FetchedRows s l x existing e) (m d)
          n (h d f) (λ a e g. k a e g)

    answer-Stays : {A : Type 0} (existing : Application) (a : A) → Stays existing (answer a)
    answer-Stays existing a d f = f

    full-Stays :
        (existing : Application) (i : existing.id ≡ x.id) (f : Application → Application)
        → Stays existing (s.update_full existing f)
    full-Stays existing i f d h =
        imply-Ends (λ _ e. three e ≡ three d) (λ _ e. FetchedRows s l x existing e)
          (s.update_full existing f d)
          (kept-Ends three d (s.update_full existing f d) (full_write existing f d i h))
          (λ _ e q. kept-FetchedRows existing d e q h)

    write_if-Stays :
        (existing : Application) (changed : Bool) (write : Query D (Unit {0})) (reload : Bool)
        → Stays existing write
        → Stays existing (write_if s changed write reload)
    write_if-Stays existing true write reload h =
        after-Stays existing write (λ _. answer true) h (λ _. answer-Stays existing true)
    write_if-Stays existing false write reload h = answer-Stays existing reload

    update_columns-Stays :
        (existing : Application) (reload : Bool)
        → existing.id ≡ x.id
        → Stays existing (update_columns s x existing reload)
    unfolding update_columns
    update_columns-Stays existing reload i =
        search (after-Stays existing, write_if-Stays existing, full-Stays existing i) depth 10

    update_limits-Stays :
        (existing : Application) (reload : Bool)
        → existing.id ≡ x.id
        → Stays existing (update_limits s x existing reload)
    unfolding update_limits
    update_limits-Stays existing reload i =
        search (after-Stays existing, write_if-Stays existing, full-Stays existing i) depth 10

    -- The application is the one asked for, and its preferred servers stay.
    abbrev Placed : Application → Type 0
    Placed a =
        (a.id ≡ x.id)
        × (hostnames_changed x.preferred_server_hostnames a.preferred_server_hostnames ≡ false)

    update_existing-Ends :
        (uuid : Text) (existing : Application) (d : D)
        → Placed existing
        → FetchedRows s l x existing d
        → Ends (λ _ e. AllAsWanted s l x e) (update_existing s uuid x existing d)
    unfolding update_existing
    update_existing-Ends uuid existing d p f =
        let F = λ (e : D). FetchedRows s l x existing e in
        let W = λ (e : D). AllAsWanted s l x e in
        after-Ends (λ _ e. F e) (λ _ e. W e) (update_columns s x existing false d) _
          (update_columns-Stays existing false p.0 d f)
          (λ a c g.
            after-Ends (λ _ e. F e) (λ _ e. W e) (update_limits s x existing a c) _
              (update_limits-Stays existing a p.0 c g)
              (λ b e h.
                after-Ends (λ _ e. W e) (λ _ e. W e) (update_rows s x existing b e) _
                  (update_rows-Ends s l x existing b e h)
                  (λ r q w.
                    after-Ends (λ _ e. W e) (λ _ e. W e) (update_settings s x existing r q) _
                      (step W q (update_settings s x existing r) (kept-AllAsWanted q)
                        (update_settings-Keeps s three writes x existing p.1 r) w)
                      (λ u v k.
                        step W v (update_deployment s uuid x u) (kept-AllAsWanted v)
                          (update_deployment-Keeps s three creates uuid x u) k))))

    module _ (d : D) (finds : FindsRows x.id d) (stored : Application)
        (read_stored : s.applications.first (λ y. text_eq y.id x.id) d ≡ ok stored)
        (placed : Placed stored) where
      found :
          (a : Application) (xs : List EnvironmentVariable) (ys : List ConfigMount)
          (zs : List PersistentVolumeBinding) (b c f g : D)
          → (s.applications.first (λ y. text_eq y.id x.id) d ≡ ok a) × (b ≡ d)
          → (s.environment_variables.find (variable_of x.id) b ≡ ok xs) × (c ≡ b)
          → (s.config_mounts.find (mount_of x.id) c ≡ ok ys) × (f ≡ c)
          → (s.bindings.find (binding_of x.id) f ≡ ok zs) × (g ≡ f)
          → (Placed a
              × FetchedRows s l x
                  (record a {
                    environment_variables = xs;
                    config_mounts = ys;
                    persistent_volume_bindings = zs;
                  })
                  g)
            × (g ≡ d)
      found a xs ys zs b c f g o u v w =
          let q = o.1 in
          let same : stored ≡ a = ok_inj stored a (sym read_stored ∙ o.0) in
          let p = u.1 ∙ q in
          let r = v.1 ∙ p in
          let t = w.1 ∙ r in
          (
            (
              subst Placed same placed,
              kept-FetchedRows
                  (record a {
                    environment_variables = xs;
                    config_mounts = ys;
                    persistent_volume_bindings = zs;
                  })
                  d g (ap three t)
                  (
                    finds.finds_variables xs (
                        subst (λ e. s.environment_variables.find (variable_of x.id) e ≡ ok xs) q
                          u.0),
                    finds.finds_mounts ys
                        (subst (λ e. s.config_mounts.find (mount_of x.id) e ≡ ok ys) p v.0),
                    finds.finds_bindings zs
                        (subst (λ e. s.bindings.find (binding_of x.id) e ≡ ok zs) r w.0),
                  ),
            ),
            t,
          )

      abbrev Full : Application → D → Type 0
      Full existing e = (Placed existing × FetchedRows s l x existing e) × (e ≡ d)

      fetch_full-Ends : Ends Full (fetch_full s x.id d)
      unfolding fetch_full
      fetch_full-Ends =
          after-Ends (λ a e. (s.applications.first (λ y. text_eq y.id x.id) d ≡ ok a) × (e ≡ d))
            Full (read (s.applications.first (λ y. text_eq y.id x.id)) d) _
            (read-Ends (s.applications.first (λ y. text_eq y.id x.id)) d)
            (λ a b q.
              after-Ends
                (λ xs e. (s.environment_variables.find (variable_of x.id) b ≡ ok xs) × (e ≡ b)) Full
                (read (s.environment_variables.find (variable_of x.id)) b) _
                (read-Ends (s.environment_variables.find (variable_of x.id)) b)
                (λ xs c u.
                  after-Ends (λ ys e. (s.config_mounts.find (mount_of x.id) c ≡ ok ys) × (e ≡ c))
                    Full (read (s.config_mounts.find (mount_of x.id)) c) _
                    (read-Ends (s.config_mounts.find (mount_of x.id)) c)
                    (λ ys f v.
                      after-Ends (λ zs e. (s.bindings.find (binding_of x.id) f ≡ ok zs) × (e ≡ f))
                        Full (read (s.bindings.find (binding_of x.id)) f) _
                        (read-Ends (s.bindings.find (binding_of x.id)) f)
                        (λ zs g w. found a xs ys zs b c f g q u v w))))

      update-Ends : (uuid : Text) → Ends (λ _ e. AllAsWanted s l x e) (update s uuid x d)
      unfolding update
      update-Ends uuid =
          let R =
            λ (existing : Application) (e : D). Placed existing × FetchedRows s l x existing e in
          after-Ends R (λ _ e. AllAsWanted s l x e)
            (after (check_update s x d) (λ _. fetch_full s x.id)) (update_existing s uuid x)
            (after-Ends (λ _ e. e ≡ d) R (check_update s x d) (λ _. fetch_full s x.id)
              (kept-Ends (λ q. q) d (check_update s x d) (check_update-Keeps s (λ q. q) x d))
              (λ _ e q.
                subst (λ b. Ends R (fetch_full s x.id b)) (sym q)
                  (imply-Ends Full R (fetch_full s x.id d) fetch_full-Ends (λ a e h. h.0))))
            (λ a e h. update_existing-Ends uuid a e h.0 h.1)

      -- An Update that succeeds leaves the application with the environment variables, the config
      -- mounts and the volumes of the request, and with no others: for each key, or mounting path,
      -- there is one row if the request has it, with the last of its values there, and none if it
      -- has not. The three queries of the update find the rows of the application, which have
      -- primary keys of their own, and the request has the preferred servers that are stored.
      pub update-as_wanted :
          (uuid : Text) (e : D) (r : ApplicationUpdateResult)
          → update s uuid x d ≡ (e, ok r)
          → AllAsWanted s l x e
      update-as_wanted uuid e r h =
          ok-Ends (λ _ b. AllAsWanted s l x b) (update s uuid x d) e r (update-Ends uuid) h
