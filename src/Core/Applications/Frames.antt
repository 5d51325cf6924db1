-- ===== src/Core/Applications/Frames.antt =====
-- What the parts of Update leave as it is.
use newrr.Common.{
  Bool-cases, inl, inr, ◌≡◌, refl, ◌∙◌, Bool, true, false, List, [], ◌∷◌, Text, text_eq, Map,
  Option, none, some, lookup, Result, ok, err, insert, ℕ,
}
use newrr.Core.Database.{Table}
use newrr.Core.Queries.{Query, ◌>>◌, answer, read, reject}
use newrr.Core.Queries.Effects.{
  Keeps, answer-Keeps, read-Keeps, reject-Keeps, if-Keeps, bind-Keeps, on_error-Keeps,
}
use newrr.Core.Reconcile.{Kind, settle, settle_row, add_rows, reconcile}
use newrr.Core.Deployments
use newrr.Core.Deployments.{Deployment, recreation_required, found_deployment, pending}
use newrr.Core.Applications.Models.{Application, PersistentVolumeBinding}
use newrr.Core.Applications.Store.{Store}
use newrr.Core.Applications.Creation.{check_limits, check_servers, found_server, member}
use newrr.Core.Applications.Updates.{
  binding_map, is_application_deleted, write_if, update_settings, hostnames_changed, check_update,
  fetch_full, current_deployment_id, update_deployment,
}

module _ {D B : Type 0} (s : Store D) (part : D → B) where
  check_servers-Keeps : (hosts : List Text) → Keeps part (check_servers s hosts)
  unfolding check_servers
  check_servers-Keeps [] = λ d. refl
  check_servers-Keeps (h ∷ hs) =
      bind-Keeps part (read (λ d. found_server s h (s.find_server h d))) (λ _. check_servers s hs)
        (λ d. refl) (λ _. check_servers-Keeps hs)

  pub binding_map-Keeps :
      (bs : List PersistentVolumeBinding) (used : List Text) (m : Map ℕ)
      → Keeps part (binding_map s bs used m)
  unfolding binding_map
  binding_map-Keeps [] used m = λ d. refl
  binding_map-Keeps (b ∷ bs) used m =
      bind-Keeps part (reject (member b.mounting_path used) "duplicate mounting path found")
        (λ _.
          binding_map s bs (b.mounting_path ∷ used)
            (insert b.mounting_path b.persistent_volume_id m))
        (reject-Keeps part (member b.mounting_path used) "duplicate mounting path found")
        (λ _.
          binding_map-Keeps bs (b.mounting_path ∷ used)
            (insert b.mounting_path b.persistent_volume_id m))

  pub check_update-Keeps : (x : Application) → Keeps part (check_update s x)
  unfolding check_update is_application_deleted check_limits
  check_update-Keeps x =
      search
        (
          bind-Keeps part,
          reject-Keeps part,
          check_servers-Keeps x.preferred_server_hostnames,
          read-Keeps part,
          answer-Keeps part,
        )
        depth 14

  pub fetch_full-Keeps : (id : Text) → Keeps part (fetch_full s id)
  unfolding fetch_full
  fetch_full-Keeps id = search (bind-Keeps part, read-Keeps part) depth 14

  pub current_deployment_id-Keeps : (id : Text) → Keeps part (current_deployment_id s id)
  unfolding current_deployment_id
  current_deployment_id-Keeps id = search (on_error-Keeps part, read-Keeps part)

  pub write_if-Keeps :
      (changed : Bool) (write : Query D (Unit {0})) (reload : Bool)
      → Keeps part write
      → Keeps part (write_if s changed write reload)
  write_if-Keeps changed write reload k =
      if-Keeps part changed (write >> answer true) (answer reload)
        (bind-Keeps part write (λ _. answer true) k (λ _ d. refl)) (λ d. refl)

  -- Update's last settings, where the preferred servers stay.
  pub update_settings-Keeps :
      ((i : Text) (f : Application → Application) → Keeps part (s.applications.update i f))
      → (x existing : Application)
      → hostnames_changed x.preferred_server_hostnames existing.preferred_server_hostnames ≡ false
      → (reload : Bool) → Keeps part (update_settings s x existing reload)
  unfolding update_settings
  update_settings-Keeps writes x existing same reload =
      rw same (search (bind-Keeps part, write_if-Keeps, writes) depth 10)

module _ {D B : Type 0} (s : Store D) (part : D → B) where
  module _ (creates : (x : Deployment) → Keeps part (s.deployments.create x)) where
    answer-part : (z : D × Result Deployment) → part (Deployments.answer z).0 ≡ part z.0
    answer-part (e, ok y) = refl
    answer-part (e, err c) = refl

    update_from-part :
        (uuid : Text) (x : Deployment) (r : Result (List Deployment)) (d : D)
        → part (Deployments.update_from s.deployments uuid x r d).0 ≡ part d
    update_from-part uuid x (err c) d = refl
    update_from-part uuid x (ok xs) d =
        elim (Bool-cases (recreation_required x (found_deployment xs))) [
          | inl y ↦ rw y (
              answer-part (s.deployments.create (record x { id = uuid; status = pending }) d)
              ∙ creates (record x { id = uuid; status = pending }) d)
          | inr y ↦ rw y refl
        ]

    deployment-Keeps :
        (uuid : Text) (x : Deployment) → Keeps part (Deployments.update s.deployments uuid x)
    unfolding Deployments.update
    deployment-Keeps uuid x d =
        update_from-part uuid x (s.deployments.find (λ y. text_eq y.id x.id) d) d

    pub update_deployment-Keeps :
        (uuid : Text) (x : Application) (reload : Bool)
        → Keeps part (update_deployment s uuid x reload)
    unfolding update_deployment
    update_deployment-Keeps uuid x reload =
        search
          (bind-Keeps part, current_deployment_id-Keeps s part, deployment-Keeps, answer-Keeps part)
          depth 10

module _ {D B R V : Type 0} (part : D → B) (t : Table D R) (k : Kind R V) where
  module _ (saves : (x : R) → Keeps part (t.save x)) (deletes : (i : ℕ) → Keeps part (t.delete i))
      (creates : (x : R) → Keeps part (t.create x)) where
    settle_row-Keeps :
        (x : R) (m : Map V) (reload : Bool) (o : Option V)
        → Keeps part (settle_row t k x m reload o)
    settle_row-Keeps x m reload none = search (bind-Keeps part, deletes, answer-Keeps part)
    settle_row-Keeps x m reload (some v) =
        search (if-Keeps part, bind-Keeps part, saves, answer-Keeps part)

    settle-Keeps : (xs : List R) (m : Map V) (reload : Bool) → Keeps part (settle t k xs m reload)
    unfolding settle
    settle-Keeps [] m reload = λ d. refl
    settle-Keeps (x ∷ xs) m reload =
        bind-Keeps part (settle_row t k x m reload (lookup (k.key_of x) m))
          (λ p. settle t k xs p.0 p.1) (settle_row-Keeps x m reload (lookup (k.key_of x) m))
          (λ p. settle-Keeps xs p.0 p.1)

    add_rows-Keeps : (m : Map V) (reload : Bool) → Keeps part (add_rows t k m reload)
    unfolding add_rows
    add_rows-Keeps [] reload = λ d. refl
    add_rows-Keeps ((j, v) ∷ m) reload =
        bind-Keeps part (t.create (k.fresh j v)) (λ _. add_rows t k m true) (creates (k.fresh j v))
          (λ _. add_rows-Keeps m true)

    pub reconcile-Keeps :
        (xs : List R) (m : Map V) (reload : Bool) → Keeps part (reconcile t k xs m reload)
    unfolding reconcile
    reconcile-Keeps xs m reload =
        bind-Keeps part (settle t k xs m reload) (λ p. add_rows t k p.0 p.1)
          (settle-Keeps xs m reload) (λ p. add_rows-Keeps p.0 p.1)
