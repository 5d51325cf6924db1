-- ===== src/Core/Applications/Silence.antt =====
-- Update that asks neither for a reload nor for a rebuild.
use newrr.Common.{
  arith, ◌≡◌, refl, ◌∙◌, subst, Bool, true, false, ◌||◌, List, [], Text, text_eq, Result, ok, err,
  Bool-cases, inl, inr,
}
use newrr.Core.Queries.{Query, ◌>>=◌, answer, after}
use newrr.Core.Queries.Effects.{bind-Keeps}
use newrr.Core.Reconcile.{reconcile}
use newrr.Core.Reconcile.Quiet.{
  Silent, Quiet, itself, after-Silent, after_write-Silent, reconcile-Quiet,
}
use newrr.Core.Deployments
use newrr.Core.Deployments.{
  Deployment, DeploymentUpdateResult, recreation_required, found_deployment, pending,
}
use newrr.Core.Applications.Models.{Application}
use newrr.Core.Applications.Store.{Store}
use newrr.Core.Applications.Updates.{
  ApplicationUpdateResult, binding_map, write_if, update_columns, update_limits, update_settings,
  update_rows, check_update, fetch_full, current_deployment_id, update_deployment, update,
  update_result, update_current, update_existing, binding_kind, variable_kind, mount_kind,
  variable_map, mount_map,
}
use newrr.Core.Applications.Frames.{
  binding_map-Keeps, check_update-Keeps, fetch_full-Keeps, current_deployment_id-Keeps,
}

-- A call that only reads stands before one that is told of no reload.
read-Silent :
    {D A B : Type 0} (g : B → Bool) (reload : Bool) (d : D) (z : D × Result A) (m : A → Query D B)
    → z.0 ≡ d
    → ((a : A) (e : D) → Silent g reload e (m a e))
    → Silent g reload d (after z m)
read-Silent g reload d (e, err c) m s h = tt
read-Silent g reload d (e, ok a) m s h = go (m a e) (h a e)
  where
    go : (z : _ × Result _) → Silent g reload e z → Silent g reload d z
    go (b, err c) k = tt
    go (b, ok r) k = λ q. ((k q).0, (k q).1 ∙ s)

abbrev needed : ApplicationUpdateResult → Bool
needed r = r.reload_required || r.rebuild_required

module _ {D : Type 0} (s : Store D) where
  write_if-Quiet : (changed : Bool) (write : Query D (Unit {0})) → Quiet (write_if s changed write)
  write_if-Quiet true write reload d = after_write-Silent itself reload d (write d) true refl
  write_if-Quiet false write reload d = λ q. (q, refl)

  bind-Quiet : (m n : Bool → Query D Bool) → Quiet m → Quiet n → Quiet (λ b. m b >>= n)
  bind-Quiet m n h k reload d = after-Silent itself itself reload d (m reload d) n (h reload d) k

  update_columns-Quiet : (x existing : Application) → Quiet (update_columns s x existing)
  unfolding update_columns
  update_columns-Quiet x existing = search (bind-Quiet, write_if-Quiet) depth 10

  update_settings-Quiet : (x existing : Application) → Quiet (update_settings s x existing)
  unfolding update_settings
  update_settings-Quiet x existing = search (bind-Quiet, write_if-Quiet) depth 10

  update_limits-Quiet : (x existing : Application) → Quiet (update_limits s x existing)
  unfolding update_limits
  update_limits-Quiet x existing = search (write_if-Quiet) depth 4

  update_rows-Quiet : (x existing : Application) → Quiet (update_rows s x existing)
  unfolding update_rows
  update_rows-Quiet x existing reload d =
      after-Silent itself itself reload d
        (reconcile s.environment_variables (variable_kind x.id) existing.environment_variables
          (variable_map x.environment_variables []) reload d)
        (λ a.
          reconcile s.config_mounts (mount_kind x.id) existing.config_mounts
            (mount_map x.config_mounts []) a
          >>= rest)
        (reconcile-Quiet s.environment_variables (variable_kind x.id) existing.environment_variables
          (variable_map x.environment_variables []) reload d)
        (λ a e.
          after-Silent itself itself a e
            (reconcile s.config_mounts (mount_kind x.id) existing.config_mounts
              (mount_map x.config_mounts []) a e)
            rest
            (reconcile-Quiet s.config_mounts (mount_kind x.id) existing.config_mounts
              (mount_map x.config_mounts []) a e)
            (λ b c.
              read-Silent itself b c (binding_map s x.persistent_volume_bindings [] [] c)
                (λ wanted.
                  reconcile s.bindings (binding_kind x.id) existing.persistent_volume_bindings
                    wanted b)
                (binding_map-Keeps s (λ q. q) x.persistent_volume_bindings [] [] c)
                (λ wanted e.
                  reconcile-Quiet s.bindings (binding_kind x.id) existing.persistent_volume_bindings
                    wanted b e)))
    where
      rest : Bool → Query D Bool
      rest b = binding_map s x.persistent_volume_bindings [] [] >>= λ wanted.
          reconcile s.bindings (binding_kind x.id) existing.persistent_volume_bindings wanted b

  deployment_found :
      (uuid : Text) (x : Application) (y : Deployment) (reload : Bool)
      (r : Result (List Deployment)) (d : D)
      → Silent needed reload d (
          after
            (Deployments.update_from s.deployments uuid y r d)
            (λ made. answer (update_result reload made)))
  deployment_found uuid x y reload (err c) d = tt
  deployment_found uuid x y reload (ok xs) d =
      elim (Bool-cases (recreation_required y (found_deployment xs))) [
        | inl h ↦ rw h (rebuilt (s.deployments.create (record y { id = uuid; status = pending }) d))
        | inr h ↦ rw h (λ q. ((ground arith), refl))
      ]
    where
      rebuilt :
          (z : D × Result Deployment)
          → Silent needed reload d
              (after (Deployments.answer z) (λ made. answer (update_result reload made)))
      rebuilt (e, err c) = tt
      rebuilt (e, ok w) = λ q. ground arith

  update_deployment-Silent :
      (uuid : Text) (x : Application) (reload : Bool) (d : D)
      → Silent needed reload d (update_deployment s uuid x reload d)
  unfolding update_deployment Deployments.update
  update_deployment-Silent uuid x reload d =
      read-Silent needed reload d (current_deployment_id s x.id d) (update_current s uuid x reload)
        (current_deployment_id-Keeps s (λ q. q) x.id d)
        (λ current e.
          deployment_found uuid x (record x.latest_deployment { id = current }) reload
            (s.deployments.find (λ y. text_eq y.id current) e) e)

  update_existing-Silent :
      (uuid : Text) (x existing : Application) (d : D)
      → Silent needed false d (update_existing s uuid x existing d)
  unfolding update_existing
  update_existing-Silent uuid x existing d =
      after-Silent itself needed false d (update_columns s x existing false d) _
        (update_columns-Quiet x existing false d)
        (λ a e.
          after-Silent itself needed a e (update_limits s x existing a e) _
            (update_limits-Quiet x existing a e)
            (λ b f.
              after-Silent itself needed b f (update_rows s x existing b f) _
                (update_rows-Quiet x existing b f)
                (λ c g.
                  after-Silent itself needed c g (update_settings s x existing c g) _
                    (update_settings-Quiet x existing c g) (update_deployment-Silent uuid x))))

  update-Silent :
      (uuid : Text) (x : Application) (d : D) → Silent needed false d (update s uuid x d)
  unfolding update
  update-Silent uuid x d =
      read-Silent needed false d (after (check_update s x d) (λ _. fetch_full s x.id))
        (update_existing s uuid x)
        (bind-Keeps (λ q. q) (check_update s x) (λ _. fetch_full s x.id)
          (check_update-Keeps s (λ q. q) x) (λ _. fetch_full-Keeps s (λ q. q) x.id) d)
        (update_existing-Silent uuid x)

  -- Where Update answers that the application has to be neither reloaded nor built anew, the
  -- database is as it was before.
  pub update-untouched :
      (uuid : Text) (x : Application) (d e : D) (r : ApplicationUpdateResult)
      → update s uuid x d ≡ (e, ok r)
      → r.reload_required ≡ false
      → r.rebuild_required ≡ false
      → e ≡ d
  update-untouched uuid x d e r h p q =
      (subst (Silent needed false d) h (update-Silent uuid x d) (ground arith)).1
