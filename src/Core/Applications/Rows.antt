-- ===== src/Core/Applications/Rows.antt =====
-- The part of Update that brings the three tables in line.
use newrr.Common.{ℕ, ◌≡◌, refl, ◌∙◌, arith, Bool, true, false, List, [], ◌∷◌, Text, Map, insert}
use newrr.Core.Queries.{Query, after, reject}
use newrr.Core.Queries.Effects.{Ends, after-Ends, both-Ends, imply-Ends, kept-Ends, Keeps}
use newrr.Core.Reconcile.{reconcile}
use newrr.Core.Reconcile.Wanted.{HasUniqueKeys}
use newrr.Core.Reconcile.Exact.{Fetched, EachAsWanted, reconcile-Reconciled}
use newrr.Core.Reconcile.Same.{same-Fetched, same-EachAsWanted}
use newrr.Core.Applications.Models.{Application, PersistentVolumeBinding, EnvironmentVariable}
use newrr.Core.Applications.Store.{Store}
use newrr.Core.Applications.Creation.{member}
use newrr.Core.Applications.Updates.{
  MountValue, variable_kind, mount_kind, binding_kind, variable_map, mount_map, binding_map,
  update_rows,
}
use newrr.Core.Applications.Frames.{reconcile-Keeps}
use newrr.Core.Applications.Wanted.{
  IsStore, variable_of, mount_of, binding_of, variable-IsKind, mount-IsKind, binding-IsKind,
  variable_map-HasUniqueKeys, mount_map-HasUniqueKeys, volume_map, volume_map-HasUniqueKeys,
}

module _ {D : Type 0} (s : Store D) where
  -- The map that binding_map answers.
  binding_map-Ends :
      (bs : List PersistentVolumeBinding) (used : List Text) (m : Map ℕ) (d : D)
      → Ends (λ w e. (w ≡ volume_map bs m) × (e ≡ d)) (binding_map s bs used m d)
  unfolding binding_map
  binding_map-Ends [] used m d = (refl, refl)
  binding_map-Ends (b ∷ bs) used m d = guarded (member b.mounting_path used) (binding_map-Ends bs)
    where
      guarded :
          (taken : Bool)
          → ((used : List Text) (m : Map ℕ) (d : D)
              → Ends (λ w e. (w ≡ volume_map bs m) × (e ≡ d)) (binding_map s bs used m d))
          → Ends
              (λ w e. (w ≡ volume_map (b ∷ bs) m) × (e ≡ d))
              (after (reject taken "duplicate mounting path found" d) (λ _.
                binding_map s bs
                  (b.mounting_path ∷ used)
                  (insert b.mounting_path b.persistent_volume_id m)))
      guarded true ih = tt
      guarded false ih =
          ih (b.mounting_path ∷ used) (insert b.mounting_path b.persistent_volume_id m) d

  module _ (l : IsStore s) (x : Application) where
    abbrev pub VariablesAsWanted : D → Type 0
    VariablesAsWanted =
        EachAsWanted s.environment_variables (variable_kind x.id) (variable_of x.id)
          (variable_map x.environment_variables [])

    abbrev pub MountsAsWanted : D → Type 0
    MountsAsWanted =
        EachAsWanted s.config_mounts (mount_kind x.id) (mount_of x.id)
          (mount_map x.config_mounts [])

    abbrev pub BindingsAsWanted : D → Type 0
    BindingsAsWanted =
        EachAsWanted s.bindings (binding_kind x.id) (binding_of x.id)
          (volume_map x.persistent_volume_bindings [])

    abbrev pub FetchedRows : Application → D → Type 0
    FetchedRows existing d =
        Fetched s.environment_variables (variable_kind x.id) (variable_of x.id)
          existing.environment_variables d
        × Fetched s.config_mounts (mount_kind x.id) (mount_of x.id) existing.config_mounts d
        × Fetched s.bindings (binding_kind x.id) (binding_of x.id)
            existing.persistent_volume_bindings d

    no_keys : (V : Type 0) → HasUniqueKeys {V = V} []
    no_keys V j = omega arith

    abbrev reconcile_variables : Application → Bool → Query D Bool
    reconcile_variables existing reload =
        reconcile s.environment_variables (variable_kind x.id) existing.environment_variables
          (variable_map x.environment_variables []) reload

    abbrev reconcile_mounts : Application → Bool → Query D Bool
    reconcile_mounts existing reload =
        reconcile s.config_mounts (mount_kind x.id) existing.config_mounts
          (mount_map x.config_mounts []) reload

    abbrev reconcile_bindings : Application → Bool → Query D Bool
    reconcile_bindings existing reload =
        reconcile s.bindings (binding_kind x.id) existing.persistent_volume_bindings
          (volume_map x.persistent_volume_bindings []) reload

    -- The database `d` has the rows of `b` in the tables whose turn is still to come.
    abbrev Mounted : D → D → Type 0
    Mounted b d =
        VariablesAsWanted d
        × (s.config_mounts.rows d ≡ s.config_mounts.rows b)
        × (s.bindings.rows d ≡ s.bindings.rows b)

    abbrev Bound : D → D → Type 0
    Bound b d = VariablesAsWanted d × MountsAsWanted d × (s.bindings.rows d ≡ s.bindings.rows b)

    abbrev pub AllAsWanted : D → Type 0
    AllAsWanted d = VariablesAsWanted d × MountsAsWanted d × BindingsAsWanted d

    variables_keep :
        {B : Type 0} (part : D → B)
        → ((y : EnvironmentVariable) → Keeps part (s.environment_variables.save y))
        → ((i : ℕ) → Keeps part (s.environment_variables.delete i))
        → ((y : EnvironmentVariable) → Keeps part (s.environment_variables.create y))
        → (existing : Application) (reload : Bool)
        → Keeps part (reconcile_variables existing reload)
    variables_keep part a b c existing =
        reconcile-Keeps part s.environment_variables (variable_kind x.id) a b c
          existing.environment_variables (variable_map x.environment_variables [])

    variables-Ends :
        (existing : Application) (reload : Bool) (d : D)
        → FetchedRows existing d
        → Ends (λ _ e. Mounted d e) (reconcile_variables existing reload d)
    variables-Ends existing reload d f =
        let z = reconcile_variables existing reload d in
        imply-Ends
          (λ _ e.
            VariablesAsWanted e
            × ((s.config_mounts.rows e ≡ s.config_mounts.rows d)
                × (s.bindings.rows e ≡ s.bindings.rows d)))
          (λ _ e. Mounted d e) z
          (both-Ends (λ _ e. VariablesAsWanted e)
            (λ _ e.
              (s.config_mounts.rows e ≡ s.config_mounts.rows d)
              × (s.bindings.rows e ≡ s.bindings.rows d))
            z
            (reconcile-Reconciled s.environment_variables (variable_kind x.id) (variable_of x.id)
              l.variables-IsTable (variable-IsKind s l x.id) existing.environment_variables
              (variable_map x.environment_variables []) reload d f.0
              (variable_map-HasUniqueKeys x.environment_variables [] (no_keys Text)))
            (both-Ends (λ _ e. s.config_mounts.rows e ≡ s.config_mounts.rows d)
              (λ _ e. s.bindings.rows e ≡ s.bindings.rows d) z
              (kept-Ends s.config_mounts.rows d z (
                variables_keep s.config_mounts.rows l.variables-mounts.save-apart
                  l.variables-mounts.delete-apart l.variables-mounts.create-apart existing reload
                  d))
              (kept-Ends s.bindings.rows d z (
                variables_keep s.bindings.rows l.variables-bindings.save-apart
                  l.variables-bindings.delete-apart l.variables-bindings.create-apart existing
                  reload d))))
          (λ _ e h. (h.0, h.1.0, h.1.1))

    -- A part of the database that is as in `b` before a call that keeps it is so after it.
    as_before-Ends :
        {B A : Type 0} (part : D → B) (b d : D) (m : Query D A)
        → Keeps part m
        → part d ≡ part b
        → Ends (λ _ e. part e ≡ part b) (m d)
    as_before-Ends part b d m k h =
        imply-Ends (λ _ e. part e ≡ part d) (λ _ e. part e ≡ part b) (m d)
          (kept-Ends part d (m d) (k d)) (λ _ e g. g ∙ h)

    mounts-Ends :
        (existing : Application) (reload : Bool) (b d : D)
        → FetchedRows existing b
        → Mounted b d
        → Ends (λ _ e. Bound b e) (reconcile_mounts existing reload d)
    mounts-Ends existing reload b d f m =
        let z = reconcile_mounts existing reload d in
        imply-Ends
          (λ _ e.
            (s.environment_variables.rows e ≡ s.environment_variables.rows d)
            × (MountsAsWanted e × (s.bindings.rows e ≡ s.bindings.rows b)))
          (λ _ e. Bound b e) z
          (both-Ends (λ _ e. s.environment_variables.rows e ≡ s.environment_variables.rows d)
            (λ _ e. MountsAsWanted e × (s.bindings.rows e ≡ s.bindings.rows b)) z
            (kept-Ends s.environment_variables.rows d z (
              reconcile-Keeps s.environment_variables.rows s.config_mounts (mount_kind x.id)
                l.mounts-variables.save-apart l.mounts-variables.delete-apart
                l.mounts-variables.create-apart existing.config_mounts
                (mount_map x.config_mounts []) reload d))
            (both-Ends (λ _ e. MountsAsWanted e) (λ _ e. s.bindings.rows e ≡ s.bindings.rows b) z
              (reconcile-Reconciled s.config_mounts (mount_kind x.id) (mount_of x.id)
                l.mounts-IsTable (mount-IsKind s l x.id) existing.config_mounts
                (mount_map x.config_mounts []) reload d
                (same-Fetched s.config_mounts (mount_kind x.id) (mount_of x.id) b d m.1
                  existing.config_mounts f.1)
                (mount_map-HasUniqueKeys x.config_mounts [] (no_keys MountValue)))
              (as_before-Ends s.bindings.rows b d (reconcile_mounts existing reload)
                (reconcile-Keeps s.bindings.rows s.config_mounts (mount_kind x.id)
                  l.mounts-bindings.save-apart l.mounts-bindings.delete-apart
                  l.mounts-bindings.create-apart existing.config_mounts
                  (mount_map x.config_mounts []) reload)
                m.2)))
          (λ _ e h. (
            same-EachAsWanted s.environment_variables (variable_kind x.id) (variable_of x.id) d e
                h.0 (variable_map x.environment_variables []) m.0,
            h.1.0,
            h.1.1,
          ))

    bindings-Ends :
        (existing : Application) (reload : Bool) (b d : D)
        → FetchedRows existing b
        → Bound b d
        → Ends (λ _ e. AllAsWanted e) (reconcile_bindings existing reload d)
    bindings-Ends existing reload b d f m =
        let z = reconcile_bindings existing reload d in
        imply-Ends
          (λ _ e.
            (s.environment_variables.rows e ≡ s.environment_variables.rows d)
            × ((s.config_mounts.rows e ≡ s.config_mounts.rows d) × BindingsAsWanted e))
          (λ _ e. AllAsWanted e) z
          (both-Ends (λ _ e. s.environment_variables.rows e ≡ s.environment_variables.rows d)
            (λ _ e. (s.config_mounts.rows e ≡ s.config_mounts.rows d) × BindingsAsWanted e) z
            (kept-Ends s.environment_variables.rows d z (
              reconcile-Keeps s.environment_variables.rows s.bindings (binding_kind x.id)
                l.bindings-variables.save-apart l.bindings-variables.delete-apart
                l.bindings-variables.create-apart existing.persistent_volume_bindings
                (volume_map x.persistent_volume_bindings []) reload d))
            (both-Ends (λ _ e. s.config_mounts.rows e ≡ s.config_mounts.rows d)
              (λ _ e. BindingsAsWanted e) z
              (kept-Ends s.config_mounts.rows d z (
                reconcile-Keeps s.config_mounts.rows s.bindings (binding_kind x.id)
                  l.bindings-mounts.save-apart l.bindings-mounts.delete-apart
                  l.bindings-mounts.create-apart existing.persistent_volume_bindings
                  (volume_map x.persistent_volume_bindings []) reload d))
              (reconcile-Reconciled s.bindings (binding_kind x.id) (binding_of x.id)
                l.bindings-IsTable (binding-IsKind s l x.id) existing.persistent_volume_bindings
                (volume_map x.persistent_volume_bindings []) reload d
                (same-Fetched s.bindings (binding_kind x.id) (binding_of x.id) b d m.2
                  existing.persistent_volume_bindings f.2)
                (volume_map-HasUniqueKeys x.persistent_volume_bindings [] (no_keys ℕ)))))
          (λ _ e h. (
            same-EachAsWanted s.environment_variables (variable_kind x.id) (variable_of x.id) d e
                h.0 (variable_map x.environment_variables []) m.0,
            same-EachAsWanted s.config_mounts (mount_kind x.id) (mount_of x.id) d e h.1.0
                (mount_map x.config_mounts []) m.1,
            h.1.1,
          ))

    pub update_rows-Ends :
        (existing : Application) (reload : Bool) (d : D)
        → FetchedRows existing d
        → Ends (λ _ e. AllAsWanted e) (update_rows s x existing reload d)
    unfolding update_rows
    update_rows-Ends existing reload d f =
        after-Ends (λ _ e. Mounted d e) (λ _ e. AllAsWanted e)
          (reconcile_variables existing reload d) _ (variables-Ends existing reload d f)
          (λ a e m.
            after-Ends (λ _ e. Bound d e) (λ _ e. AllAsWanted e) (reconcile_mounts existing a e) _
              (mounts-Ends existing a d e f m)
              (λ b c h.
                after-Ends (λ w g. (w ≡ volume_map x.persistent_volume_bindings []) × (g ≡ c))
                  (λ _ e. AllAsWanted e) (binding_map s x.persistent_volume_bindings [] [] c) _
                  (binding_map-Ends x.persistent_volume_bindings [] [] c)
                  (λ w g q. rw (q.0, q.1) (bindings-Ends existing b d c f h))))
