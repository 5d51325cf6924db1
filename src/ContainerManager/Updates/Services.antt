-- ===== src/ContainerManager/Updates/Services.antt =====
-- RestartService, RollbackService and SetServiceReplicaCount of container_manager/service.go.
use newrr.Common.{ℕ, ◌+◌, ◌≤◌, ◌≡◌, refl, Result, ok, Text, arith}
use newrr.Common.Integers.{ℤ}
use newrr.Common.Run.{Run, returns, final}
use newrr.ContainerManager.Client.{ServiceData, DockerClient}
use newrr.ContainerManager.Updates.{
  Prepared, update_loop, restarted, rolled_back, rescaled, restart_service, rollback_service,
  set_service_replica_count,
}
use newrr.ContainerManager.Updates.Loop.{Counts, Written, update_loop-bound, update_loop-Written}

-- The three functions, and what each sends.
pub data Change : Type 0 where
  restarts rolls_back : Change
  rescales : ℤ → Change

abbrev pub sent_by : Change → ServiceData → Prepared
sent_by restarts = restarted
sent_by rolls_back = rolled_back
sent_by (rescales replicas) = rescaled replicas

module _ {World : Type 0} (docker : DockerClient World) where
  abbrev pub change : Change → Text → Run World (Result (Unit {0}))
  change restarts name = restart_service docker name
  change rolls_back name = rollback_service docker name
  change (rescales replicas) name = set_service_replica_count docker name replicas

  change-update_loop :
      (c : Change) (name : Text) → change c name ≡ update_loop docker 5 name (sent_by c)
  unfolding restart_service rollback_service set_service_replica_count
  change-update_loop restarts name = refl
  change-update_loop rolls_back name = refl
  change-update_loop (rescales replicas) name = refl

  -- Whatever the cluster answers, a restart, a rollback or a rescaling sends it at most six updates,
  -- where `updates` counts what it has been sent.
  pub updates_at_most_six :
      (updates : World → ℕ)
      → Counts docker updates
      → (c : Change) (name : Text) (w : World) → updates (final (change c name w)) ≤ updates w + 6
  updates_at_most_six updates counts c name w =
      rw (change-update_loop c name)
        (update_loop-bound docker name (sent_by c) updates counts (updates w + 6) 5 w (omega arith))

  -- A restart, a rollback or a rescaling that reports success has ended with an update that the
  -- cluster accepted, made from the specification, and sent for the version, of one and the same
  -- answer to an inspection.
  pub success_is_Written :
      (c : Change) (name : Text) (w u : World)
      → change c name w ≡ returns (ok tt) u
      → Written docker name (sent_by c) u
  success_is_Written c name w u q =
      update_loop-Written docker name (sent_by c) u 5 w (rw (change-update_loop c name) at q)
