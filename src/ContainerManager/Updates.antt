-- ===== src/ContainerManager/Updates.antt =====
-- container_manager/service.go: the functions that change a service that is there. Each reads the
-- version of the service, sends the new specification for that version, and tries again when
-- somebody else was quicker. The pause between two tries is not modelled.
pub mod Loop
pub mod Services
use newrr.Common.{
  ℕ, zero, suc, ◌+◌, ◌-◌, ◌%◌, ◌^◌, Option, none, some, inl, inr, Result, ok, err, Error, failure,
  Text, text, contains, ◌⊎◌, true, false, Bool,
}
use newrr.Common.Integers.{ℤ, pos, negsuc}
use newrr.Common.Run.{Run, Outcome, returns, panics}
use newrr.ContainerManager.Client.{ServiceSpec, ServiceData, DockerClient}

-- maxRetriesForVersionConflict
abbrev pub max_retries_for_version_conflict : ℕ
max_retries_for_version_conflict = 5

-- What is made of the data of a service: a specification, an error, or a nil dereference.
pub data Prepared : Type 0 where
  sends : ServiceSpec → Prepared
  refuses : Error → Prepared
  crashes : Prepared

abbrev pub version_conflict : Error
version_conflict = failure "error updating service due to version out of sync [retried 5 times]"

abbrev pub inspect_error : Error
inspect_error = failure "error getting swarm server version"

abbrev pub update_error : Error
update_error = failure "error updating service"

-- strings.Contains(err.Error(), "update out of sequence") and the branches behind it.
abbrev pub again_if :
    {World : Type 0} → Bool → Run World (Result (Unit {0})) → Run World (Result (Unit {0}))
again_if true again w = again w
again_if false again w = returns (err update_error) w

-- What RestartService sends; TaskTemplate.ForceUpdate is a uint64.
abbrev pub restarted : ServiceData → Prepared
restarted found =
    sends (record found.spec { force_update = (found.spec.force_update + 1) % 2 ^ 64 })

-- What RollbackService sends; `*serviceData.PreviousSpec` panics at nil.
abbrev pub rolled_back : ServiceData → Prepared
rolled_back found = elim found.previous_spec [ none ↦ crashes | some spec ↦ sends spec ]

-- uint64(replicas) of an int: a negative one wraps around.
abbrev pub to_uint64 : ℤ → ℕ
to_uint64 (pos n) = n % 2 ^ 64
to_uint64 (negsuc n) = 2 ^ 64 - 1 - n % 2 ^ 64

-- What SetServiceReplicaCount sends.
abbrev pub rescaled : ℤ → ServiceData → Prepared
rescaled replicas found = elim found.spec.replicated [
  | none ↦ refuses (failure "service is not a replicated service")
  | some n ↦ sends (record found.spec { replicated = some (to_uint64 replicas) })
]

module _ {World : Type 0} (docker : DockerClient World) where
  -- What follows the request to update: success, another try, or an error.
  abbrev pub settle : Option Text → Run World (Result (Unit {0})) → Run World (Result (Unit {0}))
  settle none again w = returns (ok tt) w
  settle (some e) again w = again_if (contains e (text "update out of sequence")) again w

  abbrev pub send :
      Text → ℕ → Prepared → Run World (Result (Unit {0})) → Run World (Result (Unit {0}))
  send name version (sends spec) again w =
      let (error, w') = docker.service_update name version spec w in settle error again w'
  send name version (refuses e) again w = returns (err e) w
  send name version crashes again w = panics w

  abbrev pub answered :
      Text
      → (ServiceData → Prepared)
      → Text ⊎ ServiceData
      → Run World (Result (Unit {0}))
      → Run World (Result (Unit {0}))
  answered name prepare (inl e) again w = returns (err inspect_error) w
  answered name prepare (inr found) again w = send name found.version (prepare found) again w

  -- One round of the loop, with what is done after a conflict.
  unfoldable pub attempt :
      Text
      → (ServiceData → Prepared)
      → Run World (Result (Unit {0}))
      → Run World (Result (Unit {0}))
  attempt name prepare again w =
      let (answer, w') = docker.service_inspect name w in answered name prepare answer again w'

  -- The loop; the number counts the retries that are left.
  unfoldable pub update_loop : ℕ → Text → (ServiceData → Prepared) → Run World (Result (Unit {0}))
  update_loop zero name prepare w = attempt name prepare (λ w'. returns (err version_conflict) w') w
  update_loop (suc retries) name prepare w =
      attempt name prepare (λ w'. update_loop retries name prepare w') w

  -- RestartService
  unfoldable pub restart_service : Text → Run World (Result (Unit {0}))
  unfolding update_loop
  restart_service name = update_loop 5 name restarted

  -- RollbackService
  unfoldable pub rollback_service : Text → Run World (Result (Unit {0}))
  unfolding update_loop
  rollback_service name = update_loop 5 name rolled_back

  -- SetServiceReplicaCount
  unfoldable pub set_service_replica_count : Text → ℤ → Run World (Result (Unit {0}))
  unfolding update_loop
  set_service_replica_count name replicas = update_loop 5 name (rescaled replicas)

  -- RemoveService
  unfoldable pub remove_service : Text → Run World (Result (Unit {0}))
  remove_service name w =
      let (error, w') = docker.service_remove name w in
      elim error [
        | none ↦ returns (ok tt) w'
        | some e ↦ returns (err (failure "error removing service")) w'
      ]
