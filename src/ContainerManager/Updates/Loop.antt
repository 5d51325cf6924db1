-- ===== src/ContainerManager/Updates/Loop.antt =====
-- The retry loop of container_manager/service.go: how often it writes, and what a success has
-- written.
use newrr.Common.{
  ℕ, zero, suc, ◌+◌, ◌≤◌, ◌≡◌, refl, true, false, Option, none, some, inl, inr, ◌⊎◌, Result, ok,
  Text, text, contains, arith, Bool,
}
use newrr.Common.Run.{Run, returns, final}
use newrr.ContainerManager.Client.{ServiceSpec, ServiceData, DockerClient}
use newrr.ContainerManager.Updates.{
  Prepared, sends, refuses, crashes, update_loop, attempt, answered, again_if, send, settle,
}

abbrev pub is_conflict : Text → Bool
is_conflict e = contains e (text "update out of sequence")

module _ {World : Type 0} (docker : DockerClient World) where
  -- A count of the updates that the cluster has been sent: only an update raises it, by one.
  pub record Counts (updates : World → ℕ) : Type 0 where
    pub at_inspect :
        (name : Text) (w : World) → updates (docker.service_inspect name w).1 ≡ updates w
    pub at_update :
        (name : Text) (v : ℕ) (spec : ServiceSpec) (w : World)
        → updates (docker.service_update name v spec w).1 ≡ updates w + 1

  -- The service was inspected, and what was prepared from the answer was written for the version in
  -- that same answer.
  pub record Written (name : Text) (prepare : ServiceData → Prepared) (w' : World) : Type 0 where
    pub before : World
    pub between : World
    pub found : ServiceData
    pub spec : ServiceSpec
    pub inspected : docker.service_inspect name before ≡ (inr found, between)
    pub prepared : prepare found ≡ sends spec
    pub updated : docker.service_update name found.version spec between ≡ (none, w')

  module _ (name : Text) (prepare : ServiceData → Prepared) where
    module _ (updates : World → ℕ) (counts : Counts updates) (m : ℕ) where
      -- What may come after a round that has sent at most one update.
      abbrev Stays : ℕ → Run World (Result (Unit {0})) → Type 0
      Stays n again = (v : World) → updates v ≤ n → updates (final (again v)) ≤ m

      settle-bound :
          (e : Option Text) (again : Run World (Result (Unit {0}))) (n : ℕ) (w : World)
          → updates w ≤ n
          → n ≤ m
          → Stays n again
          → updates (final (settle docker e again w)) ≤ m
      settle-bound none again n w h l k = omega arith
      settle-bound (some e) again n w h l k = go (is_conflict e)
        where
          go : (b : Bool) → updates (final (again_if b again w)) ≤ m
          go true = k w h
          go false = omega arith

      send-bound :
          (v : ℕ) (p : Prepared) (again : Run World (Result (Unit {0}))) (n : ℕ) (w : World)
          → updates w + 1 ≤ n
          → n ≤ m
          → Stays n again
          → updates (final (send docker name v p again w)) ≤ m
      send-bound v (sends spec) again n w h l k =
          settle-bound (docker.service_update name v spec w).0 again n
            (docker.service_update name v spec w).1 (omega (arith, counts.at_update name v spec w))
            l k
      send-bound v (refuses e) again n w h l k = omega arith
      send-bound v crashes again n w h l k = omega arith

      answer-bound :
          (answer : Text ⊎ ServiceData) (again : Run World (Result (Unit {0}))) (n : ℕ) (w : World)
          → updates w + 1 ≤ n
          → n ≤ m
          → Stays n again
          → updates (final (answered docker name prepare answer again w)) ≤ m
      answer-bound (inl e) again n w h l k = omega arith
      answer-bound (inr found) again n w h l k =
          send-bound found.version (prepare found) again n w h l k

      attempt-bound :
          (again : Run World (Result (Unit {0}))) (n : ℕ) (w : World)
          → updates w + 1 ≤ n
          → n ≤ m
          → Stays n again
          → updates (final (attempt docker name prepare again w)) ≤ m
      unfolding attempt
      attempt-bound again n w h l k =
          answer-bound (docker.service_inspect name w).0 again n (docker.service_inspect name w).1
            (omega (arith, counts.at_inspect name w)) l k

      -- A loop with `retries` retries sends at most one update more than that.
      pub update_loop-bound :
          (retries : ℕ) (w : World)
          → updates w + retries + 1 ≤ m
          → updates (final (update_loop docker retries name prepare w)) ≤ m
      unfolding update_loop
      update_loop-bound zero w h =
          attempt-bound _ (updates w + 1) w (omega arith) (omega arith) (λ v k. omega arith)
      update_loop-bound (suc retries) w h =
          attempt-bound _ (updates w + 1) w (omega arith) (omega arith)
            (λ v k. update_loop-bound retries v (omega arith))

    module _ (u : World) where
      -- What follows a conflict has written, if it succeeds.
      abbrev Sound : Run World (Result (Unit {0})) → Type 0
      Sound again = (v : World) → again v ≡ returns (ok tt) u → Written name prepare u

      settle-Written :
          (e : Option Text) (again : Run World (Result (Unit {0}))) (w : World)
          → Sound again
          → ((e ≡ none) → (w ≡ u) → Written name prepare u)
          → settle docker e again w ≡ returns (ok tt) u
          → Written name prepare u
      settle-Written none again w k h q = h refl (ground arith)
      settle-Written (some e) again w k h q = go (is_conflict e) q
        where
          go : (b : Bool) → again_if b again w ≡ returns (ok tt) u → Written name prepare u
          go true q = k w q
          go false q = absurd (ground arith)

      send-Written :
          (before between : World) (found : ServiceData) (p : Prepared)
          (again : Run World (Result (Unit {0})))
          → docker.service_inspect name before ≡ (inr found, between)
          → prepare found ≡ p
          → Sound again
          → send docker name found.version p again between ≡ returns (ok tt) u
          → Written name prepare u
      send-Written before between found (sends spec) again i e k q =
          settle-Written _ again _ k
            (λ none_sent at_end. record {
              before = before;
              between = between;
              found = found;
              spec = spec;
              inspected = i;
              prepared = e;
              updated = ground arith;
            })
            q
      send-Written before between found (refuses r) again i e k q = absurd (ground arith)
      send-Written before between found crashes again i e k q = absurd (ground arith)

      answered-Written :
          (before between : World) (answer : Text ⊎ ServiceData)
          (again : Run World (Result (Unit {0})))
          → docker.service_inspect name before ≡ (answer, between)
          → Sound again
          → answered docker name prepare answer again between ≡ returns (ok tt) u
          → Written name prepare u
      answered-Written before between (inl e) again i k q = absurd (ground arith)
      answered-Written before between (inr found) again i k q =
          send-Written before between found (prepare found) again i refl k q

      attempt-Written :
          (again : Run World (Result (Unit {0}))) (w : World)
          → Sound again
          → attempt docker name prepare again w ≡ returns (ok tt) u
          → Written name prepare u
      unfolding attempt
      attempt-Written again w k q = answered-Written w _ _ again refl k q

      -- A loop that reports success has ended with an update that was accepted, made from the data,
      -- and sent for the version, of one and the same answer.
      pub update_loop-Written :
          (retries : ℕ) (w : World)
          → update_loop docker retries name prepare w ≡ returns (ok tt) u
          → Written name prepare u
      unfolding update_loop
      update_loop-Written zero w q = attempt-Written _ w (λ v e. absurd (ground arith)) q
      update_loop-Written (suc retries) w q =
          attempt-Written _ w (λ v e. update_loop-Written retries v e) q
