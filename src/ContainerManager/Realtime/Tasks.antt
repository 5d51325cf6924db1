-- ===== src/ContainerManager/Realtime/Tasks.antt =====
-- The numbers of RealtimeInfoService count running tasks.
use newrr.Common.{
  ℕ, suc, ◌+◌, ◌≡◌, refl, ◌∙◌, subst, ap, Bool, false, ◌&&◌, if◌then◌else◌, Bool-cases, inl, inr,
  List, [], ◌∷◌, count, Text, text_eq, text_eq_iff, Map, lookup, insert, ok, Result-cases, arith,
}
use newrr.ContainerManager.Realtime.{
  Node, Task, Inspected, Cluster, ServiceTaskPlacementInfo, ServiceRealtimeInfo, or_zero,
  count_tasks, placement_info, placement_infos_of, running_count, info_of, realtime_info_service,
  read_nodes,
}

running_count-insert :
    (k : Text) (m : Map ℕ)
    → running_count (insert k (suc (or_zero (lookup k m))) m) ≡ suc (running_count m)
unfolding insert lookup
running_count-insert k [] = refl
running_count-insert k ((j, n) ∷ m) = elim (Bool-cases (text_eq j k)) [
  | inl e ↦ rw e (omega arith)
  | inr e ↦ ground (arith, running_count-insert k m)
]

pub running_count-count_tasks :
    (ts : List Task) (m : Map ℕ)
    → running_count (count_tasks ts m) ≡ running_count m + count (λ t. t.running) ts
unfolding count_tasks
running_count-count_tasks [] m = omega arith
running_count-count_tasks (t ∷ ts) m = elim (Bool-cases t.running) [
  | inl e ↦
      let up = insert t.node_id (suc (or_zero (lookup t.node_id m))) m in
      rw e (omega (arith, running_count-count_tasks ts up, running_count-insert t.node_id m))
  | inr e ↦ rw e (omega (arith, running_count-count_tasks ts m))
]

-- What a map of counts has for a node.
abbrev pub count_of : Text → Map ℕ → ℕ
count_of j [] = 0
count_of j ((i, n) ∷ m) = (if text_eq i j then n else 0) + count_of j m

count_of-insert :
    (k j : Text) (m : Map ℕ)
    → count_of j (insert k (suc (or_zero (lookup k m))) m)
      ≡ (if text_eq k j then 1 else 0) + count_of j m
unfolding insert lookup
count_of-insert k j [] = refl
count_of-insert k j ((i, n) ∷ m) = elim (Bool-cases (text_eq i k)) [
  | inl e ↦ let s : i ≡ k = (text_eq_iff i k).0 e in rw e (rw s (ground arith))
  | inr e ↦ ground (arith, count_of-insert k j m)
]

-- Running on a node.
abbrev pub runs_on : Text → Task → Bool
runs_on j t = t.running && text_eq t.node_id j

pub count_of-count_tasks :
    (j : Text) (ts : List Task) (m : Map ℕ)
    → count_of j (count_tasks ts m) ≡ count_of j m + count (runs_on j) ts
unfolding count_tasks
count_of-count_tasks j [] m = omega arith
count_of-count_tasks j (t ∷ ts) m = elim (Bool-cases t.running) [
  | inl e ↦
      let up = insert t.node_id (suc (or_zero (lookup t.node_id m))) m in
      rw e (omega (arith, count_of-count_tasks j ts up, count_of-insert t.node_id j m))
  | inr e ↦ rw e (omega (arith, count_of-count_tasks j ts m))
]

-- The replicas that a list of placements has on a node.
abbrev pub replicas_on : Text → List ServiceTaskPlacementInfo → ℕ
replicas_on j [] = 0
replicas_on j (p ∷ ps) = (if text_eq p.node_id j then p.running_replicas else 0) + replicas_on j ps

replicas_on-placement_infos_of :
    (j : Text) (nodes : Map Node) (m : Map ℕ)
    → replicas_on j (placement_infos_of nodes m) ≡ count_of j m
unfolding placement_info
replicas_on-placement_infos_of j nodes [] = refl
replicas_on-placement_infos_of j nodes ((i, n) ∷ m) =
    ap (λ k. (if text_eq i j then n else 0) + k) (replicas_on-placement_infos_of j nodes m)

-- The information counts the tasks that it was made from.
pub record Counted (tasks : List Task) (info : ServiceRealtimeInfo) : Type 0 where
  pub all_running : info.running_replicas ≡ count (λ t. t.running) tasks
  pub each_node : (j : Text) → replicas_on j info.placement_infos ≡ count (runs_on j) tasks

info_of-Counted :
    (nodes : Map Node) (x : Inspected) (tasks : List Task)
    → Counted tasks (info_of false nodes x tasks)
unfolding info_of
info_of-Counted nodes x tasks =
    let all : running_count (count_tasks tasks []) ≡ count (λ t. t.running) tasks =
      omega (arith, running_count-count_tasks tasks []) in
    record {
      all_running = all;
      each_node = λ j.
          let on : count_of j (count_tasks tasks []) ≡ count (runs_on j) tasks =
            omega (arith, count_of-count_tasks j tasks []) in
          replicas_on-placement_infos_of j nodes (count_tasks tasks []) ∙ on;
    }

-- If the service is found and its tasks are listed, then what RealtimeInfoService returns with the
-- details of nodes has as many running replicas as there are running tasks, and on each node as many
-- as run there.
pub realtime_info_service-Counted :
    (c : Cluster) (name : Text) (x : Inspected) (tasks : List Task) (info : ServiceRealtimeInfo)
    → c.service_inspect name ≡ ok x
    → c.task_list x.name ≡ ok tasks
    → realtime_info_service c name false ≡ ok info
    → Counted tasks info
unfolding realtime_info_service
realtime_info_service-Counted c name x tasks info e f h = elim (Result-cases (read_nodes c false)) [
  | inr (b, g) ↦ let k = (rw g at h) in absurd cc
  | inl (nodes, g) ↦
      let k = (rw f at (rw e at (rw g at h))) in
      let same : info_of false nodes x tasks ≡ info = cc in
      subst (Counted tasks) same (info_of-Counted nodes x tasks)
]
