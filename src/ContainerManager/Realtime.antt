-- ===== src/ContainerManager/Realtime.antt =====
-- container_manager/service.go: where the tasks of services run, which is RealtimeInfoService,
-- RealtimeInfoRunningServices and ServiceRunningServers. They read the cluster and change nothing;
-- what it answers while one of them runs is a record of answers.
pub mod Tasks
pub mod Entries
pub mod Examples
use newrr.Common.{
  ℕ, suc, ◌++◌, ◌+◌, ◌-◌, ◌^◌, String, Bool, true, false, not, ltb, if◌then◌else◌, List, [], ◌∷◌,
  map, select, Option, none, some, Text, text_eq, Map, lookup, insert, Result, ok, err, Error,
  failure, ◌>>=◌,
}
use newrr.Common.Integers.{ℤ, pos, negsuc}

-- swarm.Node; `is_manager` if Spec.Role is NodeRoleManager.
pub record Node : Type 0 where
  pub id : Text
  pub hostname : Text
  pub is_manager : Bool

-- `running` if Status.State is TaskStateRunning.
pub record Task : Type 0 where
  pub node_id : Text
  pub running : Bool

-- What is read of a service: `replicated` is the number of a replicated one.
pub record Inspected : Type 0 where
  pub name : Text
  pub replicated : Option ℕ

pub record Listed : Type 0 where
  pub service_id : Text
  pub service_name : Text

-- The answers of NodeList, ServiceList, ServiceInspectWithRaw, and TaskList with a service as filter.
pub record Cluster : Type 0 where
  pub node_list : Result (List Node)
  pub service_list : Result (List Listed)
  pub service_inspect : Text → Result Inspected
  pub task_list : Text → Result (List Task)

pub record ServiceTaskPlacementInfo : Type 0 where
  pub node_id : Text
  pub node_name : Text
  pub is_manager_node : Bool
  pub running_replicas : ℕ

pub record ServiceRealtimeInfo : Type 0 where
  pub name : Text
  pub placement_infos : List ServiceTaskPlacementInfo
  pub desired_replicas : ℤ
  pub running_replicas : ℕ
  pub replicated_service : Bool

-- int(*Replicas), of a uint64
abbrev pub to_int : ℕ → ℤ
to_int n = if ltb n (2 ^ 63) then pos n else negsuc (2 ^ 64 - 1 - n)

-- nodeMap
unfoldable pub node_map : List Node → Map Node → Map Node
unfolding insert
node_map [] m = m
node_map (x ∷ xs) m = node_map xs (insert x.id x m)

-- What Go's map answers for a node that is not there.
abbrev pub no_node : Node
no_node = record { id = []; hostname = []; is_manager = false }

abbrev pub node_or : Option Node → Node
node_or none = no_node
node_or (some x) = x

abbrev pub or_zero : Option ℕ → ℕ
or_zero none = 0
or_zero (some n) = n

-- servicePlacementCountMap
unfoldable pub count_tasks : List Task → Map ℕ → Map ℕ
unfolding lookup insert
count_tasks [] m = m
count_tasks (t ∷ ts) m =
    if t.running
    then count_tasks ts (insert t.node_id (suc (or_zero (lookup t.node_id m))) m)
    else count_tasks ts m

-- The role is compared with `!=`.
unfoldable pub placement_info : Map Node → Text → ℕ → ServiceTaskPlacementInfo
unfolding lookup
placement_info nodes id n = record {
  node_id = id;
  node_name = (node_or (lookup id nodes)).hostname;
  is_manager_node = not (node_or (lookup id nodes)).is_manager;
  running_replicas = n;
}

abbrev pub placement_infos_of : Map Node → Map ℕ → List ServiceTaskPlacementInfo
placement_infos_of nodes [] = []
placement_infos_of nodes ((id, n) ∷ m) = placement_info nodes id n ∷ placement_infos_of nodes m

-- runningCount
abbrev pub running_count : Map ℕ → ℕ
running_count [] = 0
running_count ((id, n) ∷ m) = n + running_count m

abbrev pub desired : Option ℕ → ℤ
desired none = negsuc 0
desired (some n) = to_int n

abbrev pub is_replicated : Option ℕ → Bool
is_replicated none = false
is_replicated (some n) = true

-- The information about a service, from what was read of it.
unfoldable pub info_of : Bool → Map Node → Inspected → List Task → ServiceRealtimeInfo
unfolding count_tasks placement_info
info_of ignore nodes x tasks =
    let counts = count_tasks tasks [] in
    record {
      name = x.name;
      placement_infos = if ignore then [] else placement_infos_of nodes counts;
      desired_replicas = desired x.replicated;
      running_replicas = running_count counts;
      replicated_service = is_replicated x.replicated;
    }

-- if err != nil { return errors.New(text) }
abbrev pub relabelled {ℓ} : {A : Type ℓ} → Result A → String → Result A
relabelled (ok a) text = ok a
relabelled (err e) text = err (failure text)

-- The same in RealtimeInfoRunningServices, which has a body of its own: servicePlacementCountMap,
-- then the loop that appends a placement and adds to runningCount for each node, and what is
-- stored.
unfoldable pub count_running : Map ℕ → List Task → Map ℕ
unfolding lookup insert
count_running m [] = m
count_running m (t ∷ ts) =
    if t.running
    then count_running (insert t.node_id (suc (or_zero (lookup t.node_id m))) m) ts
    else count_running m ts

abbrev pub append_placements :
    Map Node → Map ℕ → List ServiceTaskPlacementInfo → ℕ → List ServiceTaskPlacementInfo × ℕ
append_placements nodes [] infos total = (infos, total)
append_placements nodes ((id, n) ∷ m) infos total =
    let node = node_or (lookup id nodes) in
    let info : ServiceTaskPlacementInfo = record {
      node_id = id;
      node_name = node.hostname;
      is_manager_node = not node.is_manager;
      running_replicas = n;
    } in
    append_placements nodes m (infos ++ info ∷ []) (total + n)

abbrev pub set_desired : Option ℕ → ℤ × Bool
set_desired (some n) = (to_int n, true)
set_desired none = (negsuc 0, false)

unfoldable pub running_info : Map Node → Inspected → List Task → ServiceRealtimeInfo
unfolding count_running
running_info nodes x tasks =
    let (number, replicated) = set_desired x.replicated in
    let (infos, total) = append_placements nodes (count_running [] tasks) [] 0 in
    record {
      name = x.name;
      placement_infos = infos;
      desired_replicas = number;
      running_replicas = total;
      replicated_service = replicated;
    }

module _ (c : Cluster) where
  abbrev pub read_nodes : Bool → Result (Map Node)
  read_nodes true = ok []
  read_nodes false = relabelled c.node_list "error getting node list" >>= λ xs. ok (node_map xs [])

  unfoldable pub realtime_info_service : Text → Bool → Result ServiceRealtimeInfo
  unfolding node_map info_of
  realtime_info_service service_name ignore = do
    nodes ← read_nodes ignore
    x ← relabelled (c.service_inspect service_name) "error getting service"
    tasks ← c.task_list x.name
    ok (info_of ignore nodes x tasks)

  -- One service of the loop of RealtimeInfoRunningServices; an error skips it.
  abbrev pub store_info :
      Map Node → Inspected → Result (List Task) → Map ServiceRealtimeInfo → Map ServiceRealtimeInfo
  store_info nodes x (err e) infos = infos
  store_info nodes x (ok tasks) infos = insert x.name (running_info nodes x tasks) infos

  abbrev pub store_service :
      Map Node → Result Inspected → Map ServiceRealtimeInfo → Map ServiceRealtimeInfo
  store_service nodes (err e) infos = infos
  store_service nodes (ok x) infos = store_info nodes x (c.task_list x.name) infos

  unfoldable pub realtime_infos :
      Map Node → List Listed → Map ServiceRealtimeInfo → Map ServiceRealtimeInfo
  unfolding running_info insert
  realtime_infos nodes [] infos = infos
  realtime_infos nodes (s ∷ ss) infos =
      realtime_infos nodes ss (store_service nodes (c.service_inspect s.service_id) infos)

  unfoldable pub realtime_info_running_services : Result (Map ServiceRealtimeInfo)
  unfolding node_map realtime_infos
  realtime_info_running_services = do
    nodes ← relabelled c.node_list "error getting node list"
    services ← relabelled c.service_list "error getting service list"
    ok (realtime_infos (node_map nodes []) services [])

  -- ServiceRunningServers: the hosts of the running tasks of the first service with the name.
  abbrev pub hosts_of : Map Node → List Task → List Text
  hosts_of nodes [] = []
  hosts_of nodes (t ∷ ts) =
      let rest = hosts_of nodes ts in
      if t.running then (node_or (lookup t.node_id nodes)).hostname ∷ rest else rest

  abbrev pub servers_of : Text → Map Node → List Listed → Result (List Text)
  servers_of service_name nodes [] = err (failure "service not found")
  servers_of service_name nodes (s ∷ ss) =
      let rest = servers_of service_name nodes ss in
      if text_eq s.service_name service_name
      then (relabelled (c.task_list s.service_name) "error getting task list" >>= λ tasks.
          ok (hosts_of nodes tasks))
      else rest

  unfoldable pub service_running_servers : Text → Result (List Text)
  unfolding node_map lookup text_eq
  service_running_servers service_name = do
    nodes ← relabelled c.node_list "error getting node list"
    services ← relabelled c.service_list "error getting service list"
    servers_of service_name (node_map nodes []) services
