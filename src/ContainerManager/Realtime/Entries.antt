-- ===== src/ContainerManager/Realtime/Entries.antt =====
-- What RealtimeInfoRunningServices collects about each service.
use newrr.Common.{
  ℕ, suc, ◌≡◌, ◌<◌, ◌+◌, ◌^◌, ◌++◌, refl, sym, ap, subst, ◌∙◌, Bool, true, false, not, ltb,
  if◌then◌else◌, Bool-cases, inl, inr, List, [], ◌∷◌, any, All, Option, none, some, Text, text_eq,
  text_eq_iff, text_eq_refl, Map, lookup, insert, lookup-insert, Result, ok, err, Result-cases,
  arith,
}
use newrr.Common.Integers.{pos, negsuc}
use newrr.ContainerManager.Realtime.{
  Node, Task, Inspected, Listed, Cluster, ServiceRealtimeInfo, ServiceTaskPlacementInfo, node_map,
  node_or, or_zero, count_tasks, running_count, count_running, append_placements, running_info,
  store_info, store_service, realtime_infos, realtime_info_running_services,
}
use newrr.ContainerManager.Realtime.Tasks.{
  Counted, replicas_on, count_of, count_of-count_tasks, running_count-count_tasks,
}

-- The two counting loops build the same map.
count_running-count_tasks : (ts : List Task) (m : Map ℕ) → count_running m ts ≡ count_tasks ts m
unfolding count_running count_tasks
count_running-count_tasks [] m = refl
count_running-count_tasks (t ∷ ts) m = elim (Bool-cases t.running) [
  | inl e ↦
      rw e (count_running-count_tasks ts (insert t.node_id (suc (or_zero (lookup t.node_id m))) m))
  | inr e ↦ rw e (count_running-count_tasks ts m)
]

replicas_on-append :
    (j : Text) (ps : List ServiceTaskPlacementInfo) (p : ServiceTaskPlacementInfo)
    → replicas_on j (ps ++ p ∷ [])
      ≡ replicas_on j ps + (if text_eq p.node_id j then p.running_replicas else 0)
replicas_on-append j [] p = omega arith
replicas_on-append j (q ∷ ps) p = omega (arith, replicas_on-append j ps p)

append_placements-replicas_on :
    (j : Text) (nodes : Map Node) (m : Map ℕ) (ps : List ServiceTaskPlacementInfo) (n : ℕ)
    → replicas_on j (append_placements nodes m ps n).0 ≡ replicas_on j ps + count_of j m
append_placements-replicas_on j nodes [] ps n = omega arith
append_placements-replicas_on j nodes ((i, k) ∷ m) ps n =
    let info : ServiceTaskPlacementInfo = record {
      node_id = i;
      node_name = (node_or (lookup i nodes)).hostname;
      is_manager_node = not (node_or (lookup i nodes)).is_manager;
      running_replicas = k;
    } in
    omega (
      arith,
      append_placements-replicas_on j nodes m (ps ++ info ∷ []) (n + k),
      replicas_on-append j ps info,
    )

append_placements-running_count :
    (nodes : Map Node) (m : Map ℕ) (ps : List ServiceTaskPlacementInfo) (n : ℕ)
    → (append_placements nodes m ps n).1 ≡ n + running_count m
append_placements-running_count nodes [] ps n = omega arith
append_placements-running_count nodes ((i, k) ∷ m) ps n =
    omega (arith, append_placements-running_count nodes m (ps ++ _ ∷ []) (n + k))

running_info-Counted :
    (nodes : Map Node) (x : Inspected) (tasks : List Task)
    → Counted tasks (running_info nodes x tasks)
unfolding running_info
running_info-Counted nodes x tasks =
    let m = count_running [] tasks in
    record {
      all_running = omega (
        arith,
        append_placements-running_count nodes m [] 0,
        ap running_count (count_running-count_tasks tasks []),
        running_count-count_tasks tasks [],
      );
      each_node = λ j. omega (
        arith,
        append_placements-replicas_on j nodes m [] 0,
        ap (count_of j) (count_running-count_tasks tasks []),
        count_of-count_tasks j tasks [],
      );
    }

-- Every placement bears the name of its node, and says manager where the node is none.
abbrev pub Hosted : List Node → List ServiceTaskPlacementInfo → Type 0
Hosted nodes ps =
    All
      (λ p.
        (p.node_name ≡ (node_or (lookup p.node_id (node_map nodes []))).hostname)
        × (p.is_manager_node ≡ not (node_or (lookup p.node_id (node_map nodes []))).is_manager))
      ps

Hosted-append :
    (nodes : List Node) (ps : List ServiceTaskPlacementInfo) (p : ServiceTaskPlacementInfo)
    → Hosted nodes ps
    → Hosted nodes (p ∷ [])
    → Hosted nodes (ps ++ p ∷ [])
Hosted-append nodes [] p h e = e
Hosted-append nodes (q ∷ ps) p h e = (h.0, Hosted-append nodes ps p h.1 e)

append_placements-Hosted :
    (nodes : List Node) (m : Map ℕ) (ps : List ServiceTaskPlacementInfo) (n : ℕ)
    → Hosted nodes ps
    → Hosted nodes (append_placements (node_map nodes []) m ps n).0
append_placements-Hosted nodes [] ps n h = h
append_placements-Hosted nodes ((i, k) ∷ m) ps n h =
    append_placements-Hosted nodes m (ps ++ _ ∷ []) (n + k)
      (Hosted-append nodes ps _ h ((refl, refl), tt))

-- A replicated service wants the number that its specification has, where an int holds it; another
-- has -1 for it.
abbrev pub Wanted : Option ℕ → ServiceRealtimeInfo → Type 0
Wanted (some n) info =
    (info.replicated_service ≡ true) × (n < 2 ^ 63 → info.desired_replicas ≡ pos n)
Wanted none info = (info.replicated_service ≡ false) × (info.desired_replicas ≡ negsuc 0)

running_info-Wanted :
    (nodes : Map Node) (x : Inspected) (tasks : List Task) (o : Option ℕ)
    → x.replicated ≡ o
    → Wanted o (running_info nodes x tasks)
unfolding running_info
running_info-Wanted nodes x tasks (some n) e = (rw e refl, λ l. rw e (rw (below n l) refl))
  where
    below : (n : ℕ) → n < 2 ^ 63 → ltb n (2 ^ 63) ≡ true
    below n l = ground arith
running_info-Wanted nodes x tasks none e = (rw e refl, rw e refl)

-- The services whose identifiers are in a list.
abbrev pub is_listed : List Listed → Text → Bool
is_listed ss id = any (λ s. text_eq s.service_id id) ss

module _ (c : Cluster) (services : List Listed) where
  -- An entry of the map: a listed service of that name, and the tasks that were listed for it.
  pub record Told (name : Text) (info : ServiceRealtimeInfo) : Type 0 where
    pub service : Text
    pub listed : is_listed services service ≡ true
    pub found : Inspected
    pub inspected : c.service_inspect service ≡ ok found
    pub named : (found.name ≡ name) × (info.name ≡ name)
    pub wanted : Wanted found.replicated info
    pub tasks : List Task
    pub tasks_listed : c.task_list name ≡ ok tasks
    pub counted : Counted tasks info
    pub nodes : List Node
    pub nodes_listed : c.node_list ≡ ok nodes
    pub hosted : Hosted nodes info.placement_infos

  abbrev AllTold : Map ServiceRealtimeInfo → Type 0
  AllTold infos =
      (name : Text) (info : ServiceRealtimeInfo) → lookup name infos ≡ some info → Told name info

  module _ (nodes : List Node) (n : c.node_list ≡ ok nodes) where
    store_info-AllTold :
        (id : Text) (x : Inspected) (r : Result (List Task)) (infos : Map ServiceRealtimeInfo)
        → is_listed services id ≡ true
        → c.service_inspect id ≡ ok x
        → c.task_list x.name ≡ r
        → AllTold infos
        → AllTold (store_info c (node_map nodes []) x r infos)
    unfolding running_info
    store_info-AllTold id x (err e) infos l s t a = λ name info h. a name info h
    store_info-AllTold id x (ok tasks) infos l s t a = λ name info h.
        let found =
          sym (lookup-insert x.name name (running_info (node_map nodes []) x tasks) infos) ∙ h in
        elim (Bool-cases (text_eq x.name name)) [
          | inl e ↦
              let same : some (running_info (node_map nodes []) x tasks) ≡ some info =
                (rw e at found) in
              let same' : running_info (node_map nodes []) x tasks ≡ info = cc in
              let k : x.name ≡ name = (text_eq_iff x.name name).0 e in
              subst (Told name) same' (record {
                service = id;
                listed = l;
                found = x;
                inspected = s;
                named = (k, k);
                wanted = running_info-Wanted (node_map nodes []) x tasks x.replicated refl;
                tasks = tasks;
                tasks_listed = subst (λ z. c.task_list z ≡ ok tasks) k t;
                counted = running_info-Counted (node_map nodes []) x tasks;
                nodes = nodes;
                nodes_listed = n;
                hosted = append_placements-Hosted nodes (count_running [] tasks) [] 0 tt;
              })
          | inr e ↦ a name info (rw e at found)
        ]

    store_service-AllTold :
        (id : Text) (r : Result Inspected) (infos : Map ServiceRealtimeInfo)
        → is_listed services id ≡ true
        → c.service_inspect id ≡ r
        → AllTold infos
        → AllTold (store_service c (node_map nodes []) r infos)
    store_service-AllTold id (err e) infos l s a = a
    store_service-AllTold id (ok x) infos l s a =
        store_info-AllTold id x (c.task_list x.name) infos l s refl a

    realtime_infos-AllTold :
        (ss : List Listed) (infos : Map ServiceRealtimeInfo)
        → All (λ s. is_listed services s.service_id ≡ true) ss
        → AllTold infos
        → AllTold (realtime_infos c (node_map nodes []) ss infos)
    unfolding realtime_infos
    realtime_infos-AllTold [] infos l a = a
    realtime_infos-AllTold (s ∷ ss) infos l a =
        realtime_infos-AllTold ss
          (store_service c (node_map nodes []) (c.service_inspect s.service_id) infos) l.1
          (store_service-AllTold s.service_id (c.service_inspect s.service_id) infos l.0 refl a)

nothing-Told :
    (c : Cluster) (services : List Listed) (name : Text) (info : ServiceRealtimeInfo)
    → lookup name [] ≡ some info
    → Told c services name info
unfolding lookup
nothing-Told c services name info h = cc

-- Every service of a list is listed.
listed_more :
    (s : Listed) (all ss : List Listed)
    → All (λ t. is_listed all t.service_id ≡ true) ss
    → All (λ t. is_listed (s ∷ all) t.service_id ≡ true) ss
listed_more s all [] h = tt
listed_more s all (t ∷ ss) h = (ground (arith, h.0), listed_more s all ss h.1)

listed-All : (ss : List Listed) → All (λ t. is_listed ss t.service_id ≡ true) ss
listed-All [] = tt
listed-All (s ∷ ss) = ((rw (text_eq_refl s.service_id) refl), listed_more s ss ss (listed-All ss))

-- Whatever RealtimeInfoRunningServices has under a name is about a service that was listed and bears
-- that name: it has as many running replicas as there are running tasks among those listed for the
-- service, and on each node as many as run there; each placement has the hostname of its node, and
-- says that it is a manager exactly where it is not; and it wants the replicas of the service, where
-- an int holds them, or -1 for one that is not replicated.
pub realtime_info_running_services-Told :
    (c : Cluster) (services : List Listed) (infos : Map ServiceRealtimeInfo) (name : Text)
    (info : ServiceRealtimeInfo)
    → c.service_list ≡ ok services
    → realtime_info_running_services c ≡ ok infos
    → lookup name infos ≡ some info
    → Told c services name info
unfolding realtime_info_running_services
realtime_info_running_services-Told c services infos name info l h k =
    elim (Result-cases c.node_list) [
      | inr (b, g) ↦ let m = (rw g at h) in absurd cc
      | inl (nodes, g) ↦
          let m = (rw l at (rw g at h)) in
          let same : realtime_infos c (node_map nodes []) services [] ≡ infos = cc in
          realtime_infos-AllTold c services nodes g services [] (listed-All services)
            (nothing-Told c services) name info (rw (← same) at k)
    ]
