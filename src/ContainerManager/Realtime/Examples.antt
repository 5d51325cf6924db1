-- ===== src/ContainerManager/Realtime/Examples.antt =====
-- A cluster of two nodes, and a service with three running tasks.
use newrr.Common.{
  ◌≡◌, refl, Bool, true, false, List, [], ◌∷◌, some, text, text_eq, ok, err, failure, String,
  if◌then◌else◌,
}
use newrr.Common.Integers.{pos}
use newrr.ContainerManager.Realtime.{
  Task, Inspected, Listed, Cluster, ServiceRealtimeInfo, realtime_info_service,
  realtime_info_running_services, service_running_servers,
}
use newrr.ContainerManager.Realtime.Tasks.{Counted, realtime_info_service-Counted}
use newrr.ContainerManager.Realtime.Entries.{Told, realtime_info_running_services-Told}

abbrev on_node : String → Bool → Task
on_node id running = record { node_id = text id; running = running }

abbrev web : Inspected
web = record { name = text "web"; replicated = some 4 }

abbrev tasks_of_web : List Task
tasks_of_web = on_node "n1" true ∷ on_node "n2" true ∷ on_node "n2" false ∷ on_node "n1" true ∷ []

abbrev services : List Listed
services = record { service_id = text "s1"; service_name = text "web" } ∷ []

abbrev cluster : Cluster
cluster = record {
  node_list = ok (
      record { id = text "n1"; hostname = text "alpha"; is_manager = true }
      ∷ record { id = text "n2"; hostname = text "beta"; is_manager = false }
      ∷ []);
  service_list = ok services;
  service_inspect = λ id. if text_eq id (text "s1") then ok web else err (failure "not found");
  task_list = λ name. if text_eq name (text "web") then ok tasks_of_web else ok [];
}

-- The manager is told to be no manager, and the worker to be one.
abbrev web_info : ServiceRealtimeInfo
web_info = record {
  name = text "web";
  placement_infos =
      record {
        node_id = text "n1";
        node_name = text "alpha";
        is_manager_node = false;
        running_replicas = 2;
      }
      ∷ record {
        node_id = text "n2";
        node_name = text "beta";
        is_manager_node = true;
        running_replicas = 1;
      }
      ∷ [];
  desired_replicas = pos 4;
  running_replicas = 3;
  replicated_service = true;
}

info_of_web : realtime_info_service cluster (text "s1") false ≡ ok web_info
unfolding realtime_info_service text_eq
info_of_web = refl

hosts_of_web :
    service_running_servers cluster (text "web")
    ≡ ok (text "alpha" ∷ text "beta" ∷ text "alpha" ∷ [])
unfolding service_running_servers
hosts_of_web = refl

realtime_info_service-Counted_example : Counted tasks_of_web web_info
unfolding text_eq
realtime_info_service-Counted_example =
    realtime_info_service-Counted cluster (text "s1") web tasks_of_web web_info refl refl
      info_of_web

realtime_info_running_services-Told_example : Told cluster services (text "web") web_info
unfolding realtime_info_running_services text_eq
realtime_info_running_services-Told_example =
    realtime_info_running_services-Told cluster services ((text "web", web_info) ∷ []) (text "web")
      web_info refl refl refl
