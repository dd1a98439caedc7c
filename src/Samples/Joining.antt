-- ===== src/Samples/Joining.antt =====
-- The theorems on the cluster manager and the health checks at one cluster.
use meshach.Prelude.{
  ◌≤◌, ◌≡◌, refl, true, false, ◌&&◌, none, some, List, [], ◌∷◌, ◌++◌, ◌↔◌, All, arith,
  if◌then◌else◌, Text, bytes, text_eq, Bool-cases, inl, inr,
}
use meshach.Client.{Error, ok, err, not_found}
use meshach.Client.Actions.{done, panic}
use meshach.Clusters.{Cluster, ClusterManager, ready, unset, add, get_all}
use meshach.Clusters.Check.{NewCluster, cluster_check}
use meshach.Clusters.Check.Fails.{cluster_check-panics}
use meshach.Clusters.Operate.{Clients, get_pods, delete_pod, delete_each}
use meshach.Clusters.Operate.Everywhere.{
  Answers, all_items, Missing, get_pods_lem, delete_pod-Missing,
}
use meshach.Clusters.Names.{count_named, Plain, add_distinct}
use meshach.Utils.{format_to_dns1123}
use meshach.Health.{BasicHandler, ready_endpoint, live_endpoint}
use meshach.Health.Endpoints.{all_pass, endpoint_status}

abbrev east : Cluster
east = record {
  id = 0;
  name = bytes "east";
  raw_kubeconfig = bytes "server: east";
  status = ready;
  stopped = false;
}

abbrev west : Cluster
west = record {
  id = 1;
  name = bytes "west";
  raw_kubeconfig = bytes "server: west";
  status = unset;
  stopped = false;
}

-- No connection can be made.
abbrev refusing : NewCluster
refusing name conf = none

east-west : text_eq east.name (bytes "west") ≡ false
unfolding text_eq
east-west = refl

cluster_check-panics_example :
    (m : ClusterManager) × (cluster_check refusing (some ((bytes "west", []) ∷ [])) (east ∷ [])
      ≡ (done tt, m))
    × (m ≡ record east { stopped = true } ∷ [])
    × ((cluster_check refusing (some ((bytes "west", []) ∷ [])) m).0 ≡ panic)
cluster_check-panics_example =
    cluster_check-panics refusing east (bytes "west") [] east-west refl refl

both : ClusterManager
both = west ∷ east ∷ []

added_west : add west (east ∷ []) ≡ some both
unfolding add both text_eq
added_west = refl

west-Plain : Plain west.name
unfolding format_to_dns1123 text_eq
west-Plain = (refl, refl)

east_once : (n : Text) → count_named n (east ∷ []) ≤ 1
east_once n = elim (Bool-cases (text_eq n east.name)) [
  | inl same ↦ rw same (omega arith)
  | inr apart ↦ rw apart (omega arith)
]

add_distinct_example : count_named (bytes "east") both ≤ 1
add_distinct_example =
    add_distinct west (east ∷ []) both west-Plain (refl, tt) east_once added_west (bytes "east")

abbrev checks : BasicHandler
checks = record {
  liveness_checks = (bytes "east", none) ∷ [];
  readiness_checks = (bytes "synced", some (bytes "not yet")) ∷ [];
}

endpoint_status_example :
    ((ready_endpoint checks).1
      ≡ (if all_pass checks.readiness_checks && all_pass checks.liveness_checks then 200 else 503))
    × ((live_endpoint checks).1 ≡ (if all_pass checks.liveness_checks then 200 else 503))
endpoint_status_example = endpoint_status checks

-- Pods are texts, and all of them run in the eastern cluster.
abbrev pods : Clients (List Text) Text
pods = record {
  list = λ c s. if text_eq c.name (bytes "east") then ok s else err not_found;
  get = λ c name o s. if text_eq c.name (bytes "east") then ok name else err not_found;
  delete = λ c o s. (ok tt, []);
}

get_pods_lem_example : (get_pods pods none both (bytes "a" ∷ []) ≡ ok (bytes "a" ∷ [])) ↔ (
    All (λ c. Answers (pods.list c (bytes "a" ∷ []))) (get_all none both)
    × (bytes "a" ∷ [] ≡ all_items (λ c. pods.list c (bytes "a" ∷ [])) (get_all none both)))
get_pods_lem_example = get_pods_lem pods none both (bytes "a" ∷ []) (bytes "a" ∷ [])

west-Missing : (t : List Text) → Missing (λ o. pods.get west (bytes "a") o t)
unfolding text_eq
west-Missing t o = (not_found, refl)

both_online : get_all none both ≡ [] ++ west ∷ east ∷ []
unfolding get_all both
both_online = refl

delete_pod-Missing_example :
    ((e : Error) × ((delete_pod pods [] (bytes "a") none both (bytes "a" ∷ [])).0 ≡ err e))
    × ((delete_pod pods [] (bytes "a") none both (bytes "a" ∷ [])).1
        ≡ (delete_each pods (bytes "a") [] [] (bytes "a" ∷ [])).1)
delete_pod-Missing_example =
    delete_pod-Missing pods [] (bytes "a") none both (bytes "a" ∷ []) [] west (east ∷ [])
      both_online west-Missing
