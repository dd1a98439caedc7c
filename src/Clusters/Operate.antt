-- ===== src/Clusters/Operate.antt =====
-- pkg/k8s/manager/operate.go: what is read from and deleted in several clusters at a time. The names of the
-- clusters are the optional first argument of GetAll, the only one that it looks at.
pub mod Everywhere
use meshach.Prelude.{Option, none, some, List, [], ◌∷◌, ◌++◌, Text}
use meshach.Client.{Error, not_found, already_exists, conflict, other, Result, ok, err, Call}
use meshach.Clusters.{Cluster, ClusterManager, get_all}
use meshach.Clusters

-- What the clusters' clients do, for one kind of objects: List with the options of the call, Get of a name
-- into an object that may hold an earlier answer, and Delete. `S` is the state of all clusters.
pub record Clients (S O : Type 0) : Type 0 where
  pub list : Cluster → S → Result (List O)
  pub get : Cluster → Text → O → S → Result O
  pub delete : Cluster → O → Call S Unit

module _ {O : Type 0} where
  append_items : List O → Result (List O) → Result (List O)
  append_items items (err e) = err e
  append_items items (ok rest) = ok (items ++ rest)

  -- One round of the loop over the clusters, in front of what the other rounds give
  with_list : Result (List O) → Result (List O) → Result (List O)
  unfolding append_items
  with_list (ok items) rest = append_items items rest
  with_list (err not_found) rest = rest
  with_list (err already_exists) rest = err already_exists
  with_list (err conflict) rest = err conflict
  with_list (err other) rest = err other

  unfoldable pub list_each : (Cluster → Result (List O)) → List Cluster → Result (List O)
  unfolding with_list
  list_each list [] = ok []
  list_each list (c ∷ clusters) = with_list (list c) (list_each list clusters)

  get_next : (O → Result O) → Result O → Result O
  get_next rest (err e) = err e
  get_next rest (ok o) = rest o

  unfoldable pub get_each : (Cluster → O → Result O) → List Cluster → O → Result O
  unfolding get_next
  get_each get [] o = ok o
  get_each get (c ∷ clusters) o = get_next (get_each get clusters) (get c o)

module _ {S O : Type 0} (clients : Clients S O) where
  abbrev listed : Option Text → ClusterManager → S → Result (List O)
  listed cluster_name m s = list_each (λ c. clients.list c s) (get_all cluster_name m)

  -- GetPods and its siblings have the same body, each for its kind of objects.
  unfoldable pub get_pods : Option Text → ClusterManager → S → Result (List O)
  get_pods = listed

  unfoldable pub get_nodes : Option Text → ClusterManager → S → Result (List O)
  get_nodes = listed

  unfoldable pub get_deployment : Option Text → ClusterManager → S → Result (List O)
  get_deployment = listed

  unfoldable pub get_statefulsets : Option Text → ClusterManager → S → Result (List O)
  get_statefulsets = listed

  unfoldable pub get_service : Option Text → ClusterManager → S → Result (List O)
  get_service = listed

  unfoldable pub get_endpoints : Option Text → ClusterManager → S → Result (List O)
  get_endpoints = listed

  unfoldable pub get_event : Option Text → ClusterManager → S → Result (List O)
  get_event = listed

  -- GetPod; `empty` is the new Pod.
  unfoldable pub get_pod : O → Text → Option Text → ClusterManager → S → Result O
  unfolding get_each
  get_pod empty name cluster_name m s =
      get_each (λ c o. clients.get c name o s) (get_all cluster_name m) empty

  -- The errors of the deletions are only logged.
  delete_listed : Cluster → List O → S → S
  delete_listed c [] s = s
  delete_listed c (o ∷ items) s = delete_listed c items (clients.delete c o s).1

  delete_of_list : Cluster → Result (List O) → Call S Unit → Call S Unit
  unfolding delete_listed
  delete_of_list c (ok items) rest s = rest (delete_listed c items s)
  delete_of_list c (err not_found) rest s = rest s
  delete_of_list c (err e) rest s = (err e, s)

  unfoldable pub delete_all : List Cluster → Call S Unit
  unfolding delete_of_list
  delete_all [] s = (ok tt, s)
  delete_all (c ∷ clusters) s = delete_of_list c (clients.list c s) (delete_all clusters) s

  -- DeletePods
  unfoldable pub delete_pods : Option Text → ClusterManager → Call S Unit
  unfolding delete_all
  delete_pods cluster_name m = delete_all (get_all cluster_name m)

  delete_got : Cluster → Result O → (O → Call S Unit) → Call S Unit
  delete_got c (err e) rest s = (err e, s)
  delete_got c (ok o) rest s = rest o (clients.delete c o s).1

  -- `o` is the Pod of the whole loop.
  unfoldable pub delete_each : Text → List Cluster → O → Call S Unit
  unfolding delete_got
  delete_each name [] o s = (ok tt, s)
  delete_each name (c ∷ clusters) o s =
      delete_got c (clients.get c name o s) (delete_each name clusters) s

  -- DeletePod
  unfoldable pub delete_pod : O → Text → Option Text → ClusterManager → Call S Unit
  unfolding delete_each
  delete_pod empty name cluster_name m = delete_each name (get_all cluster_name m) empty

module _ {K : Type 0} (kube_cli : Cluster → K) where
  client_of : Option Cluster → Option K
  client_of none = none
  client_of (some c) = some (kube_cli c)

  -- GetOriginKubeCli with all its arguments; every error is `none`.
  unfoldable pub get_origin_kube_cli : K → List Text → ClusterManager → Option K
  unfolding client_of Clusters.get
  get_origin_kube_cli master [] m = some master
  get_origin_kube_cli master (name ∷ []) m = client_of (Clusters.get name m)
  get_origin_kube_cli master (name ∷ second ∷ names) m = none
