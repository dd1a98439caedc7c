-- ===== src/Clusters.antt =====
-- pkg/k8s/manager/manager.go: the clusters that the adapter writes to, as the config maps of the master
-- cluster name them. A connection is made by client-go; here only its name, its kubeconfig and its state
-- matter.
pub mod Check
pub mod Names
pub mod Operate
use meshach.Prelude.{
  ℕ, Bool, true, false, not, ◌&&◌, ◌||◌, Option, none, some, List, [], ◌∷◌, ◌++◌, map, filter,
  is_some, ◌==◌, if◌then◌else◌, Text, Dict, bytes, text_eq, lookup, insert, delete,
}
use meshach.Utils.{format_to_dns1123}
use meshach.Adapter.Handler.{before}

-- A new cluster has no status until its health is checked.
pub data ClusterStatus : Type 0 where
  unset ready offline maintain : ClusterStatus

-- `id` tells pointers apart; `stopped` says that the channel that Stop closes is closed.
pub record Cluster : Type 0 where
  pub id : ℕ
  pub name : Text
  pub raw_kubeconfig : Text
  pub status : ClusterStatus
  pub stopped : Bool

abbrev pub ClusterManager : Type 0
ClusterManager = List Cluster

abbrev pub is_offline : ClusterStatus → Bool
is_offline offline = true
is_offline unset = false
is_offline ready = false
is_offline maintain = false

online : List Cluster → List Cluster
unfolding filter
online = filter (λ c. not (is_offline c.status))

-- `break` behind the first match
first_named : Text → List Cluster → List Cluster
unfolding text_eq
first_named name [] = []
first_named name (c ∷ clusters) =
    let rest = first_named name clusters in
    if not (text_eq name []) && text_eq name c.name then c ∷ [] else rest

-- GetAll with its optional first argument
unfoldable pub get_all : Option Text → ClusterManager → List Cluster
unfolding online first_named format_to_dns1123
get_all none m = online m
get_all (some name) m =
    if text_eq name (bytes "all") then online m else first_named (format_to_dns1123 name) (online m)

unfoldable pub find_named : Text → List Cluster → Option Cluster
unfolding text_eq
find_named name [] = none
find_named name (c ∷ clusters) =
    let rest = find_named name clusters in if text_eq name c.name then some c else rest

if_online : Option Cluster → Option Cluster
if_online none = none
if_online (some c) = if is_offline c.status then none else some c

-- Get; every error is `none`.
unfoldable pub get : Text → ClusterManager → Option Cluster
unfolding find_named if_online format_to_dns1123
get name m =
    let n = format_to_dns1123 name in
    if text_eq n [] || text_eq n (bytes "all") then none else if_online (find_named n m)

insert_by_name : Cluster → List Cluster → List Cluster
unfolding before
insert_by_name c [] = c ∷ []
insert_by_name c (d ∷ clusters) =
    let rest = insert_by_name c clusters in
    if before c.name d.name then d ∷ rest else c ∷ d ∷ clusters

-- sort.Slice with `>` on the names; clusters of one name may come in any order, here in theirs.
unfoldable pub sort_by_name : List Cluster → List Cluster
unfolding insert_by_name
sort_by_name [] = []
sort_by_name (c ∷ clusters) = insert_by_name c (sort_by_name clusters)

-- Add; `none` is the error that the cluster is there already.
unfoldable pub add : Cluster → ClusterManager → Option ClusterManager
unfolding get sort_by_name
add cluster m =
    if is_some (get cluster.name m) then none else some (sort_by_name (m ++ cluster ∷ []))

unfoldable pub remove_named : Text → List Cluster → List Cluster
unfolding text_eq
remove_named name [] = []
remove_named name (c ∷ clusters) =
    let rest = c ∷ remove_named name clusters in if text_eq c.name name then clusters else rest

-- Delete, with GetClusterIndex
unfoldable pub delete_cluster : Text → ClusterManager → ClusterManager
unfolding remove_named
delete_cluster name m = if text_eq name [] then m else remove_named name m

kubeconfig_of : Option Text → Text
kubeconfig_of none = []
kubeconfig_of (some conf) = conf

in_maintenance : Option Text → Bool
unfolding text_eq
in_maintenance none = false
in_maintenance (some status) = text_eq status (bytes "Maintaining")

-- convertToKubeconfig of the data of a config map, as cluterCheck uses it: without the flag
unfoldable pub convert_to_kubeconfig : Dict Text → Text
unfolding kubeconfig_of in_maintenance lookup
convert_to_kubeconfig config_data =
    if in_maintenance (lookup (bytes "status") config_data)
    then []
    else kubeconfig_of (lookup (bytes "kubeconfig.yaml") config_data)
