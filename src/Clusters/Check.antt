-- ===== src/Clusters/Check.antt =====
-- pkg/k8s/manager/manager.go: cluterCheck, which brings the clusters in line with the config maps once a
-- minute.
pub mod Fails
use meshach.Prelude.{
  ℕ, Bool, true, false, ◌&&◌, Option, none, some, List, [], ◌∷◌, ◌++◌, map, any, ◌==◌,
  if◌then◌else◌, Text, Dict, text_eq, lookup, insert, delete,
}
use meshach.Adapter.Paths.{equal_fold}
use meshach.Client.Actions.{Outcome, done, panic, Action, pure, crash, ◌>>=◌, ◌>>◌}
use meshach.Clusters.{Cluster, ClusterManager, maintain, convert_to_kubeconfig, sort_by_name}

-- The variables of the loop over the expected clusters. `delList` and `currentList` are one map.
pub record Plan : Type 0 where
  pub new_clusters : List Cluster
  pub del_list : Dict Cluster
  pub add_list : Dict Text
  -- The clusters whose status has become ClusterMaintain
  pub maintained : List ℕ

unfoldable pub expect_list : Dict (Dict Text) → Dict Text → Dict Text
unfolding convert_to_kubeconfig insert
expect_list [] expected = expected
expect_list ((name, config_data) ∷ configmaps) expected =
    expect_list configmaps (insert name (convert_to_kubeconfig config_data) expected)

unfoldable pub current_list : List Cluster → Dict Cluster → Dict Cluster
unfolding insert
current_list [] current = current
current_list (c ∷ clusters) current = current_list clusters (insert c.name c current)

plan_found : Text → Text → Option Cluster → Plan → Plan
unfolding equal_fold text_eq insert delete
plan_found name conf none p = record p { add_list = insert name conf p.add_list }
plan_found name conf (some cls) p =
    if equal_fold conf cls.raw_kubeconfig
    then record p { new_clusters = p.new_clusters ++ cls ∷ []; del_list = delete name p.del_list }
    else if text_eq conf []
    then record p {
      new_clusters = p.new_clusters ++ record cls { status = maintain } ∷ [];
      del_list = delete name p.del_list;
      maintained = cls.id ∷ p.maintained;
    }
    else record p { add_list = insert name conf p.add_list }

unfoldable pub plan : Dict Text → Plan → Plan
unfolding plan_found lookup
plan [] p = p
plan ((name, conf) ∷ expected) p = plan expected (plan_found name conf (lookup name p.del_list) p)

-- A change of clusters through their pointers
mark : (Cluster → Cluster) → List ℕ → ClusterManager → ClusterManager
unfolding any
mark change ids m = map (λ c. if any (λ id. c.id == id) ids then change c else c) m

-- Stop closes a channel, and panics if it is closed already.
unfoldable pub stop_each : Dict Cluster → Action ClusterManager Unit
unfolding mark
stop_each [] = pure tt
stop_each ((name, cls) ∷ del_list) =
    let rest = stop_each del_list in
    if cls.stopped
    then crash
    else (λ m. (done tt, mark (λ c. record c { stopped = true }) (cls.id ∷ []) m)) >> rest

-- NewCluster with a kubeconfig; `none` is an error.
abbrev pub NewCluster : Type 0
NewCluster = Text → Text → Option Cluster

module _ (new_cluster : NewCluster) where
  -- `m.clusters = newClusters` in the end, or the return at the first cluster that cannot be made
  unfoldable pub add_each : Dict Text → List Cluster → Action ClusterManager Unit
  unfolding sort_by_name
  add_each [] new_clusters m = (done tt, sort_by_name new_clusters)
  add_each ((name, conf) ∷ add_list) new_clusters m = elim (new_cluster name conf) [
    | none ↦ (done tt, m)
    | some c ↦ add_each add_list (new_clusters ++ c ∷ []) m
  ]

  is_empty : {A : Type 0} → List A → Bool
  is_empty [] = true
  is_empty (x ∷ xs) = false

  carry_out : Plan → Action ClusterManager Unit
  unfolding stop_each add_each mark is_empty
  carry_out p m =
      let m' = mark (λ c. record c { status = maintain }) p.maintained m in
      if is_empty p.del_list && is_empty p.add_list
      then (done tt, m')
      else (stop_each p.del_list >> add_each p.add_list p.new_clusters) m'

  check_listed : Dict (Dict Text) → Action ClusterManager Unit
  unfolding carry_out plan expect_list current_list
  check_listed [] m = (done tt, m)
  check_listed (cm ∷ configmaps) m =
      carry_out
        (plan (expect_list (cm ∷ configmaps) []) (record {
          new_clusters = [];
          del_list = current_list m [];
          add_list = [];
          maintained = [];
        }))
        m

  -- The config maps by name with their data, or an error of the list
  unfoldable pub cluster_check : Option (Dict (Dict Text)) → Action ClusterManager Unit
  unfolding check_listed
  cluster_check none m = (done tt, m)
  cluster_check (some configmaps) m = check_listed configmaps m
