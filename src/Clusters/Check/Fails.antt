-- ===== src/Clusters/Check/Fails.antt =====
-- What a config map of a cluster that cannot be connected to does to the others.
use meshach.Prelude.{
  ◌≡◌, refl, true, false, none, some, [], ◌∷◌, arith, Text, Dict, text_eq, lookup, insert, any,
}
use meshach.Client.Actions.{done, panic}
use meshach.Clusters.{Cluster, ClusterManager, convert_to_kubeconfig}
use meshach.Clusters.Check.{
  NewCluster, expect_list, current_list, plan, plan_found, stop_each, add_each, is_empty, carry_out,
  check_listed, cluster_check, mark,
}

module _ (new_cluster : NewCluster) (c : Cluster) (name : Text) (config_data : Dict Text) where
  -- A cluster whose config map is gone is stopped; if that of the one new cluster gives no connection,
  -- the stopped cluster stays in the list, and the check a minute later panics, since it stops it again.
  pub cluster_check-panics :
      text_eq c.name name ≡ false
      → c.stopped ≡ false
      → new_cluster name (convert_to_kubeconfig config_data) ≡ none
      → (m : ClusterManager) × (cluster_check new_cluster (some ((name, config_data) ∷ [])) (c ∷ [])
          ≡ (done tt, m))
        × (m ≡ record c { stopped = true } ∷ [])
        × ((cluster_check new_cluster (some ((name, config_data) ∷ [])) m).0 ≡ panic)
  unfolding cluster_check check_listed carry_out expect_list current_list plan plan_found stop_each
      add_each is_empty mark insert lookup any
  cluster_check-panics apart running fails =
      (record c { stopped = true } ∷ [], rw apart (ground (arith, fails)), refl, rw apart refl)
