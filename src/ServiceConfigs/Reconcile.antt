-- ===== src/ServiceConfigs/Reconcile.antt =====
-- controllers/serviceconfig: Reconcile (controller.go) and the reconcile functions of
-- workloadentry.go, destinationrule.go and virtualservice.go.
pub mod Converges
pub mod Returns
use meshach.Prelude.{
  ℕ, Bool, true, false, Option, none, some, List, [], ◌∷◌, ltb, if◌then◌else◌, Text, Dict, length,
}
use meshach.Api.{Subset, MeshConfigSpec, InstanceConfig, ServiceConfig}
use meshach.Istio.{VirtualService, DestinationRule, WorkloadEntry}
use meshach.Cluster.{Cluster}
use meshach.Client.{Error, not_found, Result, ok, err}
use meshach.Client.Actions.{
  Outcome, done, fail, panic, Action, pure, throw, crash, deref, try, check, read, ◌>>=◌, ◌>>◌,
}
use meshach.Client.Sync.{publish}
use meshach.Mesh.Objects.{
  copy_virtual_service, copy_destination_rule, own_virtual_service, own_destination_rule,
  compare_virtual_service, compare_destination_rule,
}
use meshach.ConfiguredServices.Build.{entry_name}
use meshach.ServiceConfigs.Build.{truncated, build_virtual_service, build_destination_rule}
use meshach.ServiceConfigs.Status.{StatusClient, subsets_found, update_status}

module _ {S : Type 0} (cluster : Cluster S) where
  -- Only the weight of an entry that exists is written.
  set_weight : InstanceConfig → Result WorkloadEntry → Action S Unit
  set_weight ins (err not_found) = pure tt
  set_weight ins (err e) = throw e
  set_weight ins (ok found) = do
    updated ← try (
        cluster.retry (
          cluster.workload_entries.update
            (record found { spec = record found.spec { weight = ins.weight } })))
    check updated

  set_weights : ServiceConfig → List InstanceConfig → Action S Unit
  unfolding set_weight entry_name
  set_weights sc [] = pure tt
  set_weights sc (ins ∷ rest) = do
    found ← read (
        cluster.workload_entries.get sc.meta.namespace
          (entry_name sc.meta.name ins.host ins.port.number))
    set_weight ins found
    set_weights sc rest

  unfoldable pub reconcile_workload_entry : ServiceConfig → Action S Unit
  unfolding set_weights
  reconcile_workload_entry sc = set_weights sc sc.spec.instances

  module _ (mesh : MeshConfigSpec) where
    unfoldable pub sync_destination_rule :
        ServiceConfig → List Subset → List DestinationRule → Action S Unit
    sync_destination_rule sc subsets items =
        publish cluster.destination_rules (λ o. o.meta) cluster.retry
          (compare_destination_rule cluster.deep_equal) copy_destination_rule cluster.set_owner
          own_destination_rule sc.meta (build_destination_rule cluster.opt mesh sc subsets) items

    unfoldable pub reconcile_destination_rule : ServiceConfig → Action S Unit
    reconcile_destination_rule sc = do
      listed ←
          read (cluster.destination_rules.list sc.meta.namespace (truncated sc.spec.original_name))
      items ← check listed
      found ← read (subsets_found cluster mesh sc)
      subsets ← check found
      if ltb 0 (length subsets) then sync_destination_rule sc subsets items else pure tt

    unfoldable pub sync_virtual_service :
        ServiceConfig → List Subset → List VirtualService → Action S Unit
    sync_virtual_service sc subsets items =
        publish cluster.virtual_services (λ o. o.meta) cluster.retry
          (compare_virtual_service cluster.deep_equal) copy_virtual_service cluster.set_owner
          own_virtual_service sc.meta (build_virtual_service cluster.opt mesh sc subsets) items

    unfoldable pub reconcile_virtual_service : ServiceConfig → Action S Unit
    reconcile_virtual_service sc = do
      listed ←
          read (cluster.virtual_services.list sc.meta.namespace (truncated sc.spec.original_name))
      items ← check listed
      found ← read (subsets_found cluster mesh sc)
      subsets ← check found
      if ltb 0 (length subsets) then sync_virtual_service sc subsets items else pure tt

  unfoldable pub get_mesh_config : Action S MeshConfigSpec
  get_mesh_config = do
    found ←
        read
          (cluster.mesh_configs.get cluster.opt.mesh_config_namespace cluster.opt.mesh_config_name)
    check found

  module _ (client : StatusClient S) where
    -- `NotFound` of the status update ends the reconciliation without an error.
    forgive_not_found : Outcome Unit → Action S Unit
    forgive_not_found (done _) = pure tt
    forgive_not_found (fail not_found) = pure tt
    forgive_not_found (fail e) = throw e
    forgive_not_found panic = crash

    reconcile_found : Result ServiceConfig → Action S Unit
    unfolding forgive_not_found
    reconcile_found (err not_found) = pure tt
    reconcile_found (err e) = throw e
    reconcile_found (ok sc) = do
      mesh ← get_mesh_config
      reconcile_workload_entry sc
      reconcile_destination_rule mesh sc
      reconcile_virtual_service mesh sc
      λ s. let (r, s') = update_status cluster mesh client sc s in forgive_not_found r s'

    unfoldable pub reconcile : Text → Text → Action S Unit
    unfolding reconcile_found
    reconcile namespace name = do
      found ← read (cluster.service_configs.get namespace name)
      reconcile_found found
