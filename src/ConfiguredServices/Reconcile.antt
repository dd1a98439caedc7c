-- ===== src/ConfiguredServices/Reconcile.antt =====
-- controllers/configuredservice: Reconcile (controller.go) and the reconcile functions of
-- virtualservice.go, destinationrule.go and serviceentry.go.
pub mod Converges
pub mod Returns
use meshach.Prelude.{
  ℕ, Bool, true, false, Option, none, some, List, [], ◌∷◌, ltb, if◌then◌else◌, Text, Dict, length,
}
use meshach.Api.{ObjectMeta, Subset, MeshConfigSpec, ConfiguredService, ServiceConfig}
use meshach.Istio.{VirtualService, DestinationRule, ServiceEntry}
use meshach.Cluster.{Cluster}
use meshach.Client.{Error, not_found, Result, ok, err}
use meshach.Client.Actions.{Action, pure, throw, deref, check, read, ◌>>=◌, ◌>>◌}
use meshach.Client.Sync.{publish}
use meshach.Mesh.Subsets.{get_subset}
use meshach.Mesh.Objects.{
  copy_virtual_service, copy_destination_rule, copy_service_entry, own_virtual_service,
  own_destination_rule, own_service_entry, compare_virtual_service, compare_destination_rule,
  compare_service_entry,
}
use meshach.ConfiguredServices.Build.{
  truncated, build_virtual_service, build_destination_rule, build_service_entry,
}
use meshach.ConfiguredServices.Sidecars.{reconcile_sidecar}
use meshach.ConfiguredServices.Workloads.{reconcile_workload_entry}

module _ {S : Type 0} (cluster : Cluster S) where
  module _ (sha1 : Text → List ℕ) (mesh : MeshConfigSpec) where
    unfoldable pub sync_virtual_service :
        ConfiguredService → List Subset → List VirtualService → Action S Unit
    sync_virtual_service cs subsets items =
        publish cluster.virtual_services (λ o. o.meta) cluster.retry
          (compare_virtual_service cluster.deep_equal) copy_virtual_service cluster.set_owner
          own_virtual_service cs.meta (build_virtual_service sha1 cluster.opt mesh cs subsets) items

    unfoldable pub reconcile_virtual_service : ConfiguredService → Action S Unit
    reconcile_virtual_service cs = do
      listed ←
          read
            (cluster.virtual_services.list cs.meta.namespace (truncated sha1 cs.spec.original_name))
      items ← check listed
      let subsets = get_subset mesh cs.spec.instances
      if ltb 0 (length subsets) then sync_virtual_service cs subsets items else pure tt

    unfoldable pub sync_destination_rule :
        ConfiguredService → List Subset → List DestinationRule → Action S Unit
    sync_destination_rule cs subsets items =
        publish cluster.destination_rules (λ o. o.meta) cluster.retry
          (compare_destination_rule cluster.deep_equal) copy_destination_rule cluster.set_owner
          own_destination_rule cs.meta (build_destination_rule sha1 cluster.opt mesh cs subsets)
          items

    unfoldable pub reconcile_destination_rule : ConfiguredService → Action S Unit
    reconcile_destination_rule cs = do
      listed ←
          read (
            cluster.destination_rules.list cs.meta.namespace (truncated sha1 cs.spec.original_name))
      items ← check listed
      let actual_subsets = get_subset mesh cs.spec.instances
      if ltb 0 (length actual_subsets)
          then sync_destination_rule cs actual_subsets items
          else pure tt

    unfoldable pub reconcile_service_entry : ConfiguredService → Action S Unit
    reconcile_service_entry cr = do
      listed ←
          read
            (cluster.service_entries.list cr.meta.namespace (truncated sha1 cr.spec.original_name))
      items ← check listed
      publish cluster.service_entries (λ o. o.meta) cluster.retry
          (compare_service_entry cluster.deep_equal) copy_service_entry cluster.set_owner
          own_service_entry cr.meta (some (build_service_entry sha1 cluster.opt mesh cr)) items

    -- Rule and routes by default, where no ServiceConfig is found; any other result of Get skips them.
    default_config : ConfiguredService → Result ServiceConfig → Action S Unit
    default_config cs (err not_found) = do
      reconcile_destination_rule cs
      reconcile_virtual_service cs
    default_config cs _ = pure tt

    -- Reconcile, once the ConfiguredService and the MeshConfig are there.
    unfoldable pub distribute : Bool → ConfiguredService → Action S Unit
    unfolding default_config
    distribute initialised cs = do
      reconcile_sidecar cluster mesh initialised cs
      reconcile_workload_entry cluster sha1 mesh cs
      reconcile_service_entry cs
      config ← read (cluster.service_configs.get cs.meta.namespace cs.meta.name)
      default_config cs config

  unfoldable pub get_mesh_config : Action S MeshConfigSpec
  get_mesh_config = do
    found ←
        read
          (cluster.mesh_configs.get cluster.opt.mesh_config_namespace cluster.opt.mesh_config_name)
    check found

  module _ (sha1 : Text → List ℕ) (initialised : Bool) where
    reconcile_found : Result ConfiguredService → Action S Unit
    reconcile_found (err not_found) = pure tt
    reconcile_found (err e) = throw e
    reconcile_found (ok cs) = do mesh ← get_mesh_config; distribute sha1 mesh initialised cs

    unfoldable pub reconcile : Text → Text → Action S Unit
    unfolding reconcile_found
    reconcile namespace name = do
      found ← read (cluster.configured_services.get namespace name)
      reconcile_found found
