-- ===== src/ConfiguredServices/Workloads.antt =====
-- controllers/configuredservice/workloadentry.go
pub mod Handled
pub mod Entries
pub mod Converges
use meshach.Prelude.{
  ℕ, Bool, Option, none, some, List, [], ◌∷◌, if◌then◌else◌, Text, Dict, lookup, insert, delete,
}
use meshach.Api.{MeshConfigSpec, Instance, InstanceConfig, ConfiguredService}
use meshach.Istio.{WorkloadEntry}
use meshach.Cluster.{Cluster}
use meshach.Client.{already_exists, Result, ok, err}
use meshach.Client.Actions.{Action, pure, throw, try, check, read, ◌>>=◌, ◌>>◌}
use meshach.Client.Sync.{found_map, prune}
use meshach.Mesh.Rules.{differs}
use meshach.ConfiguredServices.Build.{truncated, entry_name, build_workload_entry}

-- `m[name] = ins.Weight`
unfoldable pub weights : Text → Dict ℕ → List InstanceConfig → Dict ℕ
unfolding insert entry_name
weights cr_name m [] = m
weights cr_name m (ins ∷ rest) =
    weights cr_name (insert (entry_name cr_name ins.host ins.port.number) ins.weight m) rest

unfoldable pub weighted : WorkloadEntry → Option ℕ → WorkloadEntry
weighted we none = we
weighted we (some weight) = record we { spec = record we.spec { weight = weight } }

-- `weight, ok := weightMap[we.Name]; if ok { we.Spec.Weight = weight }`
unfoldable pub with_weight : Dict ℕ → WorkloadEntry → WorkloadEntry
unfolding weighted
with_weight weight_map we = weighted we (lookup we.meta.name weight_map)

-- The found entry with the spec, the finalizers and the labels of the new one.
unfoldable pub copy_workload_entry : WorkloadEntry → WorkloadEntry → WorkloadEntry
copy_workload_entry we found = record {
  meta = record found.meta { labels = we.meta.labels; finalizers = we.meta.finalizers };
  spec = we.spec;
}

module _ {S : Type 0} (cluster : Cluster S) where
  -- On an error of Get there are no weights.
  unfoldable pub get_instance_weight : ConfiguredService → S → Dict ℕ
  unfolding weights
  get_instance_weight cr s = elim (cluster.service_configs.get cr.meta.namespace cr.meta.name s) [
    | ok config ↦ weights cr.meta.name [] config.spec.instances
    | err _ ↦ []
  ]

  unfoldable pub compare_workload_entry : WorkloadEntry → WorkloadEntry → Bool
  unfolding differs
  compare_workload_entry new old =
      differs cluster.deep_equal.finalizers cluster.deep_equal.labels
        cluster.deep_equal.workload_entry new.meta old.meta new.spec old.spec

  update_workload_entry : Dict ℕ → WorkloadEntry → WorkloadEntry → Action S Unit
  unfolding with_weight copy_workload_entry
  update_workload_entry weight_map we found = do
    updated ← try (
        cluster.retry
          (cluster.workload_entries.update (copy_workload_entry (with_weight weight_map we) found)))
    check updated

  after_create_entry : Dict WorkloadEntry → Result Unit → Action S (Dict WorkloadEntry)
  after_create_entry found (ok _) = pure found
  after_create_entry found (err already_exists) = pure found
  after_create_entry found (err e) = throw e

  unfoldable pub reconcile_entry :
      Dict ℕ
      → WorkloadEntry
      → Dict WorkloadEntry
      → Option WorkloadEntry
      → Action S (Dict WorkloadEntry)
  unfolding delete after_create_entry update_workload_entry compare_workload_entry
  reconcile_entry weight_map we found_entries none = do
    created ← try (cluster.workload_entries.create we)
    after_create_entry found_entries created
  reconcile_entry weight_map we found_entries (some found) =
      (if compare_workload_entry we found
        then update_workload_entry weight_map we found
        else pure tt)
      >> pure (delete we.meta.name found_entries)

  module _ (sha1 : Text → List ℕ) (mesh : MeshConfigSpec) where
    -- One round of the loop over the instances; the map without the entry of the instance.
    unfoldable pub reconcile_instance :
        Dict ℕ → ConfiguredService → Instance → Dict WorkloadEntry → Action S (Dict WorkloadEntry)
    reconcile_instance weight_map cr ins found_entries = do
      let we = build_workload_entry sha1 cluster.opt mesh cr ins
      owned ← check (cluster.set_owner cr.meta we.meta)
      reconcile_entry weight_map (record we { meta = owned }) found_entries
          (lookup owned.name found_entries)

    unfoldable pub reconcile_instances :
        Dict ℕ
        → ConfiguredService
        → List Instance
        → Dict WorkloadEntry
        → Action S (Dict WorkloadEntry)
    reconcile_instances weight_map cr [] found_entries = pure found_entries
    reconcile_instances weight_map cr (ins ∷ rest) found_entries = do
      left ← reconcile_instance weight_map cr ins found_entries
      reconcile_instances weight_map cr rest left

    unfoldable pub reconcile_workload_entry : ConfiguredService → Action S Unit
    reconcile_workload_entry cr = do
      listed ←
          read
            (cluster.workload_entries.list cr.meta.namespace (truncated sha1 cr.spec.original_name))
      items ← check listed
      weight_map ← read (get_instance_weight cr)
      left ← reconcile_instances weight_map cr cr.spec.instances (found_map (λ o. o.meta) [] items)
      prune cluster.workload_entries left
