-- ===== src/Samples/Accessing.antt =====
-- The theorems on WorkloadEntries and ServiceAccessors at the sample service.
use meshach.Prelude.{◌≡◌, refl, ap, pos, is_some, [], ◌∷◌, Text, bytes, lookup, filter}
use meshach.Api.{ServiceAccessor}
use meshach.Istio.{Sidecar}
use meshach.Client.{Result, ok}
use meshach.Client.Actions.{done}
use meshach.Client.Sync.{found_map, prune}
use meshach.Accessors.{build_sidecar, reconcile}
use meshach.Accessors.Forgives.{accessor_reconcile-returns}
use meshach.ConfiguredServices.Build.{truncated}
use meshach.ConfiguredServices.Workloads.{
  reconcile_entry, reconcile_instance, reconcile_instances, reconcile_workload_entry,
}
use meshach.ConfiguredServices.Workloads.Entries.{Rejects}
use meshach.ConfiguredServices.Workloads.Converges.{named, reconcile_workload_entry_converges}
use meshach.Samples.Data.{State, empty, mesh, meta_of, configured}
use meshach.Samples.World.{
  cluster, owner_law, sha1, with_state, workload_entries_in, workload_entries_Lawful,
}

abbrev label : Text
label = truncated sha1 configured.spec.original_name

abbrev entries_after : State
entries_after = (reconcile_workload_entry cluster sha1 mesh configured empty).1

never-Rejects : Rejects cluster (workload_entries_in label (bytes "ns"))
never-Rejects = record {
  create_err = λ o s s' e h. cc (ap (λ (p : Result Unit × State). p.0) h);
  exists = λ o s s' h. cc (ap (λ (p : Result Unit × State). p.0) h);
}

entries_return : (reconcile_workload_entry cluster sha1 mesh configured empty).0 ≡ done tt
unfolding reconcile_workload_entry reconcile_instances reconcile_instance reconcile_entry found_map
    prune lookup filter
entries_return = refl

reconcile_workload_entry_converges_example :
    is_some (workload_entries_in label (bytes "ns") entries_after (bytes "svc.h.80"))
    ≡ named cluster sha1 mesh configured (bytes "svc.h.80") configured.spec.instances
reconcile_workload_entry_converges_example =
    reconcile_workload_entry_converges cluster sha1 mesh configured empty entries_after
      (workload_entries_Lawful label (bytes "ns")) never-Rejects owner_law
      (with_state (reconcile_workload_entry cluster sha1 mesh configured empty) entries_return)
      (bytes "svc.h.80")

abbrev accessor : ServiceAccessor
accessor = record {
  meta = meta_of (bytes "web");
  spec = record { access_hosts = bytes "Svc_A" ∷ []; mesh_config_generation = pos 0 };
}

accessor_reconcile-returns_example :
    (reconcile cluster (λ name s. ok (accessor ∷ [])) (bytes "web") empty).0 ≡ done tt
accessor_reconcile-returns_example =
    accessor_reconcile-returns cluster (λ name s. ok (accessor ∷ [])) (bytes "web") empty mesh
      (accessor ∷ []) refl refl

abbrev sidecar : Sidecar
sidecar = build_sidecar mesh (bytes "ns") accessor
