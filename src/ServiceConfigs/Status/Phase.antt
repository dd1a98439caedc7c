-- ===== src/ServiceConfigs/Status/Phase.antt =====
-- The phase that buildStatus of controllers/serviceconfig/status.go computes from what is in the cluster.
use meshach.Prelude.{
  ◌≡◌, ◌↔◌, refl, Bool-cases, inl, inr, none, some, List, [], ◌∷◌, ◌==◌, length, pos,
}
use meshach.Api.{
  Subset, MeshConfigSpec, ServiceConfig, ServiceConfigStatus, ConfigPhase, unknown,
  ConfiguredService,
}
use meshach.Client.{Result, ok, err, Store}
use meshach.Cluster.{Cluster}
use meshach.Mesh.Phases.Counts.{Paired, sub_status-Paired, calc_phase-Paired}
use meshach.ServiceConfigs.Status.Failed.{CountFails, sum_distributed-none}
use meshach.ServiceConfigs.Status.{
  count, subsets_found, workload_entry_of, get_service_entry_status, get_workload_entry_status,
  status_with_subsets, get_virtual_service_status, get_destination_rule_status, collect_status,
  with_phase, build_status,
}

module _ {S : Type 0} (cluster : Cluster S) (sc : ServiceConfig) (s : S) where
  workload_entry-Paired :
      (found : Result ConfiguredService) → Paired (workload_entry_of cluster sc found s)
  unfolding workload_entry_of
  workload_entry-Paired (err e) = refl
  workload_entry-Paired (ok cs) = elim (Bool-cases (length cs.spec.instances == 0)) [
    | inl h ↦ rw h
    | inr h ↦ rw h (
        sub_status-Paired (pos (length cs.spec.instances))
          (count cluster cluster.workload_entries sc s))
  ]

  with_subsets-Paired :
      {O : Type 0} (store : Store S O) (found : Result (List Subset))
      → Paired (status_with_subsets cluster store sc found s)
  unfolding status_with_subsets
  with_subsets-Paired store (err e) = refl
  with_subsets-Paired store (ok []) = refl
  with_subsets-Paired store (ok (x ∷ xs)) = sub_status-Paired (pos 1) (count cluster store sc s)

  -- Whatever the cluster answers, buildStatus does not panic, and its phase is unknown exactly if a list
  -- that it needs fails: that of the ServiceEntries; that of the WorkloadEntries, where the
  -- ConfiguredService is found and has instances; or that of the VirtualServices or of the
  -- DestinationRules, where the service has subsets.
  pub build_status_phase :
      (mesh : MeshConfigSpec)
      → (st : ServiceConfigStatus) × (phase : ConfigPhase) × (build_status cluster mesh sc s
          ≡ some st)
        × (st.phase ≡ some phase)
        × (st.status ≡ some (collect_status cluster mesh sc s))
        × ((phase ≡ unknown) ↔ CountFails cluster sc s mesh)
  unfolding build_status collect_status with_phase
  build_status_phase mesh =
      let (phase, e, u) =
        calc_phase-Paired (collect_status cluster mesh sc s) service_entry-Paired workloads-Paired
          virtual_service-Paired destination_rule-Paired in
      let counts = sum_distributed-none cluster sc s mesh in
      (
        record {
          last_update_time = none;
          phase = some phase;
          status = some (collect_status cluster mesh sc s);
        },
        phase,
        rw e,
        refl,
        refl,
        (λ e. counts.0 (u.0 e), λ f. u.1 (counts.1 f)),
      )
    where
      workloads-Paired : Paired (get_workload_entry_status cluster sc s)
      workloads-Paired =
          unfold get_workload_entry_status in
          workload_entry-Paired (cluster.configured_services.get sc.meta.namespace sc.meta.name s)

      service_entry-Paired : Paired (get_service_entry_status cluster sc s)
      service_entry-Paired =
          unfold get_service_entry_status in
          sub_status-Paired (pos 1) (count cluster cluster.service_entries sc s)

      virtual_service-Paired : Paired (get_virtual_service_status cluster mesh sc s)
      virtual_service-Paired =
          unfold get_virtual_service_status in
          with_subsets-Paired cluster.virtual_services (subsets_found cluster mesh sc s)

      destination_rule-Paired : Paired (get_destination_rule_status cluster mesh sc s)
      destination_rule-Paired =
          unfold get_destination_rule_status in
          with_subsets-Paired cluster.destination_rules (subsets_found cluster mesh sc s)
