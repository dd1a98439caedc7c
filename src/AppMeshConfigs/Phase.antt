-- ===== src/AppMeshConfigs/Phase.antt =====
-- The phase that buildStatus of controllers/appmeshconfig/status.go computes from what is in the cluster.
use meshach.Prelude.{
  ◌≡◌, ◌↔◌, refl, Bool, true, false, Option, none, some, if◌then◌else◌, ℤ, pos, length,
}
use meshach.Api.{ConfigPhase, unknown}
use meshach.Cluster.{Cluster}
use meshach.Mesh.Phases.{sub_status, zero_status, sum_distributed}
use meshach.Mesh.Phases.Counts.{Paired, sub_status-Paired, calc_phase-Paired}
use meshach.AppMeshConfigs.{
  AppMeshConfig, AppMeshConfigStatus, instance_count, skipped, count, get_service_entry_status,
  get_workload_entry_status, get_virtual_service_status, get_destination_rule_status,
  collect_status, with_phase, build_status,
}

skip-Paired :
    (skip : Bool) (desired : ℤ) (found : Option ℤ)
    → Paired (if skip then zero_status else sub_status desired found)
skip-Paired true desired found = refl
skip-Paired false desired found = sub_status-Paired desired found

module _ {S : Type 0} (cluster : Cluster S) (cr : AppMeshConfig) (s : S) where
  -- Whatever the cluster answers, buildStatus of the AppMeshConfig controller does not panic, and its phase
  -- is unknown exactly if a count that it needs is not there.
  pub app_status_phase :
      (st : AppMeshConfigStatus) × (phase : ConfigPhase) × (build_status cluster cr s ≡ some st)
      × (st.phase ≡ some phase)
      × (st.status ≡ some (collect_status cluster cr s))
      × ((phase ≡ unknown) ↔ (sum_distributed (collect_status cluster cr s) ≡ none))
  unfolding build_status with_phase collect_status get_service_entry_status
      get_workload_entry_status get_virtual_service_status get_destination_rule_status
  app_status_phase =
      let (phase, e, u) =
        calc_phase-Paired (collect_status cluster cr s)
          (sub_status-Paired (pos (length cr.services)) (count cluster.service_entries cr s))
          (sub_status-Paired (pos (instance_count cr.services))
            (count cluster.workload_entries cr s))
          (skip-Paired (skipped cr.services) (pos (length cr.services))
            (count cluster.virtual_services cr s))
          (skip-Paired (skipped cr.services) (pos (length cr.services))
            (count cluster.destination_rules cr s)) in
      (
        record {
          last_update_time = none;
          phase = some phase;
          status = some (collect_status cluster cr s);
        },
        phase,
        rw e,
        refl,
        refl,
        u,
      )
