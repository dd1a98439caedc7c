-- ===== src/ServiceConfigs/Status.antt =====
-- controllers/serviceconfig/status.go, and getSubset of destinationrule.go
pub mod Failed
pub mod Phase
use meshach.Prelude.{
  ℕ, Bool, true, false, not, Option, none, some, List, [], ◌∷◌, ltb, ◌==◌, if◌then◌else◌, ℤ, pos,
  Text, length,
}
use meshach.Api.{
  Subset, MeshConfigSpec, ConfiguredService, SubStatus, Status, ConfigPhase, ServiceConfigStatus,
  ServiceConfig,
}
use meshach.Cluster.{Cluster}
use meshach.Client.{Error, not_found, Result, ok, err, Call, Store, Retry}
use meshach.Client.Actions.{Action, pure, throw, deref, try, check, read, ◌>>=◌, ◌>>◌}
use meshach.Mesh.Subsets.{get_subset}
use meshach.Mesh.Phases.{sub_status, zero_status, calc_phase}
use meshach.ServiceConfigs.Build.{truncated}

-- The client of the status subresource, retry at the type at which updateStatus calls it, the clock, and
-- DeepEqual of the two pointers to a `Status`.
pub record StatusClient (S : Type 0) : Type 0 where
  pub update_status : ServiceConfig → Call S Unit
  pub retry_status : Retry (S × ServiceConfig)
  pub now : S → ℕ
  pub equal_status : Status → Option Status → Bool

module _ {S : Type 0} (cluster : Cluster S) where
  -- getSubset: without a ConfiguredService there are no subsets.
  subsets_of : MeshConfigSpec → Result ConfiguredService → Result (List Subset)
  unfolding get_subset
  subsets_of mesh (ok cs) = ok (get_subset mesh cs.spec.instances)
  subsets_of mesh (err not_found) = ok []
  subsets_of mesh (err e) = err e

  unfoldable pub subsets_found : MeshConfigSpec → ServiceConfig → S → Result (List Subset)
  unfolding subsets_of
  subsets_found mesh sc s =
      subsets_of mesh (cluster.configured_services.get sc.meta.namespace sc.meta.name s)

  -- The number of objects with the label of the service; an error is logged and gives nil.
  unfoldable pub count : {O : Type 0} → Store S O → ServiceConfig → S → Option ℤ
  unfolding truncated
  count store sc s = elim (store.list sc.meta.namespace (truncated sc.spec.original_name) s) [
    | ok items ↦ some (pos (length items))
    | err _ ↦ none
  ]

  unfoldable pub get_service_entry_status : ServiceConfig → S → SubStatus
  unfolding count sub_status
  get_service_entry_status sc s = sub_status (pos 1) (count cluster.service_entries sc s)

  unfoldable pub workload_entry_of : ServiceConfig → Result ConfiguredService → S → SubStatus
  unfolding count sub_status
  workload_entry_of sc (err _) s = zero_status
  workload_entry_of sc (ok cs) s =
      if length cs.spec.instances == 0
      then zero_status
      else sub_status (pos (length cs.spec.instances)) (count cluster.workload_entries sc s)

  unfoldable pub get_workload_entry_status : ServiceConfig → S → SubStatus
  unfolding workload_entry_of
  get_workload_entry_status sc s =
      workload_entry_of sc (cluster.configured_services.get sc.meta.namespace sc.meta.name s) s

  -- An error of getSubset is logged and leaves no subsets; without subsets nothing is desired.
  unfoldable pub status_with_subsets :
      {O : Type 0} → Store S O → ServiceConfig → Result (List Subset) → S → SubStatus
  unfolding count sub_status
  status_with_subsets store sc (err _) s = zero_status
  status_with_subsets store sc (ok []) s = zero_status
  status_with_subsets store sc (ok (_ ∷ _)) s = sub_status (pos 1) (count store sc s)

  module _ (mesh : MeshConfigSpec) where
    unfoldable pub get_virtual_service_status : ServiceConfig → S → SubStatus
    unfolding status_with_subsets subsets_found
    get_virtual_service_status sc s =
        status_with_subsets cluster.virtual_services sc (subsets_found mesh sc s) s

    unfoldable pub get_destination_rule_status : ServiceConfig → S → SubStatus
    unfolding status_with_subsets subsets_found
    get_destination_rule_status sc s =
        status_with_subsets cluster.destination_rules sc (subsets_found mesh sc s) s

    unfoldable pub collect_status : ServiceConfig → S → Status
    unfolding get_service_entry_status get_workload_entry_status get_virtual_service_status
        get_destination_rule_status
    collect_status sc s = record {
      service_entry = get_service_entry_status sc s;
      workload_entry = get_workload_entry_status sc s;
      virtual_service = get_virtual_service_status sc s;
      destination_rule = get_destination_rule_status sc s;
    }

    unfoldable pub with_phase : Status → Option ConfigPhase → Option ServiceConfigStatus
    with_phase st none = none
    with_phase st (some phase) =
        some (record { last_update_time = none; phase = some phase; status = some st })

    unfoldable pub build_status : ServiceConfig → S → Option ServiceConfigStatus
    unfolding collect_status calc_phase with_phase
    build_status sc s = with_phase (collect_status sc s) (calc_phase (collect_status sc s))

    module _ (client : StatusClient S) where
      -- A read that replaces the local object, then the error of the update.
      refetch : ServiceConfig → Error → Call (S × ServiceConfig) Unit
      refetch req update_err (s, sc) =
          elim (cluster.service_configs.get req.meta.namespace req.meta.name s) [
            | ok fresh ↦ (err update_err, (s, fresh))
            | err get_err ↦ (err get_err, (s, sc))
          ]

      after_update : ServiceConfig → Result Unit → Call (S × ServiceConfig) Unit
      unfolding refetch
      after_update req (ok _) st = (ok tt, st)
      after_update req (err e) st = refetch req e st

      -- The closure that updateStatus retries.
      unfoldable pub write_status :
          ServiceConfig → ServiceConfigStatus → Call (S × ServiceConfig) Unit
      unfolding after_update
      write_status req status (s, sc) =
          let sc' = record sc {
            status = record status { last_update_time = some (client.now s) };
          } in
          let (r, s') = client.update_status sc' s in after_update req r (s', sc')

      unfoldable pub update_status : ServiceConfig → Action S Unit
      unfolding build_status write_status
      update_status sc = do
        built ← read (build_status sc)
        status ← deref built
        current ← read (collect_status sc)
        if client.equal_status current sc.status.status then pure tt else do
          written ← λ s.
              let (r, st) = client.retry_status (write_status sc status) (s, sc) in check r st.0
          pure written
