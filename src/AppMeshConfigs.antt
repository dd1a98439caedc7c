-- ===== src/AppMeshConfigs.antt =====
-- controllers/appmeshconfig: the AppMeshConfig controller, which counts what is there for the services of
-- an application (controller.go and status.go).
pub mod Phase
pub mod Counts
use meshach.Prelude.{
  ℕ, ◌+◌, ◌≡◌, Bool, true, false, Option, none, some, List, [], ◌∷◌, if◌then◌else◌, ℤ, pos, Text,
  length, ◌==◌,
}
use meshach.Api.{
  ObjectMeta, Policy, Subset, MeshConfigSpec, Port, Instance, SubStatus, Status, ConfigPhase,
}
use meshach.Cluster.{Cluster}
use meshach.Client.{Error, not_found, Result, ok, err, Call, Store, Retry}
use meshach.Client.Actions.{Action, pure, throw, deref, check, read, ◌>>=◌}
use meshach.Mesh.Phases.{sub_status, zero_status, calc_phase}

pub record Service : Type 0 where
  pub name : Text
  pub original_name : Text
  pub ports : List Port
  pub instances : List Instance
  pub policy : Option Policy
  pub subsets : List Subset

pub record AppMeshConfigStatus : Type 0 where
  pub last_update_time : Option ℕ
  pub phase : Option ConfigPhase
  pub status : Option Status

-- The services are the spec.
pub record AppMeshConfig : Type 0 where
  pub meta : ObjectMeta
  pub services : List Service
  pub status : AppMeshConfigStatus

-- The client of the status subresource, Get, retry at the type at which updateStatus calls it, the clock,
-- and DeepEqual of the two pointers to a `Status`.
pub record StatusClient (S : Type 0) : Type 0 where
  pub get : Text → Text → S → Result AppMeshConfig
  pub update_status : AppMeshConfig → Call S Unit
  pub retry_status : Retry (S × AppMeshConfig)
  pub now : S → ℕ
  pub equal_status : Status → Option Status → Bool

-- `for _, svc := range cr.Spec.Services { insCount += len(svc.Instances) }`
unfoldable pub instance_count : List Service → ℕ
instance_count [] = 0
instance_count (svc ∷ rest) = length svc.instances + instance_count rest

-- Nothing is desired without services, or where the first one has no subsets.
unfoldable pub skipped : List Service → Bool
skipped [] = true
skipped (svc ∷ _) = length svc.subsets == 0

-- `*count += c`, where the pointer is nil before the first service
abbrev pub plus : Option ℕ → ℕ → ℕ
plus none c = c
plus (some n) c = n + c

abbrev pub integer : Option ℕ → Option ℤ
integer none = none
integer (some n) = some (pos n)

-- The number of the listed objects, for the rest of the loop; an error ends it with nil.
unfoldable pub counted : {O : Type 0} → Result (List O) → (ℕ → Option ℕ) → Option ℕ
counted (ok items) rest = rest (length items)
counted (err _) rest = none

module _ {S : Type 0} where
  -- Counts the objects that have the original name of a service for a label; an error gives nil.
  unfoldable pub count_from :
      {O : Type 0} → Store S O → Text → Option ℕ → List Service → S → Option ℕ
  count_from store namespace so_far [] s = so_far
  count_from store namespace so_far (svc ∷ rest) s =
      counted (store.list namespace svc.original_name s)
        (λ c. count_from store namespace (some (plus so_far c)) rest s)

  unfoldable pub count : {O : Type 0} → Store S O → AppMeshConfig → S → Option ℤ
  unfolding count_from
  count store cr s = integer (count_from store cr.meta.namespace none cr.services s)

module _ {S : Type 0} (cluster : Cluster S) where
  unfoldable pub get_service_entry_status : AppMeshConfig → S → SubStatus
  get_service_entry_status cr s =
      sub_status (pos (length cr.services)) (count cluster.service_entries cr s)

  unfoldable pub get_workload_entry_status : AppMeshConfig → S → SubStatus
  get_workload_entry_status cr s =
      sub_status (pos (instance_count cr.services)) (count cluster.workload_entries cr s)

  unfoldable pub get_virtual_service_status : AppMeshConfig → S → SubStatus
  get_virtual_service_status cr s =
      if skipped cr.services
      then zero_status
      else sub_status (pos (length cr.services)) (count cluster.virtual_services cr s)

  unfoldable pub get_destination_rule_status : AppMeshConfig → S → SubStatus
  get_destination_rule_status cr s =
      if skipped cr.services
      then zero_status
      else sub_status (pos (length cr.services)) (count cluster.destination_rules cr s)

  unfoldable pub collect_status : AppMeshConfig → S → Status
  collect_status cr s = record {
    service_entry = get_service_entry_status cr s;
    workload_entry = get_workload_entry_status cr s;
    virtual_service = get_virtual_service_status cr s;
    destination_rule = get_destination_rule_status cr s;
  }

  unfoldable pub with_phase : Status → Option ConfigPhase → Option AppMeshConfigStatus
  with_phase st none = none
  with_phase st (some phase) =
      some (record { last_update_time = none; phase = some phase; status = some st })

  unfoldable pub build_status : AppMeshConfig → S → Option AppMeshConfigStatus
  build_status cr s = with_phase (collect_status cr s) (calc_phase (collect_status cr s))

  unfoldable pub get_mesh_config : Action S MeshConfigSpec
  get_mesh_config = do
    found ←
        read
          (cluster.mesh_configs.get cluster.opt.mesh_config_namespace cluster.opt.mesh_config_name)
    check found

  module _ (client : StatusClient S) where
    -- Get replaces the local object.
    unfoldable pub refetched : Error → Result AppMeshConfig → Call (S × AppMeshConfig) Unit
    refetched update_err (ok fresh) (s, cr) = (err update_err, (s, fresh))
    refetched update_err (err get_err) (s, cr) = (err get_err, (s, cr))

    unfoldable pub after_update : AppMeshConfig → Result Unit → Call (S × AppMeshConfig) Unit
    after_update req (ok _) st = (ok tt, st)
    after_update req (err e) (s, cr) =
        refetched e (client.get req.meta.namespace req.meta.name s) (s, cr)

    -- The closure that updateStatus retries.
    unfoldable pub write_status :
        AppMeshConfig → AppMeshConfigStatus → Call (S × AppMeshConfig) Unit
    write_status req status (s, cr) =
        let cr' = record cr { status = record status { last_update_time = some (client.now s) } } in
        let (r, s') = client.update_status cr' s in after_update req r (s', cr')

    unfoldable pub update_status : AppMeshConfig → Action S Unit
    update_status cr = do
      built ← read (build_status cr)
      status ← deref built
      current ← read (collect_status cr)
      if client.equal_status current cr.status.status then pure tt else do
        written ←
            λ s. let (r, st) = client.retry_status (write_status cr status) (s, cr) in check r st.0
        pure written

    unfoldable pub config_found : Result AppMeshConfig → Action S Unit
    config_found (err not_found) = pure tt
    config_found (err e) = throw e
    config_found (ok cr) = update_status cr

    unfoldable pub reconcile : Text → Text → Action S Unit
    reconcile namespace name = do
      mesh ← get_mesh_config
      found ← read (client.get namespace name)
      config_found found
