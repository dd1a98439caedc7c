-- ===== src/Cluster.antt =====
-- What a reconciler holds: its options, the client for each kind of objects, and the functions of
-- third-party packages that it calls.
use meshach.Prelude.{◌≡◌, Bool, true, List, Text, Dict}
use meshach.Api.{MeshConfigSpec, ConfiguredService, ServiceConfig, ControllerOption}
use meshach.Istio.{
  VirtualServiceSpec, VirtualService, DestinationRuleSpec, DestinationRule, ServiceEntrySpec,
  ServiceEntry, WorkloadEntrySpec, WorkloadEntry, SidecarSpec, Sidecar,
}
use meshach.Client.{Result, Store, Retry, SetOwner}

-- equality.Semantic.DeepEqual at the types at which the program calls it
pub record DeepEqual : Type 0 where
  pub finalizers : List Text → List Text → Bool
  pub labels : Dict Text → Dict Text → Bool
  pub virtual_service : VirtualServiceSpec → VirtualServiceSpec → Bool
  pub destination_rule : DestinationRuleSpec → DestinationRuleSpec → Bool
  pub service_entry : ServiceEntrySpec → ServiceEntrySpec → Bool
  pub workload_entry : WorkloadEntrySpec → WorkloadEntrySpec → Bool
  pub sidecar : SidecarSpec → SidecarSpec → Bool

-- Equal values are found equal.
pub record DeepEqualLaws (eq : DeepEqual) : Type 0 where
  pub finalizers_refl : (x : List Text) → eq.finalizers x x ≡ true
  pub labels_refl : (x : Dict Text) → eq.labels x x ≡ true
  pub virtual_service_refl : (x : VirtualServiceSpec) → eq.virtual_service x x ≡ true
  pub destination_rule_refl : (x : DestinationRuleSpec) → eq.destination_rule x x ≡ true
  pub service_entry_refl : (x : ServiceEntrySpec) → eq.service_entry x x ≡ true
  pub workload_entry_refl : (x : WorkloadEntrySpec) → eq.workload_entry x x ≡ true
  pub sidecar_refl : (x : SidecarSpec) → eq.sidecar x x ≡ true

pub record Cluster (S : Type 0) : Type 0 where
  pub opt : ControllerOption
  pub mesh_configs : Store S MeshConfigSpec
  pub configured_services : Store S ConfiguredService
  pub service_configs : Store S ServiceConfig
  pub virtual_services : Store S VirtualService
  pub destination_rules : Store S DestinationRule
  pub service_entries : Store S ServiceEntry
  pub workload_entries : Store S WorkloadEntry
  pub sidecars : Store S Sidecar
  -- The namespaces of the pods with a value of a label; namespace and labels of every deployment.
  pub list_pods : Text → Text → S → Result (List Text)
  pub list_deployments : S → Result (List (Text × Dict Text))
  pub retry : Retry S
  pub set_owner : SetOwner
  pub deep_equal : DeepEqual
