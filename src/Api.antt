-- ===== src/Api.antt =====
-- api/v1alpha1: the custom resources of the mesh. A pointer that the CRD schema leaves optional is an
-- `Option`; a required one, and the elements of a slice of pointers, are values.

use meshach.Prelude.{ℕ, ℤ, Bool, Option, List, Text, Dict, text_eq, any, bytes}

-- metav1.ObjectMeta, the fields that the program reads or writes
pub record ObjectMeta : Type 0 where
  pub name : Text
  pub namespace : Text
  pub labels : Dict Text
  pub finalizers : List Text

pub record Policy : Type 0 where
  pub load_balancer : Dict Text
  pub max_connections : ℤ
  pub timeout : Text
  pub max_retries : ℤ

pub record Subset : Type 0 where
  pub name : Text
  pub labels : Dict Text
  pub policy : Option Policy
  pub is_canary : Bool

-- `subset.In(list)`: some item of the list has the subset's name.
unfoldable pub is_in : Subset → List Subset → Bool
unfolding any
is_in s list = any (λ item. text_eq item.name s.name) list

pub record MeshConfigSpec : Type 0 where
  pub match_source_label_keys : List Text
  pub workload_entry_label_keys : List Text
  pub mesh_labels_remap : Dict Text
  pub extracted_labels : List Text
  pub sidecar_select_label : Text
  pub sidecar_default_hosts : List Text
  pub global_subsets : List Subset
  pub global_policy : Option Policy

pub record Port : Type 0 where
  pub name : Text
  pub protocol : Text
  pub number : ℕ

pub record Instance : Type 0 where
  pub host : Text
  pub labels : Dict Text
  pub port : Port
  pub weight : ℕ

pub record ConfiguredServiceSpec : Type 0 where
  pub original_name : Text
  pub instances : List Instance
  pub mesh_config_generation : ℤ

pub record ConfiguredService : Type 0 where
  pub meta : ObjectMeta
  pub spec : ConfiguredServiceSpec

-- `weight` is an int32.
pub record Destination : Type 0 where
  pub subset : Text
  pub weight : ℤ

pub record RerouteOption : Type 0 where
  pub reroute_policy : Text
  pub specific_route : Dict (List Destination)

pub record InstanceConfig : Type 0 where
  pub host : Text
  pub port : Port
  pub weight : ℕ

pub record ServiceConfigSpec : Type 0 where
  pub original_name : Text
  pub policy : Option Policy
  pub route : List Destination
  pub instances : List InstanceConfig
  pub reroute_option : Option RerouteOption
  pub canary_reroute_option : Option RerouteOption
  pub mesh_config_generation : ℤ

-- What the counting of istio resources found; a nil count is `none`.
pub record SubStatus : Type 0 where
  pub desired : ℤ
  pub distributed : Option ℤ
  pub undistributed : Option ℤ

pub record Status : Type 0 where
  pub service_entry : SubStatus
  pub workload_entry : SubStatus
  pub virtual_service : SubStatus
  pub destination_rule : SubStatus

pub data ConfigPhase : Type 0 where
  undistributed distributed distributing unknown : ConfigPhase

pub record ServiceConfigStatus : Type 0 where
  pub last_update_time : Option ℕ
  pub phase : Option ConfigPhase
  pub status : Option Status

pub record ServiceConfig : Type 0 where
  pub meta : ObjectMeta
  pub spec : ServiceConfigSpec
  pub status : ServiceConfigStatus

pub record ServiceAccessorSpec : Type 0 where
  pub access_hosts : List Text
  pub mesh_config_generation : ℤ

pub record ServiceAccessor : Type 0 where
  pub meta : ObjectMeta
  pub spec : ServiceAccessorSpec

-- The ReroutePolicy values
abbrev pub unchangeable : Text
unchangeable = bytes "Unchangeable"

-- The fields of option.ControllerOption that the controllers read
pub record ControllerOption : Type 0 where
  pub proxy_attempts : ℤ
  pub proxy_per_try_timeout : ℤ
  pub proxy_retry_on : Text
  pub mesh_config_name : Text
  pub mesh_config_namespace : Text
  pub select_label : Text
