-- ===== src/Samples/Data.antt =====
-- A mesh with two subsets, a service with one instance, and a state of the cluster that starts empty.
use meshach.Prelude.{Bool, true, false, none, some, List, [], ◌∷◌, pos, Text, bytes}
use meshach.Api.{
  ObjectMeta, Policy, Subset, MeshConfigSpec, Instance, ConfiguredService, ServiceConfig,
  ControllerOption,
}
use meshach.Istio.{VirtualService, DestinationRule, ServiceEntry, WorkloadEntry, Sidecar}

pub record State : Type 0 where
  pub virtual_services : List VirtualService
  pub destination_rules : List DestinationRule
  pub service_entries : List ServiceEntry
  pub workload_entries : List WorkloadEntry
  pub sidecars : List Sidecar

abbrev pub empty : State
empty = record {
  virtual_services = [];
  destination_rules = [];
  service_entries = [];
  workload_entries = [];
  sidecars = [];
}

abbrev pub key : Text
key = bytes "app"

abbrev pub meta_of : Text → ObjectMeta
meta_of name = record { name = name; namespace = bytes "ns"; labels = []; finalizers = [] }

abbrev pub policy : Policy
policy = record {
  load_balancer = [];
  max_connections = pos 10;
  timeout = bytes "20";
  max_retries = pos 3;
}

abbrev pub subset_of : Text → Bool → Subset
subset_of name canary = record {
  name = name;
  labels = (bytes "zone", name) ∷ [];
  policy = none;
  is_canary = canary;
}

abbrev pub blue : Subset
blue = subset_of (bytes "blue") false

abbrev pub green : Subset
green = subset_of (bytes "green") false

abbrev pub red : Subset
red = subset_of (bytes "red") false

abbrev pub gray : Subset
gray = subset_of (bytes "gray") true

abbrev pub mesh : MeshConfigSpec
mesh = record {
  match_source_label_keys = bytes "zone" ∷ [];
  workload_entry_label_keys = [];
  mesh_labels_remap = [];
  extracted_labels = [];
  sidecar_select_label = key;
  sidecar_default_hosts = [];
  global_subsets = blue ∷ gray ∷ [];
  global_policy = some policy;
}

abbrev pub instance_one : Instance
instance_one = record {
  host = bytes "h";
  labels = (bytes "zone", bytes "blue") ∷ (key, bytes "web") ∷ [];
  port = record { name = bytes "p"; protocol = bytes "HTTP"; number = 80 };
  weight = 0;
}

abbrev pub configured : ConfiguredService
configured = record {
  meta = meta_of (bytes "svc");
  spec = record {
    original_name = bytes "svc";
    instances = instance_one ∷ [];
    mesh_config_generation = pos 0;
  };
}

abbrev pub config : ServiceConfig
config = record {
  meta = meta_of (bytes "svc");
  spec = record {
    original_name = bytes "svc";
    policy = some policy;
    route = [];
    instances = [];
    reroute_option = none;
    canary_reroute_option = none;
    mesh_config_generation = pos 0;
  };
  status = record { last_update_time = none; phase = none; status = none };
}

abbrev pub config_without_policy : ServiceConfig
config_without_policy = record config { spec = record config.spec { policy = none } }

abbrev pub opt : ControllerOption
opt = record {
  proxy_attempts = pos 3;
  proxy_per_try_timeout = pos 5;
  proxy_retry_on = bytes "5xx";
  mesh_config_name = bytes "mesh";
  mesh_config_namespace = bytes "ns";
  select_label = key;
}
