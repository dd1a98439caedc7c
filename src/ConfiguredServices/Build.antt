-- ===== src/ConfiguredServices/Build.antt =====
-- controllers/configuredservice: the builders of virtualservice.go, destinationrule.go,
-- serviceentry.go and workloadentry.go. The digest of crypto/sha1 is a parameter.
pub mod Metadata
pub mod Traffic
use meshach.Prelude.{
  ℕ, ◌+◌, ◌-◌, ◌/◌, ◌%◌, Bool, true, false, ◌&&◌, not, Option, none, some, List, [], ◌∷◌, ◌++◌, ltb,
  if◌then◌else◌, ◌>>=◌, ℤ, pos, int32, Text, text_eq, bytes, trim, Dict, lookup, insert, length,
}
use meshach.Api.{
  ObjectMeta, Policy, Subset, is_in, MeshConfigSpec, Instance, ConfiguredService, ControllerOption,
}
use meshach.Istio.{
  HttpRouteDestination, HttpRoute, VirtualService, DestinationRule, ServiceEntry, WorkloadEntry,
  ServicePort,
}
use meshach.Utils.{format_to_dns1123, decimal, parse_value, half64}
use meshach.Mesh.Weights.{
  route_to, default_destination, even_routes, normal_routes, without_canaries,
}
use meshach.Mesh.Routes.{
  http_route_name, value_of, source_match, get_timeout, get_retries, build_default_route,
}
use meshach.Mesh.Rules.{policy_lb, rule_subsets}

-- One hexadecimal digit in lower case
hex_digit : ℕ → ℕ
hex_digit n = if ltb n 10 then n + b'0' else n - 10 + b'a'

-- fmt.Sprintf("%x", bs)
unfoldable pub hex : List ℕ → Text
unfolding hex_digit
hex [] = []
hex (b ∷ bs) = hex_digit (b / 16) ∷ hex_digit (b % 16) ∷ hex bs

-- The switch of buildHTTPRoute. A panic is `none`.
unfoldable pub build_routes :
    ConfiguredService → Subset → List Subset → Option (List HttpRouteDestination)
unfolding is_in even_routes normal_routes without_canaries default_destination
build_routes cs subset actual_subsets =
    let n = length actual_subsets in
    if subset.is_canary && not (is_in subset actual_subsets)
    then even_routes cs.meta.name n 0 actual_subsets
    else if not subset.is_canary && not (is_in subset actual_subsets)
    then (do
      routes ← normal_routes cs.meta.name n (without_canaries n actual_subsets) 0 actual_subsets
      some (route_to cs.meta.name subset.name (pos 0) ∷ routes))
    else some (default_destination cs.meta.name subset.name)

-- Timeout and retries are those of the first instance; `break` ends the loop there.
unfoldable pub instance_timeout : List Instance → Text
unfolding lookup
instance_timeout [] = []
instance_timeout (ins ∷ _) = value_of (bytes "timeout") ins.labels

-- An error of ParseInt is logged, and the number that comes with it is used.
unfoldable pub instance_retries : List Instance → ℤ
unfolding lookup parse_value
instance_retries [] = pos 0
instance_retries (ins ∷ _) = elim (lookup (bytes "retries") ins.labels) [
  | none ↦ pos 0
  | some retries_str ↦ parse_value half64 retries_str
]

-- `labels[k] = ins.Labels[rk]` for each entry rk, rv of the remap with k == rv
remap_label : Text → Dict Text → Dict Text → Dict Text → Dict Text
unfolding text_eq insert lookup
remap_label k ins_labels [] labels = labels
remap_label k ins_labels ((rk, rv) ∷ remap) labels =
    remap_label k ins_labels remap
      (if text_eq k rv then insert k (value_of rk ins_labels) labels else labels)

remap_labels : List Text → Dict Text → Dict Text → Dict Text → Dict Text
unfolding remap_label
remap_labels [] ins_labels remap labels = labels
remap_labels (k ∷ keys) ins_labels remap labels =
    remap_labels keys ins_labels remap (remap_label k ins_labels remap labels)

-- fmt.Sprintf("%s.%s.%d", name, host, number)
unfoldable pub entry_name : Text → Text → ℕ → Text
unfolding decimal
entry_name name host number = name ++ bytes "." ++ host ++ bytes "." ++ decimal number

-- The one port of every service entry
abbrev pub find_ports : List ServicePort
find_ports = record { number = 20882; protocol = bytes "HTTP"; name = bytes "dubbo-http" } ∷ []

module _ (sha1 : Text → List ℕ) where
  -- To match the limit on a label's length: the hexadecimal digest of a longer name.
  unfoldable pub truncated : Text → Text
  unfolding hex trim
  truncated s = if ltb 62 (length s) then hex (sha1 s) else trim b'.' s

  module _ (opt : ControllerOption) (mesh : MeshConfigSpec) where
    unfoldable pub build_http_route : ConfiguredService → Subset → List Subset → Option HttpRoute
    build_http_route cs subset actual_subsets =
        let timeout = instance_timeout cs.spec.instances in
        let retries = instance_retries cs.spec.instances in
        do
          routes ← build_routes cs subset actual_subsets
          route_timeout ← get_timeout mesh timeout retries
          route_retries ← get_retries opt mesh timeout (int32 retries)
          some (record {
            name = http_route_name ++ bytes "-" ++ subset.name;
            matches = source_match mesh subset ∷ [];
            route = routes;
            timeout = route_timeout;
            retries = some route_retries;
          })

    unfoldable pub build_http_routes :
        ConfiguredService → List Subset → List Subset → Option (List HttpRoute)
    build_http_routes cs subsets [] = some []
    build_http_routes cs subsets (subset ∷ rest) = do
      http ← build_http_route cs subset subsets
      routes ← build_http_routes cs subsets rest
      some (http ∷ routes)

    abbrev pub object_meta : ConfiguredService → Text → ObjectMeta
    object_meta cs name = record {
      name = format_to_dns1123 name;
      namespace = cs.meta.namespace;
      labels = (opt.select_label, truncated cs.spec.original_name) ∷ [];
      finalizers = [];
    }

    unfoldable pub build_virtual_service : ConfiguredService → List Subset → Option VirtualService
    build_virtual_service cs subsets = do
      routes ←
          (if ltb 0 (length subsets)
            then build_http_routes cs subsets mesh.global_subsets
            else some [])
      some (record {
        meta = object_meta cs cs.meta.name;
        spec = record {
          hosts = cs.meta.name ∷ [];
          http = routes ++ build_default_route opt cs.meta.name ∷ [];
        };
      })

    -- The global policy is dereferenced.
    unfoldable pub build_destination_rule : ConfiguredService → List Subset → Option DestinationRule
    build_destination_rule cs actual_subsets = do
      policy ← mesh.global_policy
      some (record {
        meta = object_meta cs cs.meta.name;
        spec = record {
          host = cs.meta.name;
          traffic_policy = policy_lb policy;
          subsets = rule_subsets actual_subsets;
        };
      })

    unfoldable pub build_service_entry : ConfiguredService → ServiceEntry
    build_service_entry cs = record {
      meta = object_meta cs cs.meta.name;
      spec = record {
        hosts = cs.meta.name ∷ [];
        ports = find_ports;
        workload_selector = (opt.select_label, cs.meta.name) ∷ [];
      };
    }

    -- The weight is left at 0.
    unfoldable pub build_workload_entry : ConfiguredService → Instance → WorkloadEntry
    unfolding remap_labels
    build_workload_entry cs ins = record {
      meta = object_meta cs (entry_name cs.meta.name ins.host ins.port.number);
      spec = record {
        address = ins.host;
        ports = (ins.port.name, ins.port.number) ∷ [];
        labels =
            remap_labels mesh.workload_entry_label_keys ins.labels mesh.mesh_labels_remap
              ((opt.select_label, cs.meta.name) ∷ []);
        weight = 0;
      };
    }
