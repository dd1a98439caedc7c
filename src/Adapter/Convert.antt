-- ===== src/Adapter/Convert.antt =====
-- pkg/adapter/convert: the custom resources of a service of the registry and of its configuration. A nil
-- pointer that the converter returns is `none` within the result; a panic is `none` itself.
pub mod Configs
pub mod Flags
use meshach.Prelude.{
  ℕ, Bool, true, false, not, ◌&&◌, Option, none, some, List, [], ◌∷◌, map, any, ◌==◌, length,
  if◌then◌else◌, ◌>>=◌, ℤ, pos, Text, Dict, bytes, text_eq, lookup,
}
use meshach.Api
use meshach.Api.{
  ObjectMeta, ConfiguredService, ServiceConfig, Destination, InstanceConfig, Policy, RerouteOption,
}
use meshach.Utils.{format_to_dns1123, to_uint32, to_int32}
use meshach.Utils.Addresses.{remove_port, split_host_port}
use meshach.Adapter.Types.{Port, Instance, ServiceEvent, ConfigItem, ConfiguratorConfig}

abbrev pub dubbo_port_name : Text
dubbo_port_name = bytes "dubbo-http"

unfoldable pub to_port : Option Port → Api.Port
to_port none = record { name = dubbo_port_name; protocol = bytes "dubbo"; number = 0 }
to_port (some port) = record {
  name = dubbo_port_name;
  protocol = port.protocol;
  number = to_uint32 port.port;
}

unfoldable pub to_instance : Instance → Api.Instance
unfolding to_port
to_instance i = record {
  host = remove_port i.host;
  labels = i.labels;
  port = to_port i.port;
  weight = 0;
}

-- `for _, i := range s.Instances { ... instances = append(instances, ins) }`
unfoldable pub to_instances : Dict Instance → List Api.Instance
unfolding to_instance
to_instances [] = []
to_instances ((url, i) ∷ rest) = to_instance i ∷ to_instances rest

abbrev object_meta : Text → Text → ObjectMeta
object_meta default_namespace original_name = record {
  name = format_to_dns1123 original_name;
  namespace = default_namespace;
  labels = [];
  finalizers = [];
}

unfoldable pub to_configured_service : Text → ServiceEvent → Option ConfiguredService
unfolding to_instances format_to_dns1123
to_configured_service default_namespace s = do
  service ← s.service
  some (record {
    meta = object_meta default_namespace service.name;
    spec = record {
      original_name = service.name;
      instances = to_instances s.instances;
      mesh_config_generation = pos 0;
    };
  })

abbrev pub any_host : Text
any_host = bytes "0.0.0.0"

-- findDefaultConfig with "provider", findFlagConfig with "consumer"
unfoldable pub find_config : Text → List ConfigItem → Option ConfigItem
unfolding any text_eq
find_config side [] = none
find_config side (c ∷ configs) =
    let rest = find_config side configs in
    if text_eq c.side side && any (λ a. text_eq a any_host) c.addresses then some c else rest

unfoldable pub find_default_config : List ConfigItem → Option ConfigItem
unfolding find_config
find_default_config = find_config (bytes "provider")

unfoldable pub find_flag_config : List ConfigItem → Option ConfigItem
unfolding find_config
find_flag_config = find_config (bytes "consumer")

timeout_or : Option Text → Policy → Policy
timeout_or none policy = policy
timeout_or (some t) policy = record policy { timeout = t }

retries_or : Option Text → Policy → Policy
unfolding to_int32
retries_or none policy = policy
retries_or (some r) policy = record policy { max_retries = to_int32 r }

abbrev empty_policy : Policy
empty_policy = record {
  load_balancer = [];
  max_connections = pos 0;
  timeout = [];
  max_retries = pos 0;
}

unfoldable pub policy_of : Option ConfigItem → Policy
unfolding timeout_or retries_or lookup
policy_of none = empty_policy
policy_of (some c) =
    if c.enabled
    then retries_or (lookup (bytes "retries") c.parameters)
        (timeout_or (lookup (bytes "timeout") c.parameters) empty_policy)
    else empty_policy

abbrev pub or_empty : Option Text → Text
or_empty none = []
or_empty (some t) = t

abbrev pub or_empty_pair : Option (Text × Text) → Text × Text
or_empty_pair none = ([], [])
or_empty_pair (some p) = p

-- The host and the port of an address, and the weight
unfoldable pub instance_config : Text → ConfigItem → InstanceConfig
unfolding split_host_port lookup to_uint32
instance_config address ci =
    let (h, p) = or_empty_pair (split_host_port address) in
    record {
      host = h;
      port = record { name = []; protocol = []; number = to_uint32 p };
      weight = to_uint32 (or_empty (lookup (bytes "weight") ci.parameters));
    }

-- `ci.Enabled && ci.Addresses[0] != "0.0.0.0" && ci.Side == "provider"`: an item that is enabled and has
-- no address panics.
unfoldable pub add_instance_config :
    Bool → List Text → ConfigItem → List InstanceConfig → Option (List InstanceConfig)
unfolding instance_config text_eq
add_instance_config false addresses ci rest = some rest
add_instance_config true [] ci rest = none
add_instance_config true (address ∷ more) ci rest = some (
    if not (text_eq address any_host) && text_eq ci.side (bytes "provider")
    then instance_config address ci ∷ rest
    else rest)

unfoldable pub instance_configs : List ConfigItem → Option (List InstanceConfig)
unfolding add_instance_config
instance_configs [] = some []
instance_configs (ci ∷ configs) = do
  rest ← instance_configs configs
  add_instance_config ci.enabled ci.addresses ci rest

pub record Flag : Type 0 where
  pub key : Text
  pub weight : ℤ

-- A null in the text is a nil pointer among the flags.
pub record FlagConfigParameter : Type 0 where
  pub flags : List (Option Flag)
  pub manual : Bool

-- `yaml.Unmarshal` of a text as a FlagConfigParameter; `none` is an error.
abbrev pub Unmarshal : Type 0
Unmarshal = Text → Option FlagConfigParameter

-- The loop over the flags; a nil flag panics.
unfoldable pub add_flags : List (Option Flag) → Option (List Destination)
add_flags [] = some []
add_flags (none ∷ flags) = none
add_flags (some f ∷ flags) = do
  rest ← add_flags flags
  some (record { subset = f.key; weight = f.weight } ∷ rest)

module _ (unmarshal : Unmarshal) where
  flag_routes : Bool → Option FlagConfigParameter → Option (List Destination)
  unfolding add_flags
  flag_routes enabled none = some []
  flag_routes enabled (some fcp) = if enabled && fcp.manual then add_flags fcp.flags else some []

  parsed_routes : Bool → Option Text → Option (List Destination)
  unfolding flag_routes
  parsed_routes enabled none = some []
  parsed_routes enabled (some fc) = flag_routes enabled (unmarshal fc)

  unfoldable pub routes_of : Option ConfigItem → Option (List Destination)
  unfolding parsed_routes lookup
  routes_of none = some []
  routes_of (some c) = parsed_routes c.enabled (lookup (bytes "flag_config") c.parameters)

  unfoldable pub assembled :
      Text → ConfiguratorConfig → List InstanceConfig → List Destination → ServiceConfig
  unfolding policy_of find_default_config format_to_dns1123
  assembled default_namespace cc instances routes = record {
    meta = object_meta default_namespace cc.key;
    spec = record {
      original_name = cc.key;
      policy = some (policy_of (find_default_config cc.configs));
      route = routes;
      instances = instances;
      reroute_option = some (record { reroute_policy = bytes "Default"; specific_route = [] });
      canary_reroute_option = none;
      mesh_config_generation = pos 0;
    };
    status = record { last_update_time = none; phase = none; status = none };
  }

  built_config : Text → ConfiguratorConfig → Option ServiceConfig
  unfolding instance_configs assembled find_flag_config routes_of
  built_config default_namespace cc = do
    instances ← instance_configs cc.configs
    routes ← routes_of (find_flag_config cc.configs)
    some (assembled default_namespace cc instances routes)

  unfoldable pub to_service_config :
      Text → Option ConfiguratorConfig → Option (Option ServiceConfig)
  unfolding built_config
  to_service_config default_namespace none = some none
  to_service_config default_namespace (some cc) =
      if length cc.key == 0
      then some none
      else (do sc ← built_config default_namespace cc; some (some sc))
