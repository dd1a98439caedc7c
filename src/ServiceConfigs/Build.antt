-- ===== src/ServiceConfigs/Build.antt =====
-- controllers/serviceconfig: utils.go (truncated), and the builders of virtualservice.go and
-- destinationrule.go.
pub mod Metadata
pub mod Traffic
use meshach.Prelude.{
  ℕ, ◌-◌, Bool, true, false, ◌&&◌, ◌||◌, not, Option, none, some, List, [], ◌∷◌, ◌++◌, ltb,
  if◌then◌else◌, ◌>>=◌, ℤ, pos, Text, text_eq, bytes, trim, Dict, length, drop,
}
use meshach.Api.{
  ObjectMeta, Policy, Subset, is_in, MeshConfigSpec, ServiceConfig, RerouteOption, ControllerOption,
  unchangeable,
}
use meshach.Istio.{HttpRouteDestination, HttpRoute, VirtualService, DestinationRule}
use meshach.Utils.{format_to_dns1123}
use meshach.Mesh.Subsets.{only_missing_canary}
use meshach.Mesh.Weights.{dynamic_route, default_destination, reroute_subset}
use meshach.Mesh.Routes.{
  http_route_name, source_match, get_timeout, get_retries, build_default_route,
}
use meshach.Mesh.Rules.{policy_lb, rule_subsets}

-- To match the limit on a label's length: the last 62 bytes, without dots at the ends.
unfoldable pub truncated : Text → Text
unfolding trim
truncated s = if ltb 62 (length s) then trim b'.' (drop (length s - 62) s) else trim b'.' s

-- The switch of buildHTTPRoute. A panic is `none`.
unfoldable pub build_routes :
    MeshConfigSpec → ServiceConfig → Subset → List Subset → Option (List HttpRouteDestination)
unfolding only_missing_canary dynamic_route reroute_subset default_destination
build_routes mesh svc subset actual_subsets =
    let reroute = ltb (length actual_subsets) (length mesh.global_subsets) in
    let only_canary = only_missing_canary actual_subsets mesh.global_subsets in
    if ltb 0 (length svc.spec.route) && not subset.is_canary && only_canary
    then some (dynamic_route svc.meta.name svc.spec.route)
    else if (reroute && not only_canary) || (reroute && subset.is_canary)
    then reroute_subset svc.meta.name subset actual_subsets
    else some (default_destination svc.meta.name subset.name)

module _ (opt : ControllerOption) (mesh : MeshConfigSpec) where
  unfoldable pub build_http_route : ServiceConfig → Subset → List Subset → Option HttpRoute
  build_http_route svc subset actual_subsets = do
    routes ← build_routes mesh svc subset actual_subsets
    policy ← svc.spec.policy
    timeout ← get_timeout mesh policy.timeout policy.max_retries
    retries ← get_retries opt mesh policy.timeout policy.max_retries
    some (record {
      name = http_route_name ++ bytes "-" ++ subset.name;
      matches = source_match mesh subset ∷ [];
      route = routes;
      timeout = timeout;
      retries = some retries;
    })

  -- `for _, subset := range GlobalSubsets { httpRoute = append(httpRoute, http) }`
  unfoldable pub build_http_routes :
      ServiceConfig → List Subset → List Subset → Option (List HttpRoute)
  build_http_routes svc actual_subsets [] = some []
  build_http_routes svc actual_subsets (subset ∷ rest) = do
    http ← build_http_route svc subset actual_subsets
    routes ← build_http_routes svc actual_subsets rest
    some (http ∷ routes)

  -- `svc.Spec.RerouteOption == nil || svc.Spec.RerouteOption.ReroutePolicy != Unchangeable`
  has_default_route : ServiceConfig → Bool
  unfolding text_eq
  has_default_route svc = elim svc.spec.reroute_option [
    | none ↦ true
    | some reroute ↦ not (text_eq reroute.reroute_policy unchangeable)
  ]

  abbrev pub object_meta : ServiceConfig → ObjectMeta
  object_meta svc = record {
    name = format_to_dns1123 svc.meta.name;
    namespace = svc.meta.namespace;
    labels = (opt.select_label, truncated svc.spec.original_name) ∷ [];
    finalizers = [];
  }

  unfoldable pub build_virtual_service : ServiceConfig → List Subset → Option VirtualService
  unfolding has_default_route
  build_virtual_service svc actual_subsets = do
    routes ← build_http_routes svc actual_subsets mesh.global_subsets
    some (record {
      meta = object_meta svc;
      spec = record {
        hosts = svc.meta.name ∷ [];
        http =
            if has_default_route svc
            then routes ++ build_default_route opt svc.meta.name ∷ []
            else routes;
      };
    })

  -- The policy of the service is dereferenced.
  unfoldable pub build_destination_rule : ServiceConfig → List Subset → Option DestinationRule
  build_destination_rule svc actual_subsets = do
    policy ← svc.spec.policy
    some (record {
      meta = object_meta svc;
      spec = record {
        host = svc.meta.name;
        traffic_policy = policy_lb policy;
        subsets = rule_subsets actual_subsets;
      };
    })
