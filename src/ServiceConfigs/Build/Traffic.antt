-- ===== src/ServiceConfigs/Build/Traffic.antt =====
-- Where the routes of the ServiceConfig controller send the traffic of a subset.
use meshach.Prelude.{
  ◌<◌, ◌≡◌, Bool, true, false, not, ◌&&◌, ◌||◌, Bool-cases, inl, inr, some, List, [], arith, ltb,
  lt→ltb, if◌then◌else◌, Text, length, In,
}
use meshach.Api.{Subset, is_in, Instance, MeshConfigSpec, ConfiguredService, ServiceConfig}
use meshach.Mesh.Subsets.{get_subset, only_missing_canary}
use meshach.Mesh.Subsets.Selection.{length-get_subset-lt}
use meshach.Mesh.Subsets.Canary.{only_missing_canary_lem}
use meshach.Mesh.Weights.{default_destination, dynamic_route, reroute_subset}
use meshach.ConfiguredServices.Build as ConfiguredBuild
use meshach.ConfiguredServices.Build.Traffic.{build_routes-eq-reroute_subset}
use meshach.ServiceConfigs.Build.{build_routes}

pub reroute_subset-present :
    (host : Text) (subset : Subset) (actual : List Subset)
    → is_in subset actual ≡ true
    → reroute_subset host subset actual ≡ some (default_destination host subset.name)
reroute_subset-present host subset actual here = elim (Bool-cases subset.is_canary) [
  | inl c ↦ unfold reroute_subset in rw (here, c)
  | inr c ↦ unfold reroute_subset in rw (here, c)
]

module _ (mesh : MeshConfigSpec) (instances : List Instance) (svc : ServiceConfig) (subset : Subset)
    (global : In subset mesh.global_subsets) where
  abbrev actual : List Subset
  actual = get_subset mesh instances

  missing_normal :
      subset.is_canary ≡ false
      → is_in subset actual ≡ false
      → only_missing_canary actual mesh.global_subsets ≡ false
  missing_normal normal gone = elim (Bool-cases (only_missing_canary actual mesh.global_subsets)) [
    | inl only ↦
        cc (normal, (only_missing_canary_lem actual mesh.global_subsets).0 only subset global gone)
    | inr other ↦ other
  ]

  rerouted : Bool
  rerouted =
      ltb (length actual) (length mesh.global_subsets)
        && not (only_missing_canary actual mesh.global_subsets)
      || ltb (length actual) (length mesh.global_subsets) && subset.is_canary

  rerouted_missing : is_in subset actual ≡ false → rerouted ≡ true
  unfolding rerouted
  rerouted_missing gone =
      let fewer = lt→ltb _ _ (length-get_subset-lt mesh instances subset global gone) in
      elim (Bool-cases subset.is_canary) [
        | inl canary ↦ rw (fewer, canary) (ground arith)
        | inr normal ↦ rw (fewer, missing_normal normal gone)
      ]

  build_routes_unrouted :
      svc.spec.route ≡ []
      → build_routes mesh svc subset actual ≡ (
          if rerouted
          then reroute_subset svc.meta.name subset actual
          else some (default_destination svc.meta.name subset.name))
  unfolding rerouted
  build_routes_unrouted no_route = unfold build_routes in rw no_route (ground arith)

  -- For a ServiceConfig without routes of its own and a global subset, the ServiceConfig controller builds
  -- the routes that the ConfiguredService controller builds for a ConfiguredService of the same name and
  -- the same actual subsets.
  pub build_routes_same :
      (cs : ConfiguredService)
      → cs.meta.name ≡ svc.meta.name
      → svc.spec.route ≡ []
      → build_routes mesh svc subset actual ≡ ConfiguredBuild.build_routes cs subset actual
  build_routes_same cs name no_route =
      rw (build_routes-eq-reroute_subset, name, build_routes_unrouted no_route)
        (elim (Bool-cases (is_in subset actual)) [
          | inl here ↦ rw (reroute_subset-present svc.meta.name subset actual here) (ground arith)
          | inr gone ↦ rw (rerouted_missing gone)
        ])

  -- A route of the service itself sends the traffic of every normal subset, as long as no normal global
  -- subset is missing.
  pub build_routes_dynamic :
      subset.is_canary ≡ false
      → 0 < length svc.spec.route
      → only_missing_canary actual mesh.global_subsets ≡ true
      → build_routes mesh svc subset actual ≡ some (dynamic_route svc.meta.name svc.spec.route)
  build_routes_dynamic normal some_route only =
      unfold build_routes in rw (lt→ltb 0 (length svc.spec.route) some_route, normal, only)
