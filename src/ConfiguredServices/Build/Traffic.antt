-- ===== src/ConfiguredServices/Build/Traffic.antt =====
-- Where the routes of the ConfiguredService controller send the traffic of a subset.
use meshach.Prelude.{◌≡◌, Bool-cases, inl, inr, List}
use meshach.Api.{Subset, is_in, ConfiguredService}
use meshach.Mesh.Weights.{reroute_subset}
use meshach.ConfiguredServices.Build.{build_routes}

-- The switch of buildHTTPRoute is `rerouteSubset` of the ServiceConfig controller.
pub build_routes-eq-reroute_subset :
    (cs : ConfiguredService) (subset : Subset) (actual : List Subset)
    → build_routes cs subset actual ≡ reroute_subset cs.meta.name subset actual
build_routes-eq-reroute_subset cs subset actual = elim (Bool-cases (is_in subset actual)) [
  | inl here ↦ elim (Bool-cases subset.is_canary) [
    | inl c ↦ unfold build_routes reroute_subset in rw (here, c)
    | inr c ↦ unfold build_routes reroute_subset in rw (here, c)
  ]
  | inr gone ↦ elim (Bool-cases subset.is_canary) [
    | inl c ↦ unfold build_routes reroute_subset in rw (gone, c)
    | inr c ↦ unfold build_routes reroute_subset in rw (gone, c)
  ]
]
