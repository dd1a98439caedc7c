-- ===== src/Samples/Routing.antt =====
-- The theorems on subsets, weights and routes at small lists of subsets.
use meshach.Prelude.{
  ◌<◌, ◌≡◌, inl, inr, refl, true, false, some, List, [], ◌∷◌, map, arith, bytes, text_eq, pos, any,
  In,
}
use meshach.Api.{Subset, is_in}
use meshach.Istio.{HttpRouteDestination}
use meshach.Mesh.Subsets.{get_subset}
use meshach.Mesh.Subsets.Selection.{NamesDistinct, get_subset_lem}
use meshach.Mesh.Subsets.Sharing.{Offered}
use meshach.Mesh.Weights.{route_to, reroute_subset}
use meshach.Mesh.Weights.Totals.{total}
use meshach.Mesh.Weights.Even.{reroute_canary_total}
use meshach.Mesh.Weights.Normal.{spread, reroute_normal_total}
use meshach.Mesh.Weights.Excess.{reroute_normal_excess}
use meshach.ServiceConfigs.Build.{build_routes}
use meshach.ServiceConfigs.Build.Traffic.{build_routes_same}
use meshach.ConfiguredServices.Build as Configured
use meshach.Samples.Data.{mesh, instance_one, configured, config, subset_of, blue, green, red, gray}

abbrev three : List Subset
three = blue ∷ green ∷ red ∷ []

abbrev black : Subset
black = subset_of (bytes "black") false

gray_missing : is_in gray three ≡ false
unfolding is_in any text_eq
gray_missing = refl

black_missing : is_in black three ≡ false
unfolding is_in any text_eq
black_missing = refl

reroute_canary_total_example :
    (rs : List HttpRouteDestination) × (reroute_subset (bytes "svc") gray three ≡ some rs)
    × (total rs ≡ pos 100)
    × (map (λ r. r.subset) rs ≡ map (λ s. s.name) three)
reroute_canary_total_example =
    reroute_canary_total (bytes "svc") gray three refl gray_missing (λ e. cc e)

reroute_normal_total_example :
    (rs : List HttpRouteDestination) × (reroute_subset (bytes "svc") black three
      ≡ some (route_to (bytes "svc") black.name (pos 0) ∷ rs))
    × (total rs ≡ pos (spread 3 3 3 true))
reroute_normal_total_example = reroute_normal_total (bytes "svc") black three refl black_missing

reroute_normal_excess_example :
    (rs : List HttpRouteDestination) × (reroute_subset (bytes "svc") black three ≡ some rs)
    × (total rs ≡ pos 133)
    × (0 < 33)
reroute_normal_excess_example =
    reroute_normal_excess (bytes "svc") black three refl black_missing refl (omega arith)
      (omega arith)

get_subset_lem_example :
    ((s : Subset)
      → In s (get_subset mesh (instance_one ∷ []))
      → In s mesh.global_subsets × Offered mesh (instance_one ∷ []) s)
    × ((s : Subset)
        → In s mesh.global_subsets
        → Offered mesh (instance_one ∷ []) s
        → is_in s (get_subset mesh (instance_one ∷ [])) ≡ true)
    × NamesDistinct (get_subset mesh (instance_one ∷ []))
get_subset_lem_example = get_subset_lem mesh (instance_one ∷ [])

build_routes_same_example :
    build_routes mesh config gray (get_subset mesh (instance_one ∷ []))
    ≡ Configured.build_routes configured gray (get_subset mesh (instance_one ∷ []))
build_routes_same_example =
    build_routes_same mesh (instance_one ∷ []) config gray (inr (inl refl)) configured refl refl
