-- ===== src/Mesh/Weights.antt =====
-- The weights of rerouted traffic: dynamicRoute, rerouteSubset and defaultDestination of
-- controllers/serviceconfig/virtualservice.go. The switch in buildHTTPRoute of
-- controllers/configuredservice/virtualservice.go has the same two loops.
pub mod Totals
pub mod Even
pub mod Normal
pub mod Excess
use meshach.Prelude.{
  ℕ, zero, suc, ◌+◌, ◌-◌, ◌/◌, Bool, true, false, ◌&&◌, not, Option, none, some, List, [], ◌∷◌, ltb,
  ◌==◌, if◌then◌else◌, ◌>>=◌, ℤ, pos, ◌-ℤ◌, ◌*ℤ◌, int32, eq_ℤ, Text, text_eq, length,
}
use meshach.Api.{Subset, is_in, Destination}
use meshach.Istio.{HttpRouteDestination}

-- Go's `a / b` of non-negative integers; division by zero panics.
abbrev pub go_div : ℕ → ℕ → Option ℕ
go_div a zero = none
go_div a (suc b) = some (a / suc b)

abbrev pub route_to : Text → Text → ℤ → HttpRouteDestination
route_to host subset weight = record { host = host; subset = subset; weight = weight }

unfoldable pub default_destination : Text → Text → List HttpRouteDestination
default_destination host subset = route_to host subset (pos 100) ∷ []

-- An unset subset is "", an unset weight is 0.
unfoldable pub dynamic_route : Text → List Destination → List HttpRouteDestination
unfolding text_eq eq_ℤ
dynamic_route host [] = []
dynamic_route host (d ∷ rest) =
    route_to host (if not (text_eq d.subset []) then d.subset else [])
      (if not (eq_ℤ d.weight (pos 0)) then d.weight else pos 0)
    ∷ dynamic_route host rest

-- The weight of actual subset `i` of `n`, for a canary subset that is missing.
unfoldable pub even_weight : ℕ → ℕ → Option ℤ
unfolding int32 ◌-ℤ◌ ◌*ℤ◌
even_weight n i = do
  q ← go_div 100 n
  some (
      if i == n - 1 && ltb 1 n
      then int32 (pos 100 -ℤ int32 (int32 (pos q) *ℤ int32 (pos (n - 1))))
      else int32 (pos q))

unfoldable pub even_routes : Text → ℕ → ℕ → List Subset → Option (List HttpRouteDestination)
unfolding even_weight
even_routes host n i [] = some []
even_routes host n i (actual ∷ rest) = do
  weight ← even_weight n i
  routes ← even_routes host n (i + 1) rest
  some (route_to host actual.name weight ∷ routes)

-- `l--` for each canary
unfoldable pub without_canaries : ℕ → List Subset → ℕ
without_canaries l [] = l
without_canaries l (actual ∷ rest) = without_canaries (if actual.is_canary then l - 1 else l) rest

-- The weight of actual subset `i` of `n`, `l` of which are no canaries, for a normal subset that is
-- missing.
unfoldable pub normal_weight : ℕ → ℕ → ℕ → Option ℤ
unfolding int32 ◌-ℤ◌
normal_weight n l i = do
  q ← go_div 100 l
  some (if i == n - 1 && ltb 1 n then int32 (pos 100 -ℤ int32 (pos q)) else int32 (pos q))

unfoldable pub normal_routes : Text → ℕ → ℕ → ℕ → List Subset → Option (List HttpRouteDestination)
unfolding normal_weight
normal_routes host n l i [] = some []
normal_routes host n l i (actual ∷ rest) =
    let routes_of_rest = normal_routes host n l (i + 1) rest in
    if actual.is_canary then routes_of_rest else (do
      weight ← normal_weight n l i
      routes ← routes_of_rest
      some (route_to host actual.name weight ∷ routes))

-- `none` is a panic.
unfoldable pub reroute_subset : Text → Subset → List Subset → Option (List HttpRouteDestination)
unfolding is_in even_routes normal_routes without_canaries default_destination
reroute_subset host subset actual_subsets =
    let n = length actual_subsets in
    if subset.is_canary && not (is_in subset actual_subsets)
    then even_routes host n 0 actual_subsets
    else if not subset.is_canary && not (is_in subset actual_subsets)
    then (do
      routes ← normal_routes host n (without_canaries n actual_subsets) 0 actual_subsets
      some (route_to host subset.name (pos 0) ∷ routes))
    else if subset.is_canary && is_in subset actual_subsets
    then some (default_destination host subset.name)
    else if not subset.is_canary && is_in subset actual_subsets
    then some (default_destination host subset.name)
    else some (default_destination host subset.name)
