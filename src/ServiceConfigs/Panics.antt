-- ===== src/ServiceConfigs/Panics.antt =====
-- When the builders of controllers/serviceconfig return, and when a nil pointer stops them.
use meshach.Prelude.{
  ◌<◌, ◌≡◌, ◌≢◌, refl, true, Bool-cases, inl, inr, Option, none, some, is_some, List, [], ◌∷◌,
  arith, lt→ltb, ℤ, pos, Text, length, eq_ℤ, text_eq,
}
use meshach.Api.{Subset, Policy, is_in, MeshConfigSpec, ServiceConfig, ControllerOption}
use meshach.Istio.{DestinationRule}
use meshach.Cluster.{Cluster}
use meshach.Client.{ok}
use meshach.Client.Actions.{panic}
use meshach.Client.Sync.{publish}
use meshach.Mesh.Weights.{reroute_subset}
use meshach.Mesh.Weights.Even.{reroute_canary_total}
use meshach.Mesh.Weights.Normal.{reroute_normal_total}
use meshach.Mesh.Routes.{timeout_or_global, retries_or_global, get_timeout, get_retries}
use meshach.ServiceConfigs.Build.{
  truncated, build_routes, build_http_route, build_http_routes, build_virtual_service,
  build_destination_rule,
}
use meshach.ServiceConfigs.Status.{subsets_found}
use meshach.ServiceConfigs.Reconcile.{sync_destination_rule, reconcile_destination_rule}
use meshach.ServiceConfigs.Build.Traffic.{reroute_subset-present}

-- The computation returns.
abbrev pub Returns : {A : Type 0} → Option A → Type 0
Returns o = is_some o ≡ true

pub value : {A : Type 0} {o : Option A} → Returns o → (a : A) × (o ≡ some a)
value {o = none} h = cc h
value {o = some a} h = (a, refl)

pub reroute_subset-Returns :
    (host : Text) (subset : Subset) (actual : List Subset)
    → actual ≢ []
    → Returns (reroute_subset host subset actual)
reroute_subset-Returns host subset actual some_actual = elim (Bool-cases (is_in subset actual)) [
  | inl here ↦ rw (reroute_subset-present host subset actual here)
  | inr gone ↦ elim (Bool-cases subset.is_canary) [
    | inl canary ↦
        let (rs, e, _, _) = reroute_canary_total host subset actual canary gone some_actual in rw e
    | inr normal ↦ let (rs, e, _) = reroute_normal_total host subset actual normal gone in rw e
  ]
]

build_routes-Returns :
    (mesh : MeshConfigSpec) (svc : ServiceConfig) (subset : Subset) (actual : List Subset)
    → actual ≢ []
    → Returns (build_routes mesh svc subset actual)
unfolding build_routes
build_routes-Returns mesh svc subset actual some_actual =
    let (rs, e) = value (reroute_subset-Returns svc.meta.name subset actual some_actual) in
    rw e (ground arith)

module _ (opt : ControllerOption) (mesh : MeshConfigSpec) (global : Policy)
    (has_global : mesh.global_policy ≡ some global) where
  timeout-Returns : (timeout : Text) → Returns (timeout_or_global mesh timeout)
  unfolding timeout_or_global
  timeout-Returns timeout = elim (Bool-cases (text_eq timeout [])) [
    | inl h ↦ rw (h, has_global)
    | inr h ↦ rw h
  ]

  retries-Returns : (max_retries : ℤ) → Returns (retries_or_global mesh max_retries)
  unfolding retries_or_global
  retries-Returns max_retries = elim (Bool-cases (eq_ℤ max_retries (pos 0))) [
    | inl h ↦ rw (h, has_global)
    | inr h ↦ rw h
  ]

  pub get_timeout-Returns :
      (timeout : Text) (max_retries : ℤ) → Returns (get_timeout mesh timeout max_retries)
  unfolding get_timeout
  get_timeout-Returns timeout max_retries =
      let (t, e) = value (timeout-Returns timeout) in
      let (m, k) = value (retries-Returns max_retries) in rw (e, k)

  pub get_retries-Returns :
      (timeout : Text) (max_retries : ℤ) → Returns (get_retries opt mesh timeout max_retries)
  unfolding get_retries
  get_retries-Returns timeout max_retries =
      let (t, e) = value (timeout-Returns timeout) in
      let (m, k) = value (retries-Returns max_retries) in rw (e, k)

  module _ (svc : ServiceConfig) (policy : Policy) (has_policy : svc.spec.policy ≡ some policy)
      (actual : List Subset) (some_actual : actual ≢ []) where
    build_http_route-Returns :
        (subset : Subset) → Returns (build_http_route opt mesh svc subset actual)
    unfolding build_http_route
    build_http_route-Returns subset =
        let (rs, e) = value (build_routes-Returns mesh svc subset actual some_actual) in
        let (t, k) = value (get_timeout-Returns policy.timeout policy.max_retries) in
        let (m, l) = value (get_retries-Returns policy.timeout policy.max_retries) in
        rw (e, has_policy, k, l)

    build_http_routes-Returns :
        (subsets : List Subset) → Returns (build_http_routes opt mesh svc actual subsets)
    unfolding build_http_routes
    build_http_routes-Returns [] = refl
    build_http_routes-Returns (subset ∷ rest) =
        let (r, e) = value (build_http_route-Returns subset) in
        let (rs, k) = value (build_http_routes-Returns rest) in rw (e, k)

    -- With a policy of the service, a global policy and an actual subset, no builder of the ServiceConfig
    -- controller panics.
    pub builders-Returns :
        Returns (build_virtual_service opt mesh svc actual)
        × Returns (build_destination_rule opt mesh svc actual)
    unfolding build_virtual_service build_destination_rule
    builders-Returns =
        let (rs, e) = value (build_http_routes-Returns mesh.global_subsets) in (rw e, rw has_policy)

module _ {S : Type 0} (cluster : Cluster S) (mesh : MeshConfigSpec) (sc : ServiceConfig) where
  -- reconcileDestinationRule of a service without a policy panics as soon as its objects are listed and it
  -- has an actual subset, and leaves the cluster as it was.
  pub reconcile_destination_rule-panics :
      (s : S) (items : List DestinationRule) (subsets : List Subset)
      → sc.spec.policy ≡ none
      → cluster.destination_rules.list sc.meta.namespace (truncated sc.spec.original_name) s
        ≡ ok items
      → subsets_found cluster mesh sc s ≡ ok subsets
      → 0 < length subsets
      → reconcile_destination_rule cluster mesh sc s ≡ (panic, s)
  unfolding reconcile_destination_rule sync_destination_rule publish build_destination_rule
  reconcile_destination_rule-panics s items subsets nil listed found some_subset =
      rw (listed, found, lt→ltb 0 (length subsets) some_subset, nil)
