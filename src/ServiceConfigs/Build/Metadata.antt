-- ===== src/ServiceConfigs/Build/Metadata.antt =====
-- The metadata of what the ServiceConfig controller builds: the label by which it lists again.
use meshach.Prelude.{◌≡◌, refl, some, Option-cases, inl, inr, List, text_eq_refl, lookup, arith}
use meshach.Api.{Subset, MeshConfigSpec, ServiceConfig, ControllerOption}
use meshach.Istio.{VirtualService, DestinationRule}
use meshach.Client.Sync.Lawful.{Belongs}
use meshach.ServiceConfigs.Build.{
  truncated, object_meta, build_http_routes, build_virtual_service, build_destination_rule,
}

module _ (opt : ControllerOption) (mesh : MeshConfigSpec) (sc : ServiceConfig) where
  object_meta-Belongs :
      Belongs opt.select_label
        (truncated sc.spec.original_name)
        sc.meta.namespace
        (object_meta opt mesh sc)
  unfolding lookup
  object_meta-Belongs = record { in_namespace = refl; labelled = rw text_eq_refl }

  meta-build_virtual_service :
      (subsets : List Subset) (vs : VirtualService)
      → build_virtual_service opt mesh sc subsets ≡ some vs
      → vs.meta ≡ object_meta opt mesh sc
  unfolding build_virtual_service
  meta-build_virtual_service subsets vs h =
      elim (Option-cases (build_http_routes opt mesh sc subsets mesh.global_subsets)) [
        | inl e ↦ cc (rw e at h)
        | inr (routes, e) ↦ ground (arith, rw e at h)
      ]

  meta-build_destination_rule :
      (subsets : List Subset) (dr : DestinationRule)
      → build_destination_rule opt mesh sc subsets ≡ some dr
      → dr.meta ≡ object_meta opt mesh sc
  unfolding build_destination_rule
  meta-build_destination_rule subsets dr h = elim (Option-cases sc.spec.policy) [
    | inl e ↦ cc (rw e at h)
    | inr (policy, e) ↦ ground (arith, rw e at h)
  ]

  pub build_virtual_service-Belongs :
      (subsets : List Subset) (vs : VirtualService)
      → build_virtual_service opt mesh sc subsets ≡ some vs
      → Belongs opt.select_label (truncated sc.spec.original_name) sc.meta.namespace vs.meta
  build_virtual_service-Belongs subsets vs h =
      rw (meta-build_virtual_service subsets vs h) object_meta-Belongs

  pub build_destination_rule-Belongs :
      (subsets : List Subset) (dr : DestinationRule)
      → build_destination_rule opt mesh sc subsets ≡ some dr
      → Belongs opt.select_label (truncated sc.spec.original_name) sc.meta.namespace dr.meta
  build_destination_rule-Belongs subsets dr h =
      rw (meta-build_destination_rule subsets dr h) object_meta-Belongs
