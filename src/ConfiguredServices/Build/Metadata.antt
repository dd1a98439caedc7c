-- ===== src/ConfiguredServices/Build/Metadata.antt =====
-- The metadata of what the ConfiguredService controller builds: the label by which it lists again.
use meshach.Prelude.{
  ℕ, Text, ◌≡◌, refl, some, Option-cases, inl, inr, List, [], Text, text_eq_refl, lookup, arith,
  ltb, length, if◌then◌else◌,
}
use meshach.Api.{Subset, Instance, MeshConfigSpec, ConfiguredService, ControllerOption}
use meshach.Istio.{VirtualService, DestinationRule}
use meshach.Client.Sync.Lawful.{Belongs}
use meshach.ConfiguredServices.Build.{
  truncated, object_meta, build_http_routes, build_virtual_service, build_destination_rule,
  build_service_entry, build_workload_entry, entry_name,
}

module _ (sha1 : Text → List ℕ) (opt : ControllerOption) (mesh : MeshConfigSpec)
    (cs : ConfiguredService) where
  object_meta-Belongs :
      (name : Text)
      → Belongs opt.select_label
          (truncated sha1 cs.spec.original_name)
          cs.meta.namespace
          (object_meta sha1 opt mesh cs name)
  unfolding lookup
  object_meta-Belongs name = record { in_namespace = refl; labelled = rw text_eq_refl }

  meta-build_virtual_service :
      (subsets : List Subset) (vs : VirtualService)
      → build_virtual_service sha1 opt mesh cs subsets ≡ some vs
      → vs.meta ≡ object_meta sha1 opt mesh cs cs.meta.name
  unfolding build_virtual_service
  meta-build_virtual_service subsets vs h =
      elim (Option-cases (
        if ltb 0 (length subsets)
        then build_http_routes sha1 opt mesh cs subsets mesh.global_subsets
        else some [])) [ inl e ↦ cc (rw e at h) | inr (routes, e) ↦ ground (arith, rw e at h) ]

  meta-build_destination_rule :
      (subsets : List Subset) (dr : DestinationRule)
      → build_destination_rule sha1 opt mesh cs subsets ≡ some dr
      → dr.meta ≡ object_meta sha1 opt mesh cs cs.meta.name
  unfolding build_destination_rule
  meta-build_destination_rule subsets dr h = elim (Option-cases mesh.global_policy) [
    | inl e ↦ cc (rw e at h)
    | inr (policy, e) ↦ ground (arith, rw e at h)
  ]

  pub build_virtual_service-Belongs :
      (subsets : List Subset) (vs : VirtualService)
      → build_virtual_service sha1 opt mesh cs subsets ≡ some vs
      → Belongs opt.select_label (truncated sha1 cs.spec.original_name) cs.meta.namespace vs.meta
  build_virtual_service-Belongs subsets vs h =
      rw (meta-build_virtual_service subsets vs h) (object_meta-Belongs cs.meta.name)

  pub build_destination_rule-Belongs :
      (subsets : List Subset) (dr : DestinationRule)
      → build_destination_rule sha1 opt mesh cs subsets ≡ some dr
      → Belongs opt.select_label (truncated sha1 cs.spec.original_name) cs.meta.namespace dr.meta
  build_destination_rule-Belongs subsets dr h =
      rw (meta-build_destination_rule subsets dr h) (object_meta-Belongs cs.meta.name)

  pub build_service_entry-Belongs :
      Belongs opt.select_label
        (truncated sha1 cs.spec.original_name)
        cs.meta.namespace
        (build_service_entry sha1 opt mesh cs).meta
  unfolding build_service_entry
  build_service_entry-Belongs = object_meta-Belongs cs.meta.name

  pub build_workload_entry-Belongs :
      (ins : Instance)
      → Belongs opt.select_label
          (truncated sha1 cs.spec.original_name)
          cs.meta.namespace
          (build_workload_entry sha1 opt mesh cs ins).meta
  unfolding build_workload_entry
  build_workload_entry-Belongs ins =
      object_meta-Belongs (entry_name cs.meta.name ins.host ins.port.number)
