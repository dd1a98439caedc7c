-- ===== src/ServiceConfigs/Reconcile/Converges.antt =====
-- What reconcileVirtualService and reconcileDestinationRule of the ServiceConfig controller leave in the
-- cluster when they return without an error.
use meshach.Prelude.{◌<◌, ◌≡◌, ◌≢◌, refl, Option, none, some, List, lt→ltb, Text, length}
use meshach.Api.{Subset, MeshConfigSpec, ServiceConfig}
use meshach.Istio.{VirtualService, DestinationRule}
use meshach.Cluster.{Cluster}
use meshach.Client.{already_exists, Result, ok, err}
use meshach.Client.Actions.{done}
use meshach.Client.Sync.Lawful.{Lawful}
use meshach.Mesh.Objects.{
  copy_virtual_service, copy_destination_rule, own_virtual_service, own_destination_rule,
  compare_virtual_service, compare_destination_rule,
}
use meshach.Mesh.Objects.Copies.{SetOwnerLaw}
use meshach.Mesh.Objects.Listed.{Published, publish_converges}
use meshach.ServiceConfigs.Build.{truncated, build_virtual_service, build_destination_rule}
use meshach.ServiceConfigs.Build.Metadata.{
  build_virtual_service-Belongs, build_destination_rule-Belongs,
}
use meshach.ServiceConfigs.Status.{subsets_found}
use meshach.ServiceConfigs.Reconcile.{
  sync_virtual_service, reconcile_virtual_service, sync_destination_rule,
  reconcile_destination_rule,
}

module _ {S : Type 0} (cluster : Cluster S) (mesh : MeshConfigSpec) (sc : ServiceConfig) where
  abbrev label : Text
  label = truncated sc.spec.original_name

  -- A reconcile function that returns has listed the objects of the service, and has gone on.
  virtual_service_listed :
      (subsets : List Subset) (s s' : S) (l : Result (List VirtualService))
      → subsets_found cluster mesh sc s ≡ ok subsets
      → 0 < length subsets
      → cluster.virtual_services.list sc.meta.namespace label s ≡ l
      → reconcile_virtual_service cluster mesh sc s ≡ (done tt, s')
      → (items : List VirtualService) × (cluster.virtual_services.list sc.meta.namespace label s
          ≡ ok items)
        × (sync_virtual_service cluster mesh sc subsets items s ≡ (done tt, s'))
  unfolding reconcile_virtual_service
  virtual_service_listed subsets s s' (err e) f p l h = cc (rw l at h)
  virtual_service_listed subsets s s' (ok items) f p l h =
      (items, l, rw (l, f, lt→ltb 0 (length subsets) p) at h)

  destination_rule_listed :
      (subsets : List Subset) (s s' : S) (l : Result (List DestinationRule))
      → subsets_found cluster mesh sc s ≡ ok subsets
      → 0 < length subsets
      → cluster.destination_rules.list sc.meta.namespace label s ≡ l
      → reconcile_destination_rule cluster mesh sc s ≡ (done tt, s')
      → (items : List DestinationRule) × (cluster.destination_rules.list sc.meta.namespace label s
          ≡ ok items)
        × (sync_destination_rule cluster mesh sc subsets items s ≡ (done tt, s'))
  unfolding reconcile_destination_rule
  destination_rule_listed subsets s s' (err e) f p l h = cc (rw l at h)
  destination_rule_listed subsets s s' (ok items) f p l h =
      (items, l, rw (l, f, lt→ltb 0 (length subsets) p) at h)

  module _ (owner_law : SetOwnerLaw cluster.set_owner) (subsets : List Subset) (s s' : S)
      (found : subsets_found cluster mesh sc s ≡ ok subsets)
      (some_subset : 0 < length subsets) where
    -- When reconcileVirtualService of a service with actual subsets returns without an error, the cluster
    -- lists one VirtualService for the service: the built one if there was none of its name, else the old
    -- one, with the built spec, labels and finalizers copied into it if they differed. Every other one
    -- that was listed is deleted. An object to be created must not exist unlisted.
    pub reconcile_virtual_service_converges :
        {contents : S → Text → Option VirtualService}
        → Lawful cluster.virtual_services
            (λ o. o.meta)
            cluster.retry
            cluster.opt.select_label
            label
            sc.meta.namespace
            contents
        → reconcile_virtual_service cluster mesh sc s ≡ (done tt, s')
        → ((vs : VirtualService)
            → build_virtual_service cluster.opt mesh sc subsets ≡ some vs
            → contents s vs.meta.name ≡ none
            → (cluster.virtual_services.create vs s).0 ≢ err already_exists)
        → (vs : VirtualService) × (build_virtual_service cluster.opt mesh sc subsets ≡ some vs)
          × Published
              (λ o. o.meta)
              (compare_virtual_service cluster.deep_equal)
              copy_virtual_service
              contents
              vs
              s
              s'
    reconcile_virtual_service_converges lawful ends fresh =
        let (items, l, h) = virtual_service_listed subsets s s' _ found some_subset refl ends in
        publish_converges cluster.virtual_services (λ o. o.meta) cluster.retry lawful
          (compare_virtual_service cluster.deep_equal) copy_virtual_service own_virtual_service
          (λ o. refl) (λ o old. refl) owner_law sc.meta items s s'
          (build_virtual_service cluster.opt mesh sc subsets) l
          (build_virtual_service-Belongs cluster.opt mesh sc subsets)
          (unfold sync_virtual_service in h) fresh

    -- When reconcileDestinationRule of a service with actual subsets returns without an error, the cluster
    -- lists one DestinationRule for the service: the built one if there was none of its name, else the old
    -- one, with the built spec, labels and finalizers copied into it if they differed. Every other one
    -- that was listed is deleted. An object to be created must not exist unlisted.
    pub reconcile_destination_rule_converges :
        {contents : S → Text → Option DestinationRule}
        → Lawful cluster.destination_rules
            (λ o. o.meta)
            cluster.retry
            cluster.opt.select_label
            label
            sc.meta.namespace
            contents
        → reconcile_destination_rule cluster mesh sc s ≡ (done tt, s')
        → ((dr : DestinationRule)
            → build_destination_rule cluster.opt mesh sc subsets ≡ some dr
            → contents s dr.meta.name ≡ none
            → (cluster.destination_rules.create dr s).0 ≢ err already_exists)
        → (dr : DestinationRule) × (build_destination_rule cluster.opt mesh sc subsets ≡ some dr)
          × Published
              (λ o. o.meta)
              (compare_destination_rule cluster.deep_equal)
              copy_destination_rule
              contents
              dr
              s
              s'
    reconcile_destination_rule_converges lawful ends fresh =
        let (items, l, h) = destination_rule_listed subsets s s' _ found some_subset refl ends in
        publish_converges cluster.destination_rules (λ o. o.meta) cluster.retry lawful
          (compare_destination_rule cluster.deep_equal) copy_destination_rule own_destination_rule
          (λ o. refl) (λ o old. refl) owner_law sc.meta items s s'
          (build_destination_rule cluster.opt mesh sc subsets) l
          (build_destination_rule-Belongs cluster.opt mesh sc subsets)
          (unfold sync_destination_rule in h) fresh
