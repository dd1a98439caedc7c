-- ===== src/ConfiguredServices/Reconcile/Converges.antt =====
-- What reconcileVirtualService, reconcileDestinationRule and reconcileServiceEntry of the
-- ConfiguredService controller leave in the cluster when they return without an error.
use meshach.Prelude.{ℕ, ◌<◌, ◌≡◌, ◌≢◌, refl, Option, none, some, List, lt→ltb, Text, length}
use meshach.Api.{MeshConfigSpec, ConfiguredService}
use meshach.Istio.{VirtualService, DestinationRule, ServiceEntry}
use meshach.Cluster.{Cluster}
use meshach.Client.{already_exists, Result, ok, err}
use meshach.Client.Actions.{done}
use meshach.Client.Sync.{publish}
use meshach.Client.Sync.Lawful.{Lawful}
use meshach.Mesh.Objects.{
  copy_virtual_service, copy_destination_rule, copy_service_entry, own_service_entry,
  compare_service_entry, own_virtual_service, own_destination_rule, compare_virtual_service,
  compare_destination_rule,
}
use meshach.Mesh.Objects.Copies.{SetOwnerLaw}
use meshach.Mesh.Objects.Listed.{Published, sync_listed, publish_owned, publish_converges}
use meshach.ConfiguredServices.Build.{
  truncated, build_virtual_service, build_destination_rule, build_service_entry,
}
use meshach.ConfiguredServices.Build.Metadata.{
  build_virtual_service-Belongs, build_destination_rule-Belongs, build_service_entry-Belongs,
}
use meshach.Mesh.Subsets.{get_subset}
use meshach.ConfiguredServices.Reconcile.{
  sync_virtual_service, reconcile_virtual_service, sync_destination_rule,
  reconcile_destination_rule, reconcile_service_entry,
}

module _ {S : Type 0} (cluster : Cluster S) (sha1 : Text → List ℕ) (mesh : MeshConfigSpec)
    (cs : ConfiguredService) where
  abbrev label : Text
  label = truncated sha1 cs.spec.original_name

  -- A reconcile function that returns has listed the objects of the service, and has gone on.
  virtual_service_listed :
      (s s' : S) (l : Result (List VirtualService))
      → 0 < length (get_subset mesh cs.spec.instances)
      → cluster.virtual_services.list cs.meta.namespace label s ≡ l
      → reconcile_virtual_service cluster sha1 mesh cs s ≡ (done tt, s')
      → (items : List VirtualService) × (cluster.virtual_services.list cs.meta.namespace label s
          ≡ ok items)
        × (sync_virtual_service cluster sha1 mesh cs (get_subset mesh cs.spec.instances) items s
            ≡ (done tt, s'))
  unfolding reconcile_virtual_service
  virtual_service_listed s s' (err e) p l h = cc (rw l at h)
  virtual_service_listed s s' (ok items) p l h =
      (items, l, rw (l, lt→ltb 0 (length (get_subset mesh cs.spec.instances)) p) at h)

  destination_rule_listed :
      (s s' : S) (l : Result (List DestinationRule))
      → 0 < length (get_subset mesh cs.spec.instances)
      → cluster.destination_rules.list cs.meta.namespace label s ≡ l
      → reconcile_destination_rule cluster sha1 mesh cs s ≡ (done tt, s')
      → (items : List DestinationRule) × (cluster.destination_rules.list cs.meta.namespace label s
          ≡ ok items)
        × (sync_destination_rule cluster sha1 mesh cs (get_subset mesh cs.spec.instances) items s
            ≡ (done tt, s'))
  unfolding reconcile_destination_rule
  destination_rule_listed s s' (err e) p l h = cc (rw l at h)
  destination_rule_listed s s' (ok items) p l h =
      (items, l, rw (l, lt→ltb 0 (length (get_subset mesh cs.spec.instances)) p) at h)

  module _ (owner_law : SetOwnerLaw cluster.set_owner) (s s' : S)
      (some_subset : 0 < length (get_subset mesh cs.spec.instances)) where
    -- When reconcileVirtualService of a service with actual subsets returns without an error, the cluster
    -- lists one VirtualService for the service: the built one if there was none of its name, else the old
    -- one, with the built spec, labels and finalizers copied into it if they differed. Every other one
    -- that was listed is deleted. An object to be created must not exist unlisted.
    pub configured_virtual_service_converges :
        {contents : S → Text → Option VirtualService}
        → Lawful cluster.virtual_services
            (λ o. o.meta)
            cluster.retry
            cluster.opt.select_label
            label
            cs.meta.namespace
            contents
        → reconcile_virtual_service cluster sha1 mesh cs s ≡ (done tt, s')
        → ((vs : VirtualService)
            → build_virtual_service sha1 cluster.opt mesh cs (get_subset mesh cs.spec.instances)
              ≡ some vs
            → contents s vs.meta.name ≡ none
            → (cluster.virtual_services.create vs s).0 ≢ err already_exists)
        → (vs : VirtualService) × (build_virtual_service sha1 cluster.opt mesh cs
              (get_subset mesh cs.spec.instances)
            ≡ some vs)
          × Published
              (λ o. o.meta)
              (compare_virtual_service cluster.deep_equal)
              copy_virtual_service
              contents
              vs
              s
              s'
    configured_virtual_service_converges lawful ends fresh =
        let (items, l, h) = virtual_service_listed s s' _ some_subset refl ends in
        publish_converges cluster.virtual_services (λ o. o.meta) cluster.retry lawful
          (compare_virtual_service cluster.deep_equal) copy_virtual_service own_virtual_service
          (λ o. refl) (λ o old. refl) owner_law cs.meta items s s'
          (build_virtual_service sha1 cluster.opt mesh cs (get_subset mesh cs.spec.instances)) l
          (build_virtual_service-Belongs sha1 cluster.opt mesh cs
            (get_subset mesh cs.spec.instances))
          (unfold sync_virtual_service in h) fresh

    -- When reconcileDestinationRule of a service with actual subsets returns without an error, the cluster
    -- lists one DestinationRule for the service: the built one if there was none of its name, else the old
    -- one, with the built spec, labels and finalizers copied into it if they differed. Every other one
    -- that was listed is deleted. An object to be created must not exist unlisted.
    pub configured_destination_rule_converges :
        {contents : S → Text → Option DestinationRule}
        → Lawful cluster.destination_rules
            (λ o. o.meta)
            cluster.retry
            cluster.opt.select_label
            label
            cs.meta.namespace
            contents
        → reconcile_destination_rule cluster sha1 mesh cs s ≡ (done tt, s')
        → ((dr : DestinationRule)
            → build_destination_rule sha1 cluster.opt mesh cs (get_subset mesh cs.spec.instances)
              ≡ some dr
            → contents s dr.meta.name ≡ none
            → (cluster.destination_rules.create dr s).0 ≢ err already_exists)
        → (dr : DestinationRule) × (build_destination_rule sha1 cluster.opt mesh cs
              (get_subset mesh cs.spec.instances)
            ≡ some dr)
          × Published
              (λ o. o.meta)
              (compare_destination_rule cluster.deep_equal)
              copy_destination_rule
              contents
              dr
              s
              s'
    configured_destination_rule_converges lawful ends fresh =
        let (items, l, h) = destination_rule_listed s s' _ some_subset refl ends in
        publish_converges cluster.destination_rules (λ o. o.meta) cluster.retry lawful
          (compare_destination_rule cluster.deep_equal) copy_destination_rule own_destination_rule
          (λ o. refl) (λ o old. refl) owner_law cs.meta items s s'
          (build_destination_rule sha1 cluster.opt mesh cs (get_subset mesh cs.spec.instances)) l
          (build_destination_rule-Belongs sha1 cluster.opt mesh cs
            (get_subset mesh cs.spec.instances))
          (unfold sync_destination_rule in h) fresh

  service_entry_listed :
      (s s' : S) (l : Result (List ServiceEntry))
      → cluster.service_entries.list cs.meta.namespace label s ≡ l
      → reconcile_service_entry cluster sha1 mesh cs s ≡ (done tt, s')
      → (items : List ServiceEntry) × (cluster.service_entries.list cs.meta.namespace label s
          ≡ ok items)
        × (publish cluster.service_entries
              (λ o. o.meta)
              cluster.retry
              (compare_service_entry cluster.deep_equal)
              copy_service_entry
              cluster.set_owner
              own_service_entry
              cs.meta
              (some (build_service_entry sha1 cluster.opt mesh cs))
              items
              s
            ≡ (done tt, s'))
  unfolding reconcile_service_entry
  service_entry_listed s s' (err e) l h = cc (rw l at h)
  service_entry_listed s s' (ok items) l h = (items, l, rw l at h)

  -- When reconcileServiceEntry returns without an error, the cluster lists one ServiceEntry for the
  -- service, whether it has instances or not: the built one if there was none of its name, else the old
  -- one, with the built content copied into it if they differed; every other listed one is deleted. An
  -- object to be created must not exist unlisted.
  pub configured_service_entry_converges :
      {contents : S → Text → Option ServiceEntry} (s s' : S)
      → SetOwnerLaw cluster.set_owner
      → Lawful cluster.service_entries
          (λ o. o.meta)
          cluster.retry
          cluster.opt.select_label
          label
          cs.meta.namespace
          contents
      → reconcile_service_entry cluster sha1 mesh cs s ≡ (done tt, s')
      → (contents s (build_service_entry sha1 cluster.opt mesh cs).meta.name ≡ none
          → (cluster.service_entries.create (build_service_entry sha1 cluster.opt mesh cs) s).0
            ≢ err already_exists)
      → Published
          (λ o. o.meta)
          (compare_service_entry cluster.deep_equal)
          copy_service_entry
          contents
          (build_service_entry sha1 cluster.opt mesh cs)
          s
          s'
  configured_service_entry_converges s s' owner_law lawful ends fresh =
      let se = build_service_entry sha1 cluster.opt mesh cs in
      let (items, l, h) = service_entry_listed s s' _ refl ends in
      let differs = compare_service_entry cluster.deep_equal in
      sync_listed cluster.service_entries (λ o. o.meta) cluster.retry lawful differs
        copy_service_entry own_service_entry (λ o. refl) (λ o old. refl) se items s s' l
        (build_service_entry-Belongs sha1 cluster.opt mesh cs)
        (publish_owned cluster.service_entries (λ o. o.meta) cluster.retry lawful differs
          copy_service_entry own_service_entry (λ o. refl) (λ o old. refl) owner_law cs.meta items s
          s' se _ refl h)
        fresh
