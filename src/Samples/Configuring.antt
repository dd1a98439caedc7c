-- ===== src/Samples/Configuring.antt =====
-- The theorems on the ConfiguredService controller at the sample service.
use meshach.Prelude.{
  ◌≡◌, ◌↔◌, ◌++◌, All, refl, false, some, List, [], ◌∷◌, arith, Text, bytes, text_eq, lookup,
  filter, length, ◌<◌,
}
use meshach.Api.{Subset}
use meshach.Istio.{VirtualService, Sidecar}
use meshach.Client.{not_found, ok, err}
use meshach.Client.Sync.{found_map}
use meshach.Client.Actions.{done, fail}
use meshach.Mesh.Objects.{copy_virtual_service, compare_virtual_service}
use meshach.Mesh.Objects.Listed.{Published}
use meshach.Mesh.Subsets.{get_subset}
use meshach.ConfiguredServices.Build.{truncated, build_virtual_service}
use meshach.ConfiguredServices.Sidecars.{
  init_default_sidecars_by_deploy, get_app_name, get_app_namespace, build_sidecar,
  reconcile_sidecar,
}
use meshach.ConfiguredServices.Sidecars.Missing.{after_init, HasSidecar, reconcile_sidecar-missing}
use meshach.ConfiguredServices.Reconcile.{reconcile_virtual_service, reconcile_destination_rule}
use meshach.ConfiguredServices.Reconcile.Converges.{configured_virtual_service_converges}
use meshach.ConfiguredServices.Reconcile.Returns.{configured-returns}
use meshach.Samples.Data.{State, empty, mesh, configured, policy}
use meshach.Samples.World.{
  cluster, owner_law, sha1, with_state, equality, virtual_services_in, virtual_services_Lawful,
  virtual_services_Accepts, destination_rules_Accepts,
}

abbrev label : Text
label = truncated sha1 configured.spec.original_name

abbrev subsets : List Subset
subsets = get_subset mesh configured.spec.instances

abbrev after : State
after = (reconcile_virtual_service cluster sha1 mesh configured empty).1

some_subset : 0 < length subsets
unfolding get_subset text_eq
some_subset = omega arith

both_return :
    ((reconcile_destination_rule cluster sha1 mesh configured empty).0 ≡ done tt)
    × ((reconcile_virtual_service cluster sha1 mesh configured empty).0 ≡ done tt)
both_return =
    configured-returns cluster sha1 mesh configured empty (λ m. refl) policy [] [] refl some_subset
      (unfold filter in refl) (unfold filter in refl) destination_rules_Accepts
      virtual_services_Accepts

configured_virtual_service_converges_example :
    (vs : VirtualService) × (build_virtual_service sha1 cluster.opt mesh configured subsets
      ≡ some vs)
    × Published
        (λ (o : VirtualService). o.meta)
        (compare_virtual_service equality)
        copy_virtual_service
        (virtual_services_in label (bytes "ns"))
        vs
        empty
        after
configured_virtual_service_converges_example =
    configured_virtual_service_converges cluster sha1 mesh configured owner_law empty after
      some_subset (virtual_services_Lawful label (bytes "ns"))
      (with_state (reconcile_virtual_service cluster sha1 mesh configured empty) both_return.1)
      (λ vs built gone e. cc e)

abbrev web : Sidecar
web = build_sidecar mesh (bytes "ns") (bytes "web")

named : text_eq (get_app_name mesh configured.spec.instances) [] ≡ false
unfolding get_app_name lookup text_eq
named = refl

reconcile_sidecar-missing_example :
    let app_name = get_app_name mesh configured.spec.instances in
    let t = after_init cluster mesh false empty in
    (((reconcile_sidecar cluster mesh false configured empty).0 ≡ done tt)
      ↔ All (HasSidecar cluster mesh app_name t) (get_app_namespace cluster mesh app_name t))
    × ((reconcile_sidecar cluster mesh false configured empty).0 ≡ done tt
        → reconcile_sidecar cluster mesh false configured empty ≡ (done tt, t))
    × ((before rest : List Text) (ns : Text) (t' : State)
        → get_app_namespace cluster mesh app_name t ≡ before ++ ns ∷ rest
        → All (HasSidecar cluster mesh app_name t) before
        → cluster.sidecars.get ns app_name t ≡ err not_found
        → cluster.sidecars.create (build_sidecar mesh ns app_name) t ≡ (ok tt, t')
        → reconcile_sidecar cluster mesh false configured empty ≡ (fail not_found, t'))
reconcile_sidecar-missing_example =
    reconcile_sidecar-missing cluster mesh false configured empty named

-- What the third part says there
web_created :
    reconcile_sidecar cluster mesh false configured empty
    ≡ (fail not_found, record empty { sidecars = web ∷ [] })
unfolding init_default_sidecars_by_deploy get_app_name get_app_namespace lookup text_eq found_map
    filter
web_created =
    (reconcile_sidecar-missing cluster mesh false configured empty named).2 [] [] (bytes "ns")
      (record empty { sidecars = web ∷ [] }) refl tt refl refl
