-- ===== src/Samples/Publishing.antt =====
-- The theorems on the reconcile functions at the sample service.
use meshach.Prelude.{◌≡◌, refl, some, List, [], ◌∷◌, arith, Text, bytes, text_eq, filter}
use meshach.Api.{Subset}
use meshach.Istio.{VirtualService}
use meshach.Client.{ok}
use meshach.Client.Actions.{done, panic}
use meshach.Mesh.Objects.{copy_virtual_service, compare_virtual_service}
use meshach.Mesh.Objects.Listed.{Published}
use meshach.Mesh.Subsets.{get_subset}
use meshach.ServiceConfigs.Build.{truncated, build_virtual_service}
use meshach.ServiceConfigs.Status.{subsets_found}
use meshach.ServiceConfigs.Panics.{reconcile_destination_rule-panics}
use meshach.ServiceConfigs.Reconcile.{reconcile_virtual_service, reconcile_destination_rule}
use meshach.ServiceConfigs.Reconcile.Converges.{reconcile_virtual_service_converges}
use meshach.ServiceConfigs.Reconcile.Returns.{reconcile-returns}
use meshach.Samples.Data.{State, empty, mesh, config, config_without_policy, policy, blue}
use meshach.Samples.World.{
  cluster, owner_law, with_state, equality, virtual_services_in, virtual_services_Lawful,
  virtual_services_Accepts, destination_rules_Accepts,
}

abbrev subsets : List Subset
subsets = blue ∷ []

abbrev label : Text
label = truncated config.spec.original_name

abbrev after : State
after = (reconcile_virtual_service cluster mesh config empty).1

blue_found : subsets_found cluster mesh config empty ≡ ok (blue ∷ [])
unfolding subsets_found get_subset text_eq
blue_found = refl

reconcile-returns_example :
    ((reconcile_destination_rule cluster mesh config empty).0 ≡ done tt)
    × ((reconcile_virtual_service cluster mesh config empty).0 ≡ done tt)
reconcile-returns_example =
    reconcile-returns cluster mesh config empty subsets blue_found (omega arith) (λ m. refl) policy
      policy [] [] refl refl (unfold filter in refl) (unfold filter in refl)
      destination_rules_Accepts virtual_services_Accepts

both_return :
    ((reconcile_destination_rule cluster mesh config empty).0 ≡ done tt)
    × ((reconcile_virtual_service cluster mesh config empty).0 ≡ done tt)
both_return =
    reconcile-returns cluster mesh config empty subsets blue_found (omega arith) (λ m. refl) policy
      policy [] [] refl refl (unfold filter in refl) (unfold filter in refl)
      destination_rules_Accepts virtual_services_Accepts

reconcile_virtual_service_converges_example :
    (vs : VirtualService) × (build_virtual_service cluster.opt mesh config subsets ≡ some vs)
    × Published
        (λ (o : VirtualService). o.meta)
        (compare_virtual_service equality)
        copy_virtual_service
        (virtual_services_in label (bytes "ns"))
        vs
        empty
        after
reconcile_virtual_service_converges_example =
    reconcile_virtual_service_converges cluster mesh config owner_law subsets empty after blue_found
      (omega arith) (virtual_services_Lawful label (bytes "ns"))
      (with_state (reconcile_virtual_service cluster mesh config empty) both_return.1)
      (λ vs built gone e. cc e)

reconcile_destination_rule-panics_example :
    reconcile_destination_rule cluster mesh config_without_policy empty ≡ (panic, empty)
reconcile_destination_rule-panics_example =
    reconcile_destination_rule-panics cluster mesh config_without_policy empty [] subsets refl
      (unfold filter in refl) (unfold subsets_found get_subset text_eq in refl) (omega arith)
