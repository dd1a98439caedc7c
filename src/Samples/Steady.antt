-- ===== src/Samples/Steady.antt =====
-- A second reconciliation of the sample service.
use meshach.Prelude.{◌≡◌, refl, true, is_some, Option, none, some, [], ◌∷◌, arith, text_eq, filter}
use meshach.Istio.{VirtualService}
use meshach.Client.Actions.{done}
use meshach.Mesh.Subsets.{get_subset}
use meshach.Client.{ok}
use meshach.ServiceConfigs.Build.{truncated, build_virtual_service}
use meshach.ServiceConfigs.Build.Metadata.{build_virtual_service-Belongs}
use meshach.ServiceConfigs.Panics.{builders-Returns}
use meshach.Samples.Server.{Belongs-belongs}
use meshach.ServiceConfigs.Status.{subsets_found}
use meshach.ServiceConfigs.Reconcile.{reconcile_virtual_service}
use meshach.ServiceConfigs.Reconcile.Returns.{reconcile_virtual_service-steady}
use meshach.Samples.Data.{State, empty, mesh, config, key, opt, policy, blue}
use meshach.Samples.World.{cluster, equality_laws}

abbrev or_empty : Option VirtualService → VirtualService
or_empty none = record { meta = config.meta; spec = record { hosts = []; http = [] } }
or_empty (some vs) = vs

abbrev wanted : VirtualService
wanted = or_empty (build_virtual_service opt mesh config (blue ∷ []))

abbrev full : State
full = record empty { virtual_services = wanted ∷ [] }

or_empty-some : (o : Option VirtualService) → is_some o ≡ true → o ≡ some (or_empty o)
or_empty-some none h = cc h
or_empty-some (some vs) h = refl

wanted_built : build_virtual_service opt mesh config (blue ∷ []) ≡ some wanted
wanted_built =
    or_empty-some (build_virtual_service opt mesh config (blue ∷ []))
      (builders-Returns opt mesh policy refl config policy refl (blue ∷ []) (λ e. cc e)).0

wanted_listed :
    cluster.virtual_services.list config.meta.namespace (truncated config.spec.original_name) full
    ≡ ok (wanted ∷ [])
unfolding filter
wanted_listed = rw (
    Belongs-belongs key (truncated config.spec.original_name) config.meta.namespace wanted.meta
      (build_virtual_service-Belongs opt mesh config (blue ∷ []) wanted wanted_built))

reconcile_virtual_service-steady_example :
    reconcile_virtual_service cluster mesh config full ≡ (done tt, full)
reconcile_virtual_service-steady_example =
    reconcile_virtual_service-steady cluster mesh config full (blue ∷ [])
      (unfold subsets_found get_subset text_eq in refl) (omega arith) (λ m. refl) wanted wanted
      equality_laws wanted_built wanted_listed refl refl refl refl
