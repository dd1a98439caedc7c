-- ===== src/Adapter/Dispatch/Panics.antt =====
-- Which events of the registry end the adapter.
use meshach.Prelude.{◌≡◌, ◌↔◌, refl, Option, none, some, List, [], ◌∷◌, map, Text, lookup, In}
use meshach.Utils.Addresses.{base}
use meshach.Client.Actions.{done, panic, Action, deref, ◌>>=◌}
use meshach.Adapter.Types.{
  Instance, Service, ServiceEventType, ServiceEvent, service_instance_deleted, service_added,
  service_deleted, service_instance_added, service_instances_replace,
}
use meshach.Adapter.Zookeeper.{PathCacheEvent, deleted}
use meshach.Adapter.Registry.{ParseUrl, RegistryClient, make_service_instance, instance_event}
use meshach.Adapter.Registry.Deletions.{deleted_instance_event}
use meshach.Adapter.Registry.Events.{on_provider_event}
use meshach.Adapter.Handler
use meshach.Adapter.Handler.{KubeHandler, no_operation}
use meshach.Adapter.Dispatch.{
  EventHandler, Adapter, kube_handler, call_each, at_once, by_service_type, on_service_event,
}

module _ {S : Type 0} where
  -- Every one of the calls returns.
  call_each-done :
      (call : EventHandler S → Action S Unit)
      → ((h : KubeHandler S) (s : S) → (call (kube_handler h) s).0 ≡ done tt)
      → (handlers : List (KubeHandler S)) (s : S)
      → (call_each call (map kube_handler handlers) s).0 ≡ done tt
  unfolding call_each
  call_each-done call returns [] s = refl
  call_each-done call returns (h ∷ handlers) s =
      rw (returns h s) (call_each-done call returns handlers _)

  delete_service-done :
      (h : KubeHandler S) (se : ServiceEvent) (service : Service) (s : S)
      → se.service ≡ some service
      → (Handler.delete_service h se s).0 ≡ done tt
  delete_service-done h se service s e = unfold Handler.delete_service in rw e

  by_type-done :
      (type : ServiceEventType) (handlers : List (KubeHandler S)) (se : ServiceEvent)
      (service : Service) (st : Adapter S)
      → se.service ≡ some service
      → (by_service_type (map kube_handler handlers) type service.name se st).0 ≡ done tt
  unfolding by_service_type at_once
  by_type-done service_added handlers se service st e =
      call_each-done (λ h. h.add_service se) (λ h s. unfold kube_handler no_operation in refl)
        handlers st.0
  by_type-done service_deleted handlers se service st e =
      call_each-done (λ h. h.delete_service se)
        (λ h s. unfold kube_handler in delete_service-done h se service s e) handlers st.0
  by_type-done service_instance_added handlers se service st e =
      call_each-done (λ h. h.add_instance se) (λ h s. unfold kube_handler no_operation in refl)
        handlers st.0
  by_type-done service_instance_deleted handlers se service st e =
      call_each-done (λ h. h.delete_instance se) (λ h s. unfold kube_handler no_operation in refl)
        handlers st.0
  by_type-done service_instances_replace handlers se service st e = refl

  panics_without :
      (handlers : List (KubeHandler S)) (se : ServiceEvent) (st : Adapter S) (o : Option Service)
      → se.service ≡ o
      → ((do
        service ← deref o
        by_service_type (map kube_handler handlers) se.event_type service.name se)
          st).0
        ≡ panic
      → o ≡ none
  panics_without handlers se st none e h = refl
  panics_without handlers se st (some service) e h =
      cc (h, by_type-done se.event_type handlers se service st e)

  -- With handlers for Kubernetes clusters, the adapter panics on an event of the registry exactly where
  -- the event has no service; with a service it returns.
  pub on_service_event-panics :
      (handlers : List (KubeHandler S)) (se : ServiceEvent) (st : Adapter S)
      → ((on_service_event (map kube_handler handlers) se st).0 ≡ panic) ↔ (se.service ≡ none)
  unfolding on_service_event
  on_service_event-panics handlers se st =
      (λ h. panics_without handlers se st se.service refl h, λ e. rw e)

  -- When the node of a service's providers is deleted, the registry sends an event on which the adapter
  -- panics, whatever its handlers are. The service must be known, and the node's name parse as a URL.
  pub providers_deleted-panics :
      (parse : ParseUrl) (hostname : Text) (event : PathCacheEvent) (c : RegistryClient)
      (s : Service) (i : Instance)
      → event.event_type ≡ deleted
      → lookup hostname c.services ≡ some s
      → make_service_instance parse (base event.path) ≡ some i
      → (se : ServiceEvent) × In se (on_provider_event parse hostname event c).service_out
        × ((handlers : List (EventHandler S)) (st : Adapter S)
            → on_service_event handlers se st ≡ (panic, st))
  unfolding on_provider_event on_service_event
  providers_deleted-panics parse hostname event c s i type l e = (
    instance_event service_instance_deleted i,
    rw type (deleted_instance_event parse hostname (base event.path) c s i l e),
    λ handlers st. refl,
  )
