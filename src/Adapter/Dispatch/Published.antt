-- ===== src/Adapter/Dispatch/Published.antt =====
-- From the children of a providers' node in zookeeper to the ConfiguredService in the cluster.
use meshach.Prelude.{
  ◌≡◌, ◌↔◌, refl, ◌∙◌, inl, inr, Bool-cases, Option, none, some, List, [], ◌∷◌, map, Text, Dict,
  lookup, insert, In, All, any-In, text_eq, text_eq_refl,
}
use meshach.Api
use meshach.Api.{ConfiguredService}
use meshach.Utils.{format_to_dns1123}
use meshach.Utils.Addresses.{base}
use meshach.Client.{ok}
use meshach.Adapter.Types.{Instance, ServiceEvent, service_instances_replace}
use meshach.Adapter.Convert.{to_instance, to_instances}
use meshach.Adapter.Zookeeper.{PathCacheEvent, children_replaced}
use meshach.Adapter.Registry.{
  ParseUrl, RegistryClient, make_service_instance, collect, collect_made, last_made, service_event,
}
use meshach.Adapter.Registry.Instances.{
  Named, lookup-collect, add_service-Added, replaced_service, replaced_event,
}
use meshach.Adapter.Registry.Events.{on_provider_event}
use meshach.Adapter.Handler.{KubeHandler, default_namespace}
use meshach.Adapter.Handler.Puts.{Tracks, Answers}
use meshach.Adapter.Handler.Stored.{replace_instances_lem}
use meshach.Adapter.Dispatch.{kube_handler, run_tasks, on_service_event}

-- An instance that one of the URLs is made into
abbrev pub Made : (Text → Option Instance) → List Text → Api.Instance → Type 0
Made make urls x =
    (url : Text) × (i : Instance) × In url urls × (make url ≡ some i) × (x ≡ to_instance i)

In-to_instances :
    (u : Text) (i : Instance) (m : Dict Instance)
    → lookup u m ≡ some i
    → In (to_instance i) (to_instances m)
unfolding to_instances lookup
In-to_instances u i [] l = cc l
In-to_instances u i ((j, x) ∷ m) l = elim (Bool-cases (text_eq j u)) [
  | inl same ↦ let own : x ≡ i = cc (rw same at l) in rw own (inl refl)
  | inr apart ↦ inr (In-to_instances u i m (rw apart at l))
]

abbrev AllMade : (Text → Option Instance) → List Text → Dict Instance → Type 0
AllMade make urls m = All (λ e. In e.0 urls × (make e.0 ≡ some e.1)) m

insert-AllMade :
    (make : Text → Option Instance) (urls : List Text) (u : Text) (i : Instance) (m : Dict Instance)
    → In u urls
    → make u ≡ some i
    → AllMade make urls m
    → AllMade make urls (insert u i m)
unfolding insert
insert-AllMade make urls u i [] l e h = ((l, e), tt)
insert-AllMade make urls u i ((j, x) ∷ m) l e h = elim (Bool-cases (text_eq j u)) [
  | inl same ↦ rw same ((l, e), h.1)
  | inr apart ↦ rw apart (h.0, insert-AllMade make urls u i m l e h.1)
]

made-AllMade :
    (make : Text → Option Instance) (urls : List Text) (u : Text) (r : Option Instance)
    (m : Dict Instance)
    → In u urls
    → make u ≡ r
    → AllMade make urls m
    → AllMade make urls (collect_made make u r m)
unfolding collect_made
made-AllMade make urls u none m l e h = h
made-AllMade make urls u (some i) m l e h = insert-AllMade make urls u i m l e h

collect-AllMade :
    (make : Text → Option Instance) (urls all : List Text) (m : Dict Instance)
    → ((u : Text) → In u urls → In u all)
    → AllMade make all m
    → AllMade make all (collect make urls m)
unfolding collect
collect-AllMade make [] all m sub h = h
collect-AllMade make (url ∷ urls) all m sub h =
    collect-AllMade make urls all (collect_made make url (make url) m) (λ u l. sub u (inr l))
      (made-AllMade make all url (make url) m (sub url (inl refl)) refl h)

to_instances-Made :
    (make : Text → Option Instance) (urls : List Text) (m : Dict Instance) (x : Api.Instance)
    → AllMade make urls m
    → In x (to_instances m)
    → Made make urls x
unfolding to_instances
to_instances-Made make urls [] x h l = absurd l
to_instances-Made make urls ((u, i) ∷ m) x h (inl e) = (u, i, h.0.0, h.0.1, e)
to_instances-Made make urls ((u, i) ∷ m) x h (inr l) = to_instances-Made make urls m x h.1 l

-- The converted map has the instances of the URLs that parse, and no others.
collected_iff :
    (make : Text → Option Instance) (urls : List Text) (x : Api.Instance)
    → In x (to_instances (collect make urls [])) ↔ Made make urls x
collected_iff make urls x = (
  λ l.
      to_instances-Made make urls (collect make urls []) x
        (collect-AllMade make urls urls [] (λ u m. m) tt) l,
  λ made. rw made.4 (
      In-to_instances made.0 made.1 (collect make urls []) (
        lookup-collect make urls [] made.0
        ∙ rw (any-In (λ y. text_eq y made.0) urls made.0 made.2 (text_eq_refl made.0), made.3)
            refl)),
)

module _ {S : Type 0} (h : KubeHandler S) (parse : ParseUrl) where
  -- When the children of a service's providers' node change, the registry sends an event for which the
  -- adapter makes a task that stores a ConfiguredService under the service's DNS name: with the service's
  -- name, an instance for every child whose name parses as a URL, and no other. The registry files services
  -- under their names; the cluster answers Get and accepts writes.
  pub replaced_children_published :
      (hostname : Text) (event : PathCacheEvent) (c : RegistryClient) (s : S)
      → Tracks h.configured_services (λ o. o.meta) h.retry
      → Named c
      → event.event_type ≡ children_replaced
      → Answers (h.configured_services.get default_namespace (format_to_dns1123 hostname) s)
      → (se : ServiceEvent) × In se (on_provider_event parse hostname event c).service_out
        × ((t : S)
            → (cs : ConfiguredService) × (h.configured_services.get default_namespace
                  (format_to_dns1123 hostname)
                  (run_tasks (on_service_event (kube_handler h ∷ []) se (t, [])).1.1 s).1
                ≡ ok cs)
              × (cs.spec.original_name ≡ hostname)
              × ((x : Api.Instance)
                  → In x cs.spec.instances
                    ↔ Made (make_service_instance parse) (map base event.paths) x))
  unfolding on_provider_event on_service_event run_tasks
  replaced_children_published hostname event c s tracks named type a =
      let make = make_service_instance parse in
      let urls = map base event.paths in
      let service = replaced_service parse hostname urls c in
      let se = service_event service_instances_replace service (collect make urls []) in
      let own : service.name ≡ hostname =
        ((add_service-Added hostname (last_made make none urls) c).1 named).0 in
      let (cs, returns, spec, stored) =
        replace_instances_lem h tracks se service s refl (rw own a) in
      (
        se,
        rw type (replaced_event parse hostname urls c),
        λ t. (
          cs,
          unfold kube_handler in
              rw returns (
                stored default_namespace (format_to_dns1123 hostname)
                ∙ rw (own, text_eq_refl (format_to_dns1123 hostname)) refl),
          rw spec own,
          λ x. rw spec (collected_iff make urls x),
        ),
      )
