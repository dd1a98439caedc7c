-- ===== src/Adapter/Registry/Events.antt =====
-- pkg/adapter/registry/zk/client.go: the accessors, the loops over the events of the path caches, and what
-- the client tells about its state.
use meshach.Prelude.{
  Bool, false, Option, none, some, List, [], ◌∷◌, ◌++◌, map, if◌then◌else◌, Text, Dict, bytes,
  text_eq, lookup, insert,
}
use meshach.Utils.Addresses.{base}
use meshach.Adapter.Types.{Instance, Service, service_instances_replace}
use meshach.Adapter.Paths.{path_join}
use meshach.Adapter.Zookeeper.{
  PathCacheEvent, PathCacheEventType, added, deleted, changed, children_replaced, ignore,
  providers_path, consumers_path,
}
use meshach.Adapter.Registry.{
  ParseUrl, RegistryClient, make_accessor_instance, service_event, collect, add_service_instance,
  replace_service_instances, delete_service_instance, delete_service,
}

unfoldable pub found_or_new : Text → Option Service → Service
found_or_new hostname none = record { name = hostname; ports = []; instances = [] }
found_or_new hostname (some a) = a

unfoldable pub add_accessor : Text → RegistryClient → Service × RegistryClient
unfolding found_or_new lookup insert
add_accessor hostname c =
    let a = found_or_new hostname (lookup hostname c.accessors) in
    (a, record c { accessors = insert hostname a c.accessors })

abbrev pub or_empty_map : {V : Type 0} → Option (Dict V) → Dict V
or_empty_map none = []
or_empty_map (some m) = m

abbrev pub or_no_text : Option Text → Text
or_no_text none = []
or_no_text (some t) = t

unfoldable pub add_scoped : Text → Text → Dict (Dict Unit) → Dict (Dict Unit)
unfolding lookup insert text_eq
add_scoped name scope mapping =
    if text_eq scope []
    then mapping
    else insert scope (insert name tt (or_empty_map (lookup scope mapping))) mapping

-- `for k := range instances { ... c.scopedAccessorsMapping[scopedKey][a.Name] = struct{}{} }`
unfoldable pub add_scopes : Text → Dict Instance → Dict (Dict Unit) → Dict (Dict Unit)
unfolding add_scoped lookup
add_scopes name [] mapping = mapping
add_scopes name ((url, i) ∷ instances) mapping =
    add_scopes name instances (add_scoped name (or_no_text (lookup (bytes "app") i.labels)) mapping)

module _ (parse : ParseUrl) where
  unfoldable pub replace_accessor_instances : Text → List Text → RegistryClient → RegistryClient
  unfolding add_accessor add_scopes collect
  replace_accessor_instances hostname raw_urls c =
      let instances = collect (make_accessor_instance parse) raw_urls [] in
      let (a, c') = add_accessor hostname c in
      let event = service_event service_instances_replace a instances in
      record c' {
        scoped_accessors_mapping = add_scopes a.name instances c'.scoped_accessors_mapping;
        accessor_out = c'.accessor_out ++ event ∷ [];
      }

  on_provider : Text → PathCacheEventType → PathCacheEvent → RegistryClient → RegistryClient
  unfolding add_service_instance replace_service_instances delete_service_instance base
  on_provider hostname added event = add_service_instance parse hostname (base event.path)
  on_provider hostname children_replaced event =
      replace_service_instances parse hostname (map base event.paths)
  on_provider hostname deleted event = delete_service_instance parse hostname (base event.path)
  on_provider hostname changed event = λ c. c

  -- One round of the loop over the events of the cache of a service's providers
  unfoldable pub on_provider_event : Text → PathCacheEvent → RegistryClient → RegistryClient
  unfolding on_provider
  on_provider_event hostname event = on_provider hostname event.event_type event

  on_consumer : Text → PathCacheEventType → PathCacheEvent → RegistryClient → RegistryClient
  unfolding replace_accessor_instances base
  on_consumer hostname children_replaced event =
      replace_accessor_instances hostname (map base event.paths)
  on_consumer hostname added event = λ c. c
  on_consumer hostname deleted event = λ c. c
  on_consumer hostname changed event = λ c. c

  -- One round of the loop over the events of the cache of a service's consumers
  unfoldable pub on_consumer_event : Text → PathCacheEvent → RegistryClient → RegistryClient
  unfolding on_consumer
  on_consumer_event hostname event = on_consumer hostname event.event_type event

-- Whether NewPathCache succeeds for a path
abbrev pub Opens : Type 0
Opens = Text → Bool

open_ccache : Opens → Text → Text → RegistryClient → RegistryClient
unfolding insert
open_ccache opens hostname cpath c =
    if opens cpath then record c { ccaches = insert hostname cpath c.ccaches } else c

open_pcache : Opens → Text → Text → RegistryClient → RegistryClient
unfolding open_ccache path_join insert
open_pcache opens hostname path c =
    let ppath = path_join path providers_path in
    if opens ppath
    then open_ccache opens hostname (path_join path consumers_path)
        (record c { pcaches = insert hostname ppath c.pcaches })
    else c

on_service : Opens → PathCacheEventType → Text → Text → RegistryClient → RegistryClient
unfolding open_pcache delete_service insert
on_service opens added hostname path c = open_pcache opens hostname path c
on_service opens deleted hostname path c =
    let c' = delete_service hostname c in record c' { scached = insert path false c'.scached }
on_service opens changed hostname path c = c
on_service opens children_replaced hostname path c = c

-- One round of `eventLoop`
unfoldable pub on_service_event : Opens → PathCacheEvent → RegistryClient → RegistryClient
unfolding on_service base ignore
on_service_event opens event c =
    let hostname = base event.path in
    if ignore hostname then c else on_service opens event.event_type hostname event.path c

-- GetCachedScopedMapping
unfoldable pub get_cached_scoped_mapping : RegistryClient → Text → Dict Unit
unfolding lookup
get_cached_scoped_mapping c scoped_key = or_empty_map (lookup scoped_key c.scoped_accessors_mapping)

-- The instances of every service, and those of one
unfoldable pub all_instances : Dict Service → List Instance
all_instances [] = []
all_instances ((h, s) ∷ services) =
    map (λ (e : Text × Instance). e.1) s.instances ++ all_instances services

-- `append` of each instance, once for each host of the list that is its own
unfoldable pub matching_host : Instance → List Text → List Instance
unfolding text_eq
matching_host i [] = []
matching_host i (host ∷ hosts) =
    let rest = matching_host i hosts in if text_eq i.host host then i ∷ rest else rest

unfoldable pub matching_hosts : List Text → List Instance → List Instance
unfolding matching_host
matching_hosts hosts [] = []
matching_hosts hosts (i ∷ instances) = matching_host i hosts ++ matching_hosts hosts instances

unfoldable pub instances_by_host : List Text → RegistryClient → List Instance
unfolding matching_hosts all_instances
instances_by_host hosts c = matching_hosts hosts (all_instances c.services)
