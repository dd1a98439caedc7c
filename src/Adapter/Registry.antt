-- ===== src/Adapter/Registry.antt =====
-- pkg/adapter/registry/zk/client.go: what the registry client keeps of the services and of the
-- applications that use them, and the events that it sends. An event is sent by a goroutine of its own:
-- the events that wait to be received are a list, in no order that matters.
pub mod Events
pub mod Instances
pub mod Scopes
pub mod Deletions
use meshach.Prelude.{
  Bool, true, false, Option, none, some, List, [], ◌∷◌, ◌++◌, map, if◌then◌else◌, ◌>>=◌, Text, Dict,
  bytes, text_eq, has_suffix, lookup, insert, delete,
}
use meshach.Adapter.Types.{
  Port, Instance, Service, ServiceEvent, service_added, service_deleted, service_instance_added,
  ServiceEventType, service_instance_deleted, service_instances_replace, add_port,
}
use meshach.Adapter.Paths.{query_unescape}

-- What the program reads of a url.URL: Host, Port() and Query(). A key of the query has a value at least.
pub record Url : Type 0 where
  pub host : Text
  pub port : Text
  pub query : Dict (List Text)

-- url.Parse; `none` is an error.
abbrev pub ParseUrl : Type 0
ParseUrl = Text → Option Url

pub record RegistryClient : Type 0 where
  pub services : Dict Service
  pub accessors : Dict Service
  pub scoped_accessors_mapping : Dict (Dict Unit)
  -- The path of each cache
  pub pcaches : Dict Text
  pub ccaches : Dict Text
  pub scached : Dict Bool
  pub service_out : List ServiceEvent
  pub accessor_out : List ServiceEvent
  -- The paths of the caches that have been told to stop
  pub stopping : List Text

unfoldable pub new : RegistryClient
new = record {
  services = [];
  accessors = [];
  scoped_accessors_mapping = [];
  pcaches = [];
  ccaches = [];
  scached = [];
  service_out = [];
  accessor_out = [];
  stopping = [];
}

abbrev pub service_event : ServiceEventType → Service → Dict Instance → ServiceEvent
service_event type s instances = record {
  event_type = type;
  service = some s;
  event_instance = none;
  instances = instances;
}

-- The events of a single instance have no service.
abbrev pub instance_event : ServiceEventType → Instance → ServiceEvent
instance_event type i = record {
  event_type = type;
  service = none;
  event_instance = some i;
  instances = [];
}

notify_service_event : ServiceEvent → RegistryClient → RegistryClient
notify_service_event event c = record c { service_out = c.service_out ++ event ∷ [] }

add_label : Text → List Text → Dict Text → Dict Text
unfolding insert
add_label key [] labels = labels
add_label key (value ∷ values) labels = insert key value labels

-- `for key, value := range ep.Query() { if value != nil { labels[key] = value[0] } }`
unfoldable pub query_labels : Dict (List Text) → Dict Text → Dict Text
unfolding add_label
query_labels [] labels = labels
query_labels ((key, values) ∷ query) labels = query_labels query (add_label key values labels)

module _ (parse : ParseUrl) where
  unfoldable pub make_service_instance : Text → Option Instance
  unfolding query_unescape query_labels
  make_service_instance raw_url = do
    clean_url ← query_unescape raw_url
    ep ← parse clean_url
    some (record {
      service = none;
      host = ep.host;
      port = some (record { protocol = bytes "HTTP"; port = ep.port });
      labels = query_labels ep.query [];
    })

  unfoldable pub make_accessor_instance : Text → Option Instance
  unfolding query_unescape query_labels
  make_accessor_instance raw_url = do
    clean_url ← query_unescape raw_url
    ep ← parse clean_url
    some (record { service = none; host = ep.host; port = none; labels = query_labels ep.query [] })

abbrev port_of : Option Instance → Option Port
port_of none = none
port_of (some i) = i.port

with_port : Option Port → Service → Service
unfolding add_port
with_port none s = s
with_port (some port) s = add_port port s

new_service : Text → Option Instance → Service
unfolding with_port
new_service hostname i =
    with_port (port_of i) (record { name = hostname; ports = []; instances = [] })

add_found : Text → Option Instance → Option Service → RegistryClient → Service × RegistryClient
unfolding new_service notify_service_event insert
add_found hostname i (some s) c = (s, c)
add_found hostname i none c =
    let s = new_service hostname i in
    (
      s,
      notify_service_event (service_event service_added s [])
          (record c { services = insert hostname s c.services }),
    )

unfoldable pub add_service : Text → Option Instance → RegistryClient → Service × RegistryClient
unfolding add_found lookup
add_service hostname i c = add_found hostname i (lookup hostname c.services) c

-- The map that is made of the URLs that parse, and the instance of the last URL, nil if that does not
-- parse.
module _ (make : Text → Option Instance) where
  unfoldable pub collect_made : Text → Option Instance → Dict Instance → Dict Instance
  unfolding insert
  collect_made url none instances = instances
  collect_made url (some i) instances = insert url i instances

  unfoldable pub collect : List Text → Dict Instance → Dict Instance
  unfolding collect_made
  collect [] instances = instances
  collect (url ∷ urls) instances = collect urls (collect_made url (make url) instances)

  unfoldable pub last_made : Option Instance → List Text → Option Instance
  last_made i [] = i
  last_made i (url ∷ urls) = last_made (make url) urls

module _ (parse : ParseUrl) where
  unfoldable pub replace_service_instances : Text → List Text → RegistryClient → RegistryClient
  unfolding add_service collect last_made notify_service_event
  replace_service_instances hostname raw_urls c =
      let make = make_service_instance parse in
      let (s, c') = add_service hostname (last_made make none raw_urls) c in
      notify_service_event (service_event service_instances_replace s (collect make raw_urls [])) c'

  add_instance : Text → Text → Option Instance → RegistryClient → RegistryClient
  unfolding add_service notify_service_event insert
  add_instance hostname raw_url none c = c
  add_instance hostname raw_url (some i) c =
      let (s, c') = add_service hostname (some i) c in
      let owned : Instance = record i { service = some s.name } in
      let grown : Service = record s { instances = insert raw_url owned s.instances } in
      notify_service_event (instance_event service_instance_added owned)
        (record c' { services = insert hostname grown c'.services })

  unfoldable pub add_service_instance : Text → Text → RegistryClient → RegistryClient
  unfolding add_instance make_service_instance
  add_service_instance hostname raw_url c =
      add_instance hostname raw_url (make_service_instance parse raw_url) c

  delete_instance : Text → Text → Option Instance → Option Service → RegistryClient → RegistryClient
  unfolding notify_service_event insert delete
  delete_instance hostname raw_url none s c = c
  delete_instance hostname raw_url (some i) none c = c
  delete_instance hostname raw_url (some i) (some s) c =
      let shrunk : Service = record s { instances = delete raw_url s.instances } in
      notify_service_event (instance_event service_instance_deleted i)
        (record c { services = insert hostname shrunk c.services })

  unfoldable pub delete_service_instance : Text → Text → RegistryClient → RegistryClient
  unfolding delete_instance make_service_instance lookup
  delete_service_instance hostname raw_url c =
      delete_instance hostname raw_url (make_service_instance parse raw_url)
        (lookup hostname c.services) c

-- The services whose name ends in the hostname, and the others
unfoldable pub ending_in : Text → Dict Service → Dict Service
unfolding has_suffix
ending_in hostname [] = []
ending_in hostname ((h, s) ∷ services) =
    let rest = ending_in hostname services in if has_suffix h hostname then (h, s) ∷ rest else rest

unfoldable pub not_ending_in : Text → Dict Service → Dict Service
unfolding has_suffix
not_ending_in hostname [] = []
not_ending_in hostname ((h, s) ∷ services) =
    let rest = not_ending_in hostname services in
    if has_suffix h hostname then rest else (h, s) ∷ rest

deletions : Dict Service → List ServiceEvent
deletions [] = []
deletions ((h, s) ∷ services) = service_event service_deleted s [] ∷ deletions services

stop_cache : Option Text → List Text → List Text
stop_cache none stopping = stopping
stop_cache (some path) stopping = stopping ++ path ∷ []

unfoldable pub delete_service : Text → RegistryClient → RegistryClient
unfolding ending_in not_ending_in deletions stop_cache lookup
delete_service hostname c = record c {
  services = not_ending_in hostname c.services;
  service_out = c.service_out ++ deletions (ending_in hostname c.services);
  stopping = stop_cache (lookup hostname c.pcaches) c.stopping;
}
