-- ===== src/Samples/Registering.antt =====
-- The theorems on the registry, the conversions and the handlers at one service with one provider.
use meshach.Prelude.{
  ◌≡◌, ◌↔◌, ◌⊎◌, refl, inl, inr, true, false, Bool-cases, none, some, List, [], ◌∷◌, map,
  if◌then◌else◌, Text, bytes, text_eq, text_eq_iff, has_prefix, lookup, In, ◌&&◌, has_suffix,
}
use meshach.Api
use meshach.Api.{ConfiguredService, ServiceConfig, ServiceAccessor, InstanceConfig}
use meshach.Utils.{format_to_dns1123}
use meshach.Utils.Addresses.{base}
use meshach.Client.{not_found, ok, err, Store}
use meshach.Client.Actions.{done, panic}
use meshach.Adapter.Types.{
  Instance, Service, ServiceEvent, service_instances_replace, ConfigItem, ConfiguratorConfig,
  ConfigEvent, config_entry_changed,
}
use meshach.Adapter.Zookeeper.{PathCacheEvent, deleted, notice_of, replaced_by}
use meshach.Adapter.Convert.{Unmarshal, any_host, find_flag_config, to_service_config}
use meshach.Adapter.Convert.Flags.{NilFlag}
use meshach.Adapter.Convert.Configs.{Configured, all_addressed, to_service_config-panics}
use meshach.Adapter.Registry.{
  Url, ParseUrl, RegistryClient, make_service_instance, service_event, delete_service, new,
  make_accessor_instance,
}
use meshach.Adapter.Types.{service_deleted}
use meshach.Adapter.Registry.Events.{
  on_provider_event, replace_accessor_instances, get_cached_scoped_mapping, instances_by_host,
}
use meshach.Adapter.Registry.Instances.{replaced_all, instances_by_host-replaced}
use meshach.Adapter.Registry.Scopes.{replace_accessor_instances_lem}
use meshach.Adapter.Registry.Deletions.{delete_service_suffix}
use meshach.Adapter.Handler
use meshach.Adapter.Handler.{KubeHandler, ScopedServices, default_namespace, change_config_entry}
use meshach.Adapter.Handler.Accessed.{replace_accessors_lem}
use meshach.Adapter.Handler.Stored.{change_config_entry_lem}
use meshach.Adapter.Dispatch.{Adapter, EventHandler, kube_handler, run_tasks, on_service_event}
use meshach.Adapter.Dispatch.Panics.{on_service_event-panics, providers_deleted-panics}
use meshach.Adapter.Dispatch.Published.{Made, replaced_children_published}
use meshach.Samples.Server.{keep_retry}
use meshach.Samples.Objects.{object_store, object_store-Tracks, object_store-Answers}

abbrev provider : Url
provider = record {
  host = bytes "10.0.0.1:20880";
  port = bytes "20880";
  query = (bytes "app", bytes "web" ∷ []) ∷ [];
}

abbrev no_host : Url
no_host = record { host = []; port = []; query = [] }

abbrev parse : ParseUrl
parse s = if has_prefix s (bytes "dubbo://") then some provider else some no_host

abbrev hostname : Text
hostname = bytes "com.foo.Demo"

abbrev demo : Service
demo = record { name = hostname; ports = []; instances = [] }

-- A registry client that knows the service, also as one that is consumed
abbrev known : RegistryClient
known = record {
  services = (hostname, demo) ∷ [];
  accessors = (hostname, demo) ∷ [];
  scoped_accessors_mapping = [];
  pcaches = [];
  ccaches = [];
  scached = [];
  service_out = [];
  accessor_out = [];
  stopping = [];
}

named_demo : (h : Text) (s : Service) → lookup h ((hostname, demo) ∷ []) ≡ some s → s.name ≡ h
unfolding lookup
named_demo h s e = elim (Bool-cases (text_eq hostname h)) [
  | inl same ↦
      let own : demo ≡ s = cc (rw same at e) in rw (← own) ((text_eq_iff hostname h).0 same)
  | inr apart ↦ cc (rw apart at e)
]

abbrev blank_store : {S O : Type 0} → Store S O
blank_store = record {
  get = λ namespace name s. err not_found;
  list = λ namespace label s. ok [];
  create = λ o s. (ok tt, s);
  update = λ o s. (ok tt, s);
  delete = λ o s. (ok tt, s);
}

abbrev no_flags : Unmarshal
no_flags text = none

-- Handlers for clusters of ConfiguredServices and of ServiceConfigs
abbrev services_handler : KubeHandler (List ConfiguredService)
services_handler = record {
  configured_services = object_store (λ o. o.meta);
  service_configs = blank_store;
  accessors = blank_store;
  retry = keep_retry;
  deep_equal = λ a b. false;
  unmarshal = no_flags;
}

abbrev configs_handler : KubeHandler (List ServiceConfig)
configs_handler = record {
  configured_services = blank_store;
  service_configs = object_store (λ o. o.meta);
  accessors = blank_store;
  retry = keep_retry;
  deep_equal = λ a b. false;
  unmarshal = no_flags;
}

abbrev child : Text
child = bytes "dubbo%3A%2F%2F10.0.0.1%3A20880%2Fcom.foo.Demo%3Fapp%3Dweb"

replaced_children_published_example :
    (se : ServiceEvent) × In se
      (on_provider_event parse hostname (replaced_by (child ∷ [])) known).service_out
    × ((t : List ConfiguredService)
        → (cs : ConfiguredService) × ((object_store (λ (o : ConfiguredService). o.meta)).get
              default_namespace
              (format_to_dns1123 hostname)
              (run_tasks
                (on_service_event (kube_handler services_handler ∷ []) se (t, [])).1.1
                []).1
            ≡ ok cs)
          × (cs.spec.original_name ≡ hostname)
          × ((x : Api.Instance)
              → In x cs.spec.instances
                ↔ Made (make_service_instance parse) (map base (child ∷ [])) x))
replaced_children_published_example =
    replaced_children_published services_handler parse hostname (replaced_by (child ∷ [])) known []
      (object_store-Tracks (λ o. o.meta)) named_demo refl tt

abbrev without_service : ServiceEvent
without_service = record {
  event_type = service_instances_replace;
  service = none;
  event_instance = none;
  instances = [];
}

on_service_event-panics_example :
    ((on_service_event (map kube_handler (services_handler ∷ [])) without_service ([], [])).0
      ≡ panic)
    ↔ (without_service.service ≡ none)
on_service_event-panics_example =
    on_service_event-panics (services_handler ∷ []) without_service ([], [])

abbrev no_instance : Instance
no_instance = record {
  service = none;
  host = [];
  port = some (record { protocol = bytes "HTTP"; port = [] });
  labels = [];
}

abbrev providers_gone : PathCacheEvent
providers_gone = notice_of deleted (bytes "/dubbo/com.foo.Demo/providers")

no_instance_made : make_service_instance parse (base providers_gone.path) ≡ some no_instance
unfolding make_service_instance base has_prefix
no_instance_made = refl

demo_known : lookup hostname known.services ≡ some demo
unfolding lookup text_eq
demo_known = refl

providers_deleted-panics_example :
    (se : ServiceEvent) × In se (on_provider_event parse hostname providers_gone known).service_out
    × ((handlers : List (EventHandler Unit)) (st : Adapter Unit)
        → on_service_event handlers se st ≡ (panic, st))
providers_deleted-panics_example =
    providers_deleted-panics parse hostname providers_gone known demo no_instance refl demo_known
      no_instance_made

abbrev item : ConfigItem
item = record {
  enabled = true;
  addresses = bytes "10.0.0.1:20880" ∷ [];
  parameters = (bytes "weight", bytes "100") ∷ [];
  side = bytes "provider";
}

abbrev config : ConfiguratorConfig
config = record { key = hostname; enabled = true; configs = item ∷ [] }

abbrev config_changed : ConfigEvent
config_changed = record {
  event_type = config_entry_changed;
  path = bytes "/dubbo/config/dubbo/com.foo.Demo.configurators";
  config_entry = some config;
}

unflagged : NilFlag no_flags (find_flag_config (item ∷ [])) → ⊥
unfolding find_flag_config text_eq
unflagged n = n

change_config_entry_lem_example :
    (sc : ServiceConfig) × ((change_config_entry configs_handler config_changed []).0 ≡ done tt)
    × ((x : InstanceConfig) → In x sc.spec.instances ↔ Configured (item ∷ []) x)
    × ((ns n : Text)
        → (object_store (λ (o : ServiceConfig). o.meta)).get ns n
            (change_config_entry configs_handler config_changed []).1
          ≡ (if text_eq default_namespace ns && text_eq (format_to_dns1123 hostname) n
              then ok sc
              else err not_found))
change_config_entry_lem_example =
    change_config_entry_lem configs_handler (object_store-Tracks (λ o. o.meta)) config_changed
      config [] refl refl refl unflagged tt

-- Every text is read as manual flags with a null.
abbrev null_flag : Unmarshal
null_flag text = some (record { flags = none ∷ []; manual = true })

abbrev flag_item : ConfigItem
flag_item = record {
  enabled = true;
  addresses = any_host ∷ [];
  parameters = (bytes "flag_config", bytes "flags: [null]") ∷ [];
  side = bytes "consumer";
}

to_service_config-panics_example :
    (to_service_config null_flag default_namespace
        (some (record config { configs = flag_item ∷ [] }))
      ≡ none)
    ↔ ((all_addressed (flag_item ∷ []) ≡ false)
        ⊎ NilFlag null_flag (find_flag_config (flag_item ∷ [])))
to_service_config-panics_example =
    to_service_config-panics null_flag default_namespace
      (record config { configs = flag_item ∷ [] }) refl

replace_accessor_instances_lem_example :
    ((url app : Text) (i : Instance)
      → In url (child ∷ [])
      → make_accessor_instance parse url ≡ some i
      → lookup (bytes "app") i.labels ≡ some app
      → text_eq app [] ≡ false
      → lookup hostname (
          get_cached_scoped_mapping
            (replace_accessor_instances parse hostname (child ∷ []) known)
            app)
        ≡ some tt)
    × ((app name : Text)
        → lookup name (get_cached_scoped_mapping known app) ≡ some tt
        → lookup name (
            get_cached_scoped_mapping
              (replace_accessor_instances parse hostname (child ∷ []) known)
              app)
          ≡ some tt)
replace_accessor_instances_lem_example =
    replace_accessor_instances_lem parse hostname (child ∷ []) known named_demo

delete_service_suffix_example :
    (lookup hostname (delete_service (bytes "Demo") known).services
      ≡ (if has_suffix hostname (bytes "Demo") then none else lookup hostname known.services))
    × ((s : Service)
        → lookup hostname known.services ≡ some s
        → has_suffix hostname (bytes "Demo") ≡ true
        → In (service_event service_deleted s []) (delete_service (bytes "Demo") known).service_out)
delete_service_suffix_example = delete_service_suffix (bytes "Demo") hostname known

instances_by_host-replaced_example :
    instances_by_host
      (bytes "10.0.0.1:20880" ∷ [])
      (replaced_all parse ((hostname, child ∷ []) ∷ []) new)
    ≡ []
instances_by_host-replaced_example =
    instances_by_host-replaced parse ((hostname, child ∷ []) ∷ []) (bytes "10.0.0.1:20880" ∷ [])

abbrev accessors_handler : KubeHandler (List ServiceAccessor)
accessors_handler = record {
  configured_services = blank_store;
  service_configs = blank_store;
  accessors = object_store (λ o. o.meta);
  retry = keep_retry;
  deep_equal = λ a b. false;
  unmarshal = no_flags;
}

abbrev web_uses : ScopedServices
web_uses scope = (hostname, tt) ∷ []

abbrev web : Instance
web = record {
  service = some hostname;
  host = bytes "10.0.0.2";
  port = none;
  labels = (bytes "app", bytes "web") ∷ [];
}

abbrev web_consumes : ServiceEvent
web_consumes = record {
  event_type = service_instances_replace;
  service = some demo;
  event_instance = none;
  instances = (child, web) ∷ [];
}

replace_accessors_lem_example :
    ((Handler.replace_accessor_instances accessors_handler web_consumes web_uses []).0 ≡ done tt)
    × ((url app : Text) (i : Instance)
        → In (url, i) web_consumes.instances
        → lookup (bytes "app") i.labels ≡ some app
        → (sa : ServiceAccessor) × (scope : Text) × ((object_store
                (λ (o : ServiceAccessor). o.meta)).get
              default_namespace
              (format_to_dns1123 app)
              (Handler.replace_accessor_instances accessors_handler web_consumes web_uses []).1
            ≡ ok sa)
          × (format_to_dns1123 scope ≡ format_to_dns1123 app)
          × ((host : Text)
              → In host sa.spec.access_hosts ↔ (lookup host (web_uses scope) ≡ some tt)))
replace_accessors_lem_example =
    replace_accessors_lem accessors_handler web_uses (object_store-Tracks (λ o. o.meta))
      (λ a b same. cc same) (object_store-Answers (λ o. o.meta)) web_consumes []
