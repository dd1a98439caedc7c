-- ===== src/Adapter/Handler.antt =====
-- pkg/adapter/handler: the handler that writes the events of the registry and of the configuration center
-- into one Kubernetes cluster, and the one that hands them to several. The lock around each write only
-- serialises writers of this process. Errors of the API server are logged and dropped.
pub mod Puts
pub mod Stored
pub mod Accessed
use meshach.Prelude.{
  Bool, true, false, Option, none, some, List, [], ◌∷◌, map, leb, ltb, ◌==◌, ◌&&◌, ◌||◌,
  if◌then◌else◌, pos, Text, Dict, bytes, text_eq, lookup, insert,
}
use meshach.Api.{ObjectMeta, ConfiguredService, ServiceConfig, ServiceAccessor, ServiceAccessorSpec}
use meshach.Utils.{format_to_dns1123}
use meshach.Utils.Addresses.{resolve_service_name}
use meshach.Client.{
  Error, not_found, already_exists, conflict, other, Result, ok, err, Call, Store, Retry,
}
use meshach.Client.Actions.{Outcome, done, fail, panic, Action, pure, deref, try, ◌>>=◌, ◌>>◌}
use meshach.Adapter.Types.{Instance, Service, ServiceEvent, ConfigEvent}
use meshach.Adapter.Convert.{Unmarshal, to_configured_service, to_service_config}

module _ {S O : Type 0} (store : Store S O) (retry : Retry S) (unchanged : O → O → Bool)
    (with_spec : O → O → O) where
  put_found : O → Result O → Call S Unit
  put_found o (err not_found) s = store.create o s
  put_found o (err e) s = (err e, s)
  put_found o (ok found) s =
      if unchanged found o then (ok tt, s) else store.update (with_spec o found) s

  -- The closure that the handlers retry: creates the object, or updates the one of that name.
  unfoldable pub put_once : Text → Text → O → Call S Unit
  unfolding put_found
  put_once namespace name o s = put_found o (store.get namespace name s) s

  unfoldable pub put : Text → Text → O → Call S Unit
  unfolding put_once
  put namespace name o = retry (put_once namespace name o)

pub record KubeHandler (S : Type 0) : Type 0 where
  pub configured_services : Store S ConfiguredService
  pub service_configs : Store S ServiceConfig
  pub accessors : Store S ServiceAccessor
  pub retry : Retry S
  -- equality.Semantic.DeepEqual
  pub deep_equal : ServiceAccessorSpec → ServiceAccessorSpec → Bool
  pub unmarshal : Unmarshal

abbrev pub default_namespace : Text
default_namespace = bytes "sym-admin"

-- `a < b` on strings
unfoldable pub before : Text → Text → Bool
before s [] = false
before [] (b ∷ t) = true
before (a ∷ s) (b ∷ t) = ltb a b || (a == b && before s t)

insert_sorted : Text → List Text → List Text
unfolding before
insert_sorted x [] = x ∷ []
insert_sorted x (y ∷ ys) =
    let rest = insert_sorted x ys in if before y x then y ∷ rest else x ∷ y ∷ ys

-- sort.Strings
unfoldable pub sort_strings : List Text → List Text
unfolding insert_sorted
sort_strings [] = []
sort_strings (x ∷ xs) = insert_sorted x (sort_strings xs)

unfoldable pub keys : {V : Type 0} → Dict V → List Text
keys [] = []
keys ((k, v) ∷ m) = k ∷ keys m

add_scope : Option Text → Dict Unit → Dict Unit
unfolding insert
add_scope none scopes = scopes
add_scope (some sk) scopes = insert sk tt scopes

-- `changedScopes`: the values of the label `app` of the instances
unfoldable pub changed_scopes : Dict Instance → Dict Unit → Dict Unit
unfolding add_scope lookup
changed_scopes [] scopes = scopes
changed_scopes ((url, ins) ∷ rest) scopes =
    changed_scopes rest (add_scope (lookup (bytes "app") ins.labels) scopes)

-- GetCachedScopedMapping of the registry client
abbrev pub ScopedServices : Type 0
ScopedServices = Text → Dict Unit

unfoldable pub scoped_accessor : ScopedServices → Text → ServiceAccessor
unfolding format_to_dns1123 sort_strings keys
scoped_accessor get_scoped_services scope = record {
  meta = record {
    name = format_to_dns1123 scope;
    namespace = default_namespace;
    labels = [];
    finalizers = [];
  };
  spec = record {
    access_hosts = sort_strings (keys (get_scoped_services scope));
    mesh_config_generation = pos 0;
  };
}

abbrev pub never : {O : Type 0} → O → O → Bool
never found o = false

abbrev pub service_spec : ConfiguredService → ConfiguredService → ConfiguredService
service_spec cs found = record found { spec = cs.spec }

abbrev pub config_spec : ServiceConfig → ServiceConfig → ServiceConfig
config_spec sc found = record found { spec = sc.spec }

abbrev pub accessor_spec : ServiceAccessor → ServiceAccessor → ServiceAccessor
accessor_spec sas found = record found { spec = sas.spec }

module _ {S : Type 0} (h : KubeHandler S) where
  -- The conversion stands before the retry: each try would convert the event anew, to the same object.
  unfoldable pub replace_instances : ServiceEvent → Action S Unit
  unfolding put to_configured_service
  replace_instances event = do
    cs ← deref (to_configured_service default_namespace event)
    tried ←
        try (put h.configured_services h.retry never service_spec cs.meta.namespace cs.meta.name cs)
    pure tt

  named_service : Text → ConfiguredService
  unfolding format_to_dns1123
  named_service name = record {
    meta = record {
      name = format_to_dns1123 name;
      namespace = default_namespace;
      labels = [];
      finalizers = [];
    };
    spec = record { original_name = []; instances = []; mesh_config_generation = pos 0 };
  }

  unfoldable pub delete_service : ServiceEvent → Action S Unit
  unfolding named_service
  delete_service event = do
    service ← deref event.service
    tried ← try (h.retry (h.configured_services.delete (named_service service.name)))
    pure tt

  unfoldable pub put_accessor : ServiceAccessor → Call S Unit
  unfolding put
  put_accessor sas =
      put h.accessors h.retry (λ found o. h.deep_equal found.spec o.spec) accessor_spec
        sas.meta.namespace sas.meta.name sas

  unfoldable pub replace_scopes : ScopedServices → Dict Unit → S → S
  unfolding put_accessor scoped_accessor
  replace_scopes get_scoped_services [] s = s
  replace_scopes get_scoped_services ((scope, u) ∷ rest) s =
      replace_scopes get_scoped_services rest
        (put_accessor (scoped_accessor get_scoped_services scope) s).1

  unfoldable pub replace_accessor_instances : ServiceEvent → ScopedServices → Action S Unit
  unfolding replace_scopes changed_scopes
  replace_accessor_instances e get_scoped_services s =
      (done tt, replace_scopes get_scoped_services (changed_scopes e.instances []) s)

  -- A nil ServiceConfig is an error of the closure, which is not retried.
  change_converted : Option ServiceConfig → Action S Unit
  unfolding put format_to_dns1123
  change_converted none = pure tt
  change_converted (some sc) = do
    tried ← try (
        put h.service_configs h.retry never config_spec default_namespace
          (format_to_dns1123 sc.meta.name) sc)
    pure tt

  unfoldable pub change_config_entry : ConfigEvent → Action S Unit
  unfolding change_converted to_service_config
  change_config_entry e = do
    sc ← deref (to_service_config h.unmarshal default_namespace e.config_entry)
    change_converted sc

  unfoldable pub add_config_entry : ConfigEvent → Action S Unit
  unfolding change_config_entry
  add_config_entry e = change_config_entry e

  delete_found : Result ServiceConfig → Call S Unit
  delete_found (err e) s = (err e, s)
  delete_found (ok sc) s = h.service_configs.delete sc s

  delete_once : Text → Call S Unit
  unfolding delete_found
  delete_once name s = delete_found (h.service_configs.get default_namespace name s) s

  unfoldable pub delete_config_entry : ConfigEvent → Action S Unit
  unfolding delete_once format_to_dns1123 resolve_service_name
  delete_config_entry e = do
    tried ← try (h.retry (delete_once (format_to_dns1123 (resolve_service_name e.path))))
    pure tt

  -- AddService, AddInstance and DeleteInstance only log.
  unfoldable pub no_operation : ServiceEvent → Action S Unit
  no_operation event = pure tt

-- KubeMultiClusterEventHandler: one goroutine for each cluster, each on the state of its own cluster, and
-- a wait for all.
unfoldable pub on_every_cluster :
    {S : Type 0}
    → (KubeHandler S → Action S Unit)
    → List (KubeHandler S × S)
    → List (Outcome Unit × S)
on_every_cluster handle [] = []
on_every_cluster handle ((h, s) ∷ clusters) = handle h s ∷ on_every_cluster handle clusters
