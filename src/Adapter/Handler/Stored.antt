-- ===== src/Adapter/Handler/Stored.antt =====
-- What the events of services and configurations leave in a cluster that answers and accepts writes.
use meshach.Prelude.{
  ◌≡◌, refl, second, true, false, ◌&&◌, if◌then◌else◌, some, [], ◌∷◌, arith, pos, Text, text_eq,
  text_eq_refl, to_lower, replace_byte, ◌==◌, ℕ, length, In, ◌↔◌,
}
use meshach.Api.{ConfiguredService, ServiceConfig, InstanceConfig}
use meshach.Utils.{format_to_dns1123}
use meshach.Client.{Result, ok, err, not_found}
use meshach.Client.Actions.{done}
use meshach.Adapter.Types.{Service, ServiceEvent, ConfigEvent, ConfiguratorConfig}
use meshach.Adapter.Convert.{to_instances, to_configured_service, find_flag_config}
use meshach.Adapter.Convert.Flags.{NilFlag}
use meshach.Adapter.Convert.Configs.{Configured, all_addressed, to_service_config_lem}
use meshach.Adapter.Handler.{
  KubeHandler, default_namespace, never, service_spec, config_spec, replace_instances,
  named_service, delete_service, change_config_entry,
}
use meshach.Adapter.Handler.Puts.{Tracks, Answers, kept_object, put_lem}

-- A DNS name is its own DNS name.
format_byte : (b : ℕ) → format_to_dns1123 (format_to_dns1123 (b ∷ [])) ≡ format_to_dns1123 (b ∷ [])
unfolding format_to_dns1123 to_lower replace_byte
format_byte b = ground arith

pub format_twice : (s : Text) → format_to_dns1123 (format_to_dns1123 s) ≡ format_to_dns1123 s
unfolding format_to_dns1123 to_lower replace_byte
format_twice [] = refl
format_twice (b ∷ s) = cc (format_byte b, format_twice s)

module _ {S : Type 0} (h : KubeHandler S) where
  service_spec-kept_object :
      (cs : ConfiguredService) (r : Result ConfiguredService)
      → (kept_object h.configured_services (λ o. o.meta) h.retry never service_spec cs r).spec
        ≡ cs.spec
  service_spec-kept_object cs (ok found) = refl
  service_spec-kept_object cs (err e) = refl

  abbrev converted : ServiceEvent → Service → ConfiguredService
  converted event service = record {
    meta = record {
      name = format_to_dns1123 service.name;
      namespace = default_namespace;
      labels = [];
      finalizers = [];
    };
    spec = record {
      original_name = service.name;
      instances = to_instances event.instances;
      mesh_config_generation = pos 0;
    };
  }

  -- ReplaceInstances stores a ConfiguredService under the DNS name of the event's service, with the
  -- name and the converted instances of the event, whether there was one before or not; all other
  -- ConfiguredServices stay. Get must answer, and the writes be accepted.
  pub replace_instances_lem :
      Tracks h.configured_services (λ o. o.meta) h.retry
      → (event : ServiceEvent) (service : Service) (s : S) → event.service ≡ some service
      → Answers (h.configured_services.get default_namespace (format_to_dns1123 service.name) s)
      → (cs : ConfiguredService) × ((replace_instances h event s).0 ≡ done tt)
        × (cs.spec ≡ record {
          original_name = service.name;
          instances = to_instances event.instances;
          mesh_config_generation = pos 0;
        })
        × ((ns n : Text)
            → h.configured_services.get ns n (replace_instances h event s).1 ≡ (
                if text_eq default_namespace ns && text_eq (format_to_dns1123 service.name) n
                then ok cs
                else h.configured_services.get ns n s))
  unfolding replace_instances to_configured_service
  replace_instances_lem tracks event service s e a =
      let cs = converted event service in
      let stored =
        put_lem h.configured_services (λ o. o.meta) h.retry never service_spec tracks
          (λ o found. refl) default_namespace (format_to_dns1123 service.name) cs s a
          (rw (text_eq_refl default_namespace, text_eq_refl (format_to_dns1123 service.name))
            refl) in
      (
        kept_object h.configured_services (λ o. o.meta) h.retry never service_spec cs
            (h.configured_services.get default_namespace (format_to_dns1123 service.name) s),
        rw e,
        service_spec-kept_object cs _,
        rw e stored.1,
      )

  -- DeleteService leaves no ConfiguredService under the DNS name of the event's service, and all others as
  -- they were.
  pub delete_service_lem :
      Tracks h.configured_services (λ o. o.meta) h.retry
      → (event : ServiceEvent) (service : Service) (s : S) → event.service ≡ some service
      → ((delete_service h event s).0 ≡ done tt)
        × ((ns n : Text)
            → h.configured_services.get ns n (delete_service h event s).1 ≡ (
                if text_eq default_namespace ns && text_eq (format_to_dns1123 service.name) n
                then err not_found
                else h.configured_services.get ns n s))
  unfolding delete_service
  delete_service_lem tracks event service s e =
      let o = named_service h service.name in
      let call = h.configured_services.delete o in
      let same = tracks.no_retry call s _ (second (call s) (tracks.deletes o s)) in
      rw (e, same) (refl, λ ns n. unfold named_service in tracks.get_deleted o s ns n)

  config_spec-kept_object :
      (sc : ServiceConfig) (r : Result ServiceConfig)
      → (kept_object h.service_configs (λ o. o.meta) h.retry never config_spec sc r).spec ≡ sc.spec
  config_spec-kept_object sc (ok found) = refl
  config_spec-kept_object sc (err e) = refl

  -- For a configuration with a key, whose enabled items have addresses and whose flags, where they are
  -- read, have no null, ChangeConfigEntry stores a ServiceConfig under the DNS name of the key, with an
  -- instance config for every enabled item for providers whose first address is a host, and for nothing
  -- else; all other ServiceConfigs stay. The cluster answers Get and accepts writes.
  pub change_config_entry_lem :
      Tracks h.service_configs (λ o. o.meta) h.retry
      → (e : ConfigEvent) (cfg : ConfiguratorConfig) (s : S) → e.config_entry ≡ some cfg
      → (length cfg.key == 0) ≡ false
      → all_addressed cfg.configs ≡ true
      → (NilFlag h.unmarshal (find_flag_config cfg.configs) → ⊥)
      → Answers (h.service_configs.get default_namespace (format_to_dns1123 cfg.key) s)
      → (sc : ServiceConfig) × ((change_config_entry h e s).0 ≡ done tt)
        × ((x : InstanceConfig) → In x sc.spec.instances ↔ Configured cfg.configs x)
        × ((ns n : Text)
            → h.service_configs.get ns n (change_config_entry h e s).1 ≡ (
                if text_eq default_namespace ns && text_eq (format_to_dns1123 cfg.key) n
                then ok sc
                else h.service_configs.get ns n s))
  unfolding change_config_entry
  change_config_entry_lem tracks e cfg s entry key all flagged a =
      let (sc, built, name, namespace, listed) =
        to_service_config_lem h.unmarshal default_namespace cfg key all flagged in
      let own : format_to_dns1123 sc.meta.name ≡ format_to_dns1123 cfg.key =
        rw name (format_twice cfg.key) in
      let stored =
        put_lem h.service_configs (λ o. o.meta) h.retry never config_spec tracks (λ o found. refl)
          default_namespace (format_to_dns1123 cfg.key) sc s a
          (rw
            (
              name,
              namespace,
              text_eq_refl default_namespace,
              text_eq_refl (format_to_dns1123 cfg.key),
            )
            refl) in
      (
        kept_object h.service_configs (λ o. o.meta) h.retry never config_spec sc
            (h.service_configs.get default_namespace (format_to_dns1123 cfg.key) s),
        rw (entry, built),
        λ x. rw (config_spec-kept_object sc _) (listed x),
        rw (entry, built, own) stored.1,
      )
