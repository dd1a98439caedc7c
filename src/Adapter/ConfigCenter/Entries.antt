-- ===== src/Adapter/ConfigCenter/Entries.antt =====
-- What the configuration center finds after its events.
use meshach.Prelude.{
  ◌≡◌, refl, ◌∙◌, none, some, if◌then◌else◌, Text, text_eq, insert, lookup-insert_self,
  lookup-delete,
}
use meshach.Utils.Addresses.{resolve_service_name}
use meshach.Adapter.Types.{ConfiguratorConfig}
use meshach.Adapter.Zookeeper.{added, deleted, notice_of}
use meshach.Adapter.ConfigCenter.{
  Source, ConfigClient, on_type, read_entry, entry_deleted, on_path_event, find_configurator_config,
}

-- Once the node of a configuration is added, the configuration is found by its key. When the node is
-- deleted it is gone if the node is named after the key; under any other key it is still found.
pub find-added-deleted :
    (source : Source) (path : Text) (config : ConfiguratorConfig) (cc : ConfigClient)
    → source.unmarshal (source.get_data path) ≡ some config
    → let cc' = on_path_event source (notice_of added path) cc in
      (find_configurator_config config.key cc' ≡ some config)
      × (find_configurator_config config.key (on_path_event source (notice_of deleted path) cc')
          ≡ (if text_eq (resolve_service_name path) config.key then none else some config))
unfolding on_path_event on_type read_entry entry_deleted find_configurator_config
find-added-deleted source path config cc e = rw e (
  lookup-insert_self config.key config cc.config_entries,
  lookup-delete (resolve_service_name path) config.key (insert config.key config cc.config_entries)
      ∙ rw (lookup-insert_self config.key config cc.config_entries) refl,
)
