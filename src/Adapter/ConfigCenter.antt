-- ===== src/Adapter/ConfigCenter.antt =====
-- pkg/adapter/configcenter/zk/client.go: the configurations that the configuration center holds.
pub mod Entries
use meshach.Prelude.{
  Bool, true, false, Option, none, some, List, [], ◌∷◌, ◌++◌, Text, Dict, lookup, insert, delete,
}
use meshach.Utils.Addresses.{resolve_service_name}
use meshach.Adapter.Types.{
  ConfiguratorConfig, ConfigEventType, config_entry_added, config_entry_changed,
  config_entry_deleted, ConfigEvent,
}
use meshach.Adapter.Zookeeper.{
  PathCacheEventType, added, deleted, changed, children_replaced, PathCacheEvent,
}

-- `out` are the events that wait in goroutines of their own, in no order that matters.
pub record ConfigClient : Type 0 where
  pub out : List ConfigEvent
  pub config_entries : Dict ConfiguratorConfig
  pub root_cached : Dict Bool

-- getData gives the data of a node, empty on an error; `unmarshal` is yaml.Unmarshal, `none` an error.
pub record Source : Type 0 where
  pub get_data : Text → Text
  pub unmarshal : Text → Option ConfiguratorConfig

config_event : ConfigEventType → Text → Option ConfiguratorConfig → ConfigEvent
config_event type path entry = record { event_type = type; path = path; config_entry = entry }

read_entry : ConfigEventType → Text → Option ConfiguratorConfig → ConfigClient → ConfigClient
unfolding config_event insert
read_entry type path none cc = cc
read_entry type path (some config) cc = record cc {
  config_entries = insert config.key config cc.config_entries;
  out = cc.out ++ config_event type path (some config) ∷ [];
}

entry_deleted : Text → ConfigClient → ConfigClient
unfolding config_event insert delete resolve_service_name
entry_deleted path cc = record cc {
  root_cached = insert path false cc.root_cached;
  config_entries = delete (resolve_service_name path) cc.config_entries;
  out = cc.out ++ config_event config_entry_deleted path none ∷ [];
}

on_type : Source → PathCacheEventType → Text → ConfigClient → ConfigClient
unfolding read_entry entry_deleted
on_type source added path =
    read_entry config_entry_added path (source.unmarshal (source.get_data path))
on_type source changed path =
    read_entry config_entry_changed path (source.unmarshal (source.get_data path))
on_type source deleted path = entry_deleted path
on_type source children_replaced path = λ cc. cc

-- One round of `eventLoop`
unfoldable pub on_path_event : Source → PathCacheEvent → ConfigClient → ConfigClient
unfolding on_type
on_path_event source event = on_type source event.event_type event.path

unfoldable pub find_configurator_config : Text → ConfigClient → Option ConfiguratorConfig
unfolding lookup
find_configurator_config service_name cc = lookup service_name cc.config_entries
