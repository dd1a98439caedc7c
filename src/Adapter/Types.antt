-- ===== src/Adapter/Types.antt =====
-- pkg/adapter/types/types.go: what the registry and the configuration center hand to the handlers.
use meshach.Prelude.{
  Bool, ◌&&◌, Option, List, [], ◌∷◌, ◌++◌, any, if◌then◌else◌, ℤ, Text, Dict, text_eq,
}
use meshach.Utils.{parse_int, half64, or_zero}

pub record Port : Type 0 where
  pub protocol : Text
  pub port : Text

-- `service` is the name of the service that the pointer leads to.
pub record Instance : Type 0 where
  pub service : Option Text
  pub host : Text
  pub port : Option Port
  pub labels : Dict Text

pub record Service : Type 0 where
  pub name : Text
  pub ports : List Port
  pub instances : Dict Instance

pub data ServiceEventType : Type 0 where
  service_added service_deleted : ServiceEventType
  service_instance_added service_instance_deleted service_instances_replace : ServiceEventType

-- A pointer to a service is the service as it is when the event is made: of it the handlers only
-- read the name, which does not change.
pub record ServiceEvent : Type 0 where
  pub event_type : ServiceEventType
  pub service : Option Service
  pub event_instance : Option Instance
  pub instances : Dict Instance

pub data ConfigEventType : Type 0 where
  config_entry_added config_entry_deleted config_entry_changed : ConfigEventType

pub record ConfigItem : Type 0 where
  pub enabled : Bool
  pub addresses : List Text
  pub parameters : Dict Text
  pub side : Text

pub record ConfiguratorConfig : Type 0 where
  pub key : Text
  pub enabled : Bool
  pub configs : List ConfigItem

pub record ConfigEvent : Type 0 where
  pub event_type : ConfigEventType
  pub path : Text
  pub config_entry : Option ConfiguratorConfig

-- strconv.Atoi reads a number of 64 bits.
unfoldable pub portoi : Port → ℤ
portoi p = or_zero (parse_int half64 p.port)

unfoldable pub same_port : Port → Port → Bool
unfolding text_eq
same_port port p = text_eq p.port port.port && text_eq p.protocol port.protocol

unfoldable pub add_port : Port → Service → Service
unfolding same_port any
add_port port s =
    if any (same_port port) s.ports then s else record s { ports = s.ports ++ port ∷ [] }
