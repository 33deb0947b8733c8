-- ===== src/Control/Device.antt =====
-- src/control/device.rs and the device types of src/config/types.rs: devices by address. A hash map
-- is the list of its entries in the order in which it is iterated; the standard library's parser of
-- addresses is an argument.
pub mod Identity
use home_guard.Prelude.{
  Bool, true, false, Option, none, some, List, [], ◌∷◌, ◌==◌, nat_eq, list_eq, ◌>>=◌,
}
use home_guard.Prelude.Map.{lookup, insert}
use home_guard.Prelude.Text.{Text}
use home_guard.Prelude.Net.{IpAddr, ip_eq}

pub data DeviceType : Type 0 where
  child : DeviceType
  adult : DeviceType
  iot : DeviceType
  unknown : DeviceType

pub record DeviceConfig : Type 0 where
  pub ip : Option Text
  pub mac : Option Text
  pub name : Text
  pub device_type : DeviceType
  pub hard_blocklists : List Text
  pub grantable_blocklists : List Text
  pub extra_blocklists : List Text

pub record DeviceManager : Type 0 where
  pub devices : List (Text × DeviceConfig)
  pub ip_to_device : List (IpAddr × Text)

-- The address of a device, where it has one that parses.
abbrev pub address_of : (Text → Option IpAddr) → DeviceConfig → Option IpAddr
address_of parse config = config.ip >>= parse

-- The loop of `from_config`.
unfoldable pub register :
    (Text → Option IpAddr)
    → List (Text × DeviceConfig)
    → List (IpAddr × Text)
    → List (IpAddr × Text)
register parse [] m = m
register parse ((id, config) ∷ devices) m = elim (address_of parse config) [
  | none ↦ register parse devices m
  | some ip ↦ register parse devices (insert ip id m)
]

unfoldable pub from_config : (Text → Option IpAddr) → List (Text × DeviceConfig) → DeviceManager
unfolding register
from_config parse ds = record { devices = ds; ip_to_device = register parse ds [] }

unfoldable pub get_device_id_by_ip : IpAddr → DeviceManager → Option Text
get_device_id_by_ip ip m = lookup ip m.ip_to_device

unfoldable pub get_device : Text → DeviceManager → Option DeviceConfig
get_device id m = lookup id m.devices

unfoldable pub get_device_by_ip : IpAddr → DeviceManager → Option DeviceConfig
get_device_by_ip ip m = lookup ip m.ip_to_device >>= λ id. lookup id m.devices

abbrev pub type_of : Option DeviceConfig → DeviceType
type_of none = unknown
type_of (some d) = d.device_type

unfoldable pub get_device_type : IpAddr → DeviceManager → DeviceType
unfolding get_device_by_ip
get_device_type ip m = type_of (get_device_by_ip ip m)

abbrev pub is_child : DeviceType → Bool
is_child child = true
is_child _ = false

abbrev pub is_adult : DeviceType → Bool
is_adult adult = true
is_adult _ = false

unfoldable pub is_child_device : IpAddr → DeviceManager → Bool
unfolding get_device_type
is_child_device ip m = is_child (get_device_type ip m)

unfoldable pub is_adult_device : IpAddr → DeviceManager → Bool
unfolding get_device_type
is_adult_device ip m = is_adult (get_device_type ip m)
