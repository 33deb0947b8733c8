-- ===== src/Control/Sample.antt =====
-- A small configuration of the parental controls, for tests.
use home_guard.Prelude.{
  ℕ, ◌≡◌, refl, true, Option, none, some, List, [], ◌∷◌, map, length, nat_eq, list_eq, pair_eq,
  ◌==◌, if◌then◌else◌,
}
use home_guard.Prelude.Text.{
  Text, bytes, to_lowercase, lower_byte, split_on, join, trim_end, is_space, trim_start, trim,
}
use home_guard.Prelude.Net.{IpAddr, v4, ip_eq}
use home_guard.Prelude.Map
use home_guard.Control.Blocklist
use home_guard.Control.Blocklist.{BlocklistManager, is_in_category, load_file, matches_suffix}
use home_guard.Control.Blocklist.Loading.{entries}
use home_guard.Control.Device.{
  DeviceConfig, child, register, from_config, get_device_by_ip, get_device_id_by_ip,
}
use home_guard.Control.Grant.{
  GrantRecord, GrantStore, has_active, keep_later, collect, refresh, run_refreshes,
}
use home_guard.Control.Controller
use home_guard.Control.Controller.{
  ParentalController, allow_all, block_all, is_allowed, is_blocked, is_granted, clean, id_or_empty,
  check_access, allow, block,
}

unfoldable pub program : Unit {0}
unfolding to_lowercase lower_byte split_on join trim_end Map.lookup Map.insert Blocklist.contains
    Blocklist.insert_under is_space trim_start trim Blocklist.parse_line Blocklist.add_entry
    Blocklist.load_lines load_file Blocklist.any_parent matches_suffix Blocklist.is_blocked_globally
    is_in_category Blocklist.is_in_any_category Blocklist.new register from_config get_device_by_ip
    get_device_id_by_ip keep_later collect refresh run_refreshes has_active is_allowed is_blocked
    is_granted clean Controller.new Controller.join_comma Controller.apply_default_policy
    Controller.check_grantable Controller.check_hard Controller.check_device check_access entries
program = tt

abbrev pub games : Text
games = bytes "games"

abbrev pub porn : Text
porn = bytes "porn"

abbrev pub lines : List Text
lines = bytes "# games" ∷ bytes "  *.Roblox.com " ∷ bytes "minecraft.net" ∷ []

abbrev pub blocklists : BlocklistManager
blocklists =
    (load_file (some porn) (some (some (bytes ".bad.xxx") ∷ []))
      (load_file (some games) (some (map some lines)) Blocklist.new).0).0

abbrev pub parse_ip : Text → Option IpAddr
parse_ip s = if s == bytes "10.0.0.5" then some (v4 5) else none

abbrev pub ipad : DeviceConfig
ipad = record {
  ip = some (bytes "10.0.0.5");
  mac = none;
  name = bytes "iPad";
  device_type = child;
  hard_blocklists = porn ∷ [];
  grantable_blocklists = games ∷ [];
  extra_blocklists = [];
}

abbrev pub configs : List (Text × DeviceConfig)
configs = (bytes "ipad", ipad) ∷ []

-- A timestamp is the length of its text.
abbrev pub parse_time : Text → Option ℕ
parse_time [] = none
parse_time (x ∷ s) = some (length (x ∷ s))

abbrev pub row : GrantRecord
row = record {
  id = 1;
  device_id = bytes "ipad";
  category = games;
  granted_at = bytes "";
  expires_at = bytes "1234567890";
  revoked_at = none;
  note = none;
}

abbrev pub cold : GrantStore
cold = record { active = [] }

abbrev pub controller : ParentalController
controller =
    Controller.new (from_config parse_ip configs) blocklists
      (some (refresh parse_time (some (row ∷ [])) cold).0) [] block_all

pub known : get_device_by_ip (v4 5) controller.device_manager ≡ some ipad
unfolding program
known = refl

pub named : get_device_id_by_ip (v4 5) controller.device_manager ≡ some (bytes "ipad")
unfolding program
named = refl

pub bad_is_hard :
    is_in_category (clean (bytes "a.bad.xxx")) porn controller.blocklist_manager ≡ true
unfolding program
bad_is_hard = refl
