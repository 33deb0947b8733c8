-- ===== src/Control/Controller.antt =====
-- src/control/controller.rs: the decision whether a device may reach a domain.
pub mod Categories
pub mod Decisions
use home_guard.Prelude.{
  ℕ, Bool, true, false, not, ◌&&◌, Option, none, some, List, [], ◌∷◌, ◌++◌, if◌then◌else◌,
}
use home_guard.Prelude.Text.{Text, bytes, to_lowercase, trim_end}
use home_guard.Prelude.Net.{IpAddr}
use home_guard.Control.Blocklist.{
  BlocklistManager, is_blocked_globally, is_in_any_category, is_in_category,
}
use home_guard.Control.Device.{
  DeviceManager, DeviceConfig, get_device_by_ip, get_device_id_by_ip, is_adult,
}
use home_guard.Control.Grant.{GrantStore, has_active}

pub data ParentalPolicy : Type 0 where
  allow_all : ParentalPolicy
  block_if_listed : ParentalPolicy
  block_all : ParentalPolicy

pub data ParentalDecision : Type 0 where
  allow : ParentalDecision
  block : Text → ParentalDecision

unfoldable pub is_allowed : ParentalDecision → Bool
is_allowed allow = true
is_allowed (block reason) = false

unfoldable pub is_blocked : ParentalDecision → Bool
is_blocked allow = false
is_blocked (block reason) = true

unfoldable pub reason : ParentalDecision → Option Text
reason allow = none
reason (block r) = some r

pub record ParentalController : Type 0 where
  pub device_manager : DeviceManager
  pub blocklist_manager : BlocklistManager
  pub grant_store : Option GrantStore
  pub global_categories : List Text
  pub default_policy : ParentalPolicy
  pub log_blocked : Bool

unfoldable pub new :
    DeviceManager
    → BlocklistManager
    → Option GrantStore
    → List Text
    → ParentalPolicy
    → ParentalController
new devices blocklists grants categories policy = record {
  device_manager = devices;
  blocklist_manager = blocklists;
  grant_store = grants;
  global_categories = categories;
  default_policy = policy;
  log_blocked = true;
}

unfoldable pub set_global_categories : List Text → ParentalController → ParentalController
set_global_categories categories c = record c { global_categories = categories }

unfoldable pub set_default_policy : ParentalPolicy → ParentalController → ParentalController
set_default_policy policy c = record c { default_policy = policy }

-- `join(", ")`
unfoldable pub join_comma : List Text → Text
join_comma [] = []
join_comma (w ∷ []) = w
join_comma (w ∷ v ∷ ws) = w ++ bytes ", " ++ join_comma (v ∷ ws)

unfoldable pub apply_default_policy : ParentalPolicy → ParentalDecision
apply_default_policy allow_all = allow
apply_default_policy block_if_listed = allow
apply_default_policy block_all = block (bytes "Unknown device - blocked by default policy")

unfoldable pub is_granted : ℕ → Text → Text → Option GrantStore → Bool
unfolding has_active
is_granted now device_id category none = false
is_granted now device_id category (some s) = has_active now device_id category s

-- "6. Grantable blocklists"; "7. Default allow"
unfoldable pub check_grantable : ℕ → Text → Text → List Text → ParentalController → ParentalDecision
unfolding is_in_category is_granted
check_grantable now device_id domain [] c = allow
check_grantable now device_id domain (category ∷ categories) c =
    if is_in_category domain category c.blocklist_manager
    then (if is_granted now device_id category c.grant_store
        then allow
        else block (bytes "grantable:" ++ category))
    else check_grantable now device_id domain categories c

-- "5. Hard blocklists", before the grantable ones.
unfoldable pub check_hard :
    ℕ → Text → Text → List Text → DeviceConfig → ParentalController → ParentalDecision
unfolding is_in_category check_grantable
check_hard now device_id domain [] device c =
    check_grantable now device_id domain device.grantable_blocklists c
check_hard now device_id domain (category ∷ categories) device c =
    if is_in_category domain category c.blocklist_manager
    then block (bytes "hard:" ++ category)
    else check_hard now device_id domain categories device c

abbrev pub id_or_empty : Option Text → Text
id_or_empty none = []
id_or_empty (some id) = id

-- "3. Identify device" onwards.
unfoldable pub check_device : ℕ → IpAddr → Text → ParentalController → ParentalDecision
unfolding check_hard apply_default_policy get_device_by_ip get_device_id_by_ip
check_device now source_ip domain c = elim (get_device_by_ip source_ip c.device_manager) [
  | none ↦ apply_default_policy c.default_policy
  | some device ↦
      if is_adult device.device_type
      then allow
      else check_hard now (id_or_empty (get_device_id_by_ip source_ip c.device_manager)) domain
          device.hard_blocklists device c
]

abbrev pub is_empty_list : List Text → Bool
is_empty_list [] = true
is_empty_list (x ∷ xs) = false

-- `domain.trim_end_matches('.').to_lowercase()`
unfoldable pub clean : Text → Text
clean domain = to_lowercase (trim_end b'.' domain)

unfoldable pub check_access : ℕ → IpAddr → Text → ParentalController → ParentalDecision
unfolding check_device clean is_blocked_globally is_in_any_category join_comma
check_access now source_ip domain c =
    if is_blocked_globally (clean domain) c.blocklist_manager
    then block (bytes "Global blocklist")
    else if not (is_empty_list c.global_categories)
        && is_in_any_category (clean domain) c.global_categories c.blocklist_manager
    then block (bytes "Global category: " ++ join_comma c.global_categories)
    else check_device now source_ip (clean domain) c
