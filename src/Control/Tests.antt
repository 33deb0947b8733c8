-- ===== src/Control/Tests.antt =====
-- The parental controls on a small configuration: runs, and the theorems at inputs.
use home_guard.Prelude.{
  ◌≡◌, ◌↔◌, ◌⊎◌, refl, true, false, none, some, [], ◌∷◌, map, In, here, there, nat_eq, list_eq,
  pair_eq,
}
use home_guard.Prelude.Text.{Text, bytes, to_lowercase}
use home_guard.Prelude.Net.{v4, ip_eq}
use home_guard.Prelude.Map
use home_guard.Control.Blocklist
use home_guard.Control.Blocklist.{BlocklistManager, is_in_category, load_file, matches_suffix}
use home_guard.Control.Blocklist.Categories.{IsCoveredBy, is_in_category-load_file}
use home_guard.Control.Device.{
  DeviceConfig, address_of, from_config, get_device_by_ip, get_device_id_by_ip,
}
use home_guard.Control.Device.Identity.{IsMap, get_device_by_ip-from_config}
use home_guard.Control.Grant.{has_active, run_refreshes}
use home_guard.Control.Grant.Refresh.{HasRow, has_active-run_refreshes}
use home_guard.Control.Controller
use home_guard.Control.Controller.{
  ParentalController, allow_all, block_all, is_allowed, is_blocked, is_granted, clean, id_or_empty,
  check_access, allow, block,
}
use home_guard.Control.Controller.Categories.{FirstHit}
use home_guard.Control.Controller.Decisions.{
  Permits, check_access-allowed_iff, check_access-hard, check_access-refresh,
}
use home_guard.Control.Sample.{
  program, games, porn, lines, blocklists, parse_ip, ipad, configs, parse_time, row, cold,
  controller, known, named, bad_is_hard,
}

runs :
    (is_in_category (bytes "www.ROBLOX.com") games blocklists ≡ true)
    × (is_in_category (bytes "notroblox.com") games blocklists ≡ false)
    × (check_access 5 (v4 5) (bytes "Roblox.com.") controller ≡ allow)
    × (check_access 10 (v4 5) (bytes "minecraft.net") controller ≡ block (bytes "grantable:games"))
    × (check_access 5 (v4 5) (bytes "a.bad.xxx") controller ≡ block (bytes "hard:porn"))
    × (is_blocked (check_access 5 (v4 6) (bytes "a.b") controller) ≡ true)
unfolding program
runs = (refl, refl, refl, refl, refl, refl)

is_in_category-load_file_example :
    (is_in_category
        (bytes "x.roblox.com")
        games
        (load_file (some games) (some (map some lines)) blocklists).0
      ≡ true)
    ↔ ((is_in_category (bytes "x.roblox.com") games blocklists ≡ true)
        ⊎ ((games ≡ games) × IsCoveredBy (to_lowercase (bytes "x.roblox.com")) lines))
is_in_category-load_file_example =
    is_in_category-load_file (bytes "x.roblox.com") games games lines blocklists

configs-IsMap : IsMap configs
unfolding program
configs-IsMap id config (here e) = cc (found, e)
  where
    found : Map.lookup (bytes "ipad") configs ≡ some ipad
    found = refl
configs-IsMap id config (there i) = elim i [ ]

get_device_by_ip-from_config_example :
    ((id : Text) (config : DeviceConfig)
      → In (id, config) configs
      → address_of parse_ip config ≡ some (v4 5)
      → (found : DeviceConfig) × (get_device_by_ip (v4 5) (from_config parse_ip configs)
          ≡ some found))
    × ((found : DeviceConfig)
        → get_device_by_ip (v4 5) (from_config parse_ip configs) ≡ some found
        → (id : Text) × (get_device_id_by_ip (v4 5) (from_config parse_ip configs) ≡ some id)
          × (Map.lookup id configs ≡ some found)
          × (address_of parse_ip found ≡ some (v4 5)))
get_device_by_ip-from_config_example =
    get_device_by_ip-from_config parse_ip configs (v4 5) configs-IsMap

has_active-run_refreshes_example :
    (has_active 5
        (bytes "ipad")
        games
        (run_refreshes parse_time (none ∷ some (row ∷ []) ∷ none ∷ []) cold)
      ≡ true)
    ↔ HasRow parse_time 5 (bytes "ipad", games) (row ∷ [])
has_active-run_refreshes_example =
    has_active-run_refreshes parse_time 5 (bytes "ipad") games (none ∷ some (row ∷ []) ∷ none ∷ [])
      cold (row ∷ []) refl

game_is_free :
    (Blocklist.is_blocked_globally (clean (bytes "Roblox.com.")) controller.blocklist_manager
      ≡ false)
    × (Blocklist.is_in_any_category
          (clean (bytes "Roblox.com."))
          controller.global_categories
          controller.blocklist_manager
        ≡ false)
    × (is_in_category (clean (bytes "Roblox.com.")) porn controller.blocklist_manager ≡ false)
unfolding program
game_is_free = (refl, refl, refl)

game_hit : FirstHit (clean (bytes "Roblox.com.")) controller.blocklist_manager (games ∷ [])
unfolding program
game_hit = record {
  front = [];
  category = games;
  rest = [];
  split = refl;
  earlier = tt;
  hit = refl;
}

check_access-allowed_iff_example :
    (is_allowed (check_access 5 (v4 5) (bytes "Roblox.com.") controller) ≡ true) ↔ (
      (Blocklist.is_blocked_globally (clean (bytes "Roblox.com.")) controller.blocklist_manager
        ≡ false)
      × (Blocklist.is_in_any_category
            (clean (bytes "Roblox.com."))
            controller.global_categories
            controller.blocklist_manager
          ≡ false)
      × Permits 5
          (id_or_empty (get_device_id_by_ip (v4 5) controller.device_manager))
          (clean (bytes "Roblox.com."))
          (get_device_by_ip (v4 5) controller.device_manager)
          controller)
check_access-allowed_iff_example =
    check_access-allowed_iff 5 (v4 5) (bytes "Roblox.com.") controller

check_access-hard_example : is_blocked (check_access 5 (v4 5) (bytes "a.bad.xxx") controller) ≡ true
check_access-hard_example =
    check_access-hard 5 (v4 5) (bytes "a.bad.xxx") controller ipad porn known refl (here refl)
      bad_is_hard

check_access-refresh_example :
    (is_allowed (check_access 5 (v4 5) (bytes "Roblox.com.") controller) ≡ true)
    ↔ HasRow parse_time 5 (bytes "ipad", game_hit.category) (row ∷ [])
unfolding Controller.new
check_access-refresh_example =
    check_access-refresh parse_time 5 (v4 5) (bytes "Roblox.com.") controller ipad (bytes "ipad")
      (row ∷ []) cold known named refl game_is_free.0 game_is_free.1 refl (game_is_free.2, tt)
      game_hit
