-- ===== src/Outbound/Manager.antt =====
-- src/outbound/manager.rs and `ProxyGroup` of src/outbound/group/mod.rs: the outbounds that a
-- configuration makes. An outbound is shared, so the maps hold handles, of which the argument
-- `handle` makes the trait object; the groups themselves are in an arena, which a handle indexes.
pub mod Clients
pub mod Members
pub mod Soundness
pub mod Groups
mod Tests
use home_guard.Prelude.{
  ℕ, zero, suc, ◌*◌, Bool, true, false, Option, none, some, List, [], ◌∷◌, ◌++◌, if◌then◌else◌,
  ◌==◌, nat_eq, list_eq, length, get_elem?, set, ◌>>=◌,
}
use mathlib.Core.Option.{get_or}
use home_guard.Prelude.Map.{lookup, insert}
use home_guard.Prelude.Net.{IpAddr}
use home_guard.Prelude.Text.{Text, bytes}
use home_guard.Crates.Ring.{Ring}
use home_guard.Config.{
  ShadowsocksConfig, ProxyGroupConfig, ProxyGroupType, ProxyConfig, select, url_test, fallback,
}
use home_guard.Rule.Types.{Policy, direct, reject, proxy}
use home_guard.Outbound.Group.{Outbound}
use home_guard.Outbound.Group.Select
use home_guard.Outbound.Group.Select.{SelectGroup}
use home_guard.Outbound.Group.UrlTest
use home_guard.Outbound.Group.UrlTest.{UrlTestGroup}
use home_guard.Outbound.Group.Fallback
use home_guard.Outbound.Group.Fallback.{FallbackGroup}
use home_guard.Outbound.Shadowsocks.Client
use home_guard.Outbound.Shadowsocks.Client.{ShadowsocksClient}

abbrev pub default_test_url : Text
default_test_url = bytes "http://www.gstatic.com/generate_204"

-- Five minutes, in seconds.
abbrev pub default_test_interval : ℕ
default_test_interval = 300

-- What a shared pointer to an outbound points to.
pub data Handle : Type 0 where
  the_direct the_reject : Handle
  client : Text → Handle
  group : ℕ → Handle

module _ (R : Ring) (O : Outbound) (handle : Handle → O.Proxy) where
  pub data ProxyGroup : Type 0 where
    select_group : SelectGroup O → ProxyGroup
    url_test_group : UrlTestGroup O → ProxyGroup
    fallback_group : FallbackGroup O → ProxyGroup

  -- The proxies of a group.
  abbrev pub members : ProxyGroup → List O.Proxy
  members (select_group g) = g.proxies
  members (url_test_group g) = g.proxies
  members (fallback_group g) = g.proxies

  pub record OutboundManager : Type 0 where
    pub shadowsocks : List (Text × ShadowsocksClient R)
    pub arena : List ProxyGroup
    pub groups : List (Text × ℕ)
    pub all_outbounds : List (Text × O.Proxy)

  -- "Create Shadowsocks clients": a client that cannot be made is left out.
  unfoldable pub create_clients :
      (Text → ℕ → Option (IpAddr × ℕ))
      → List ShadowsocksConfig
      → List (Text × ShadowsocksClient R)
      → Option (List (Text × ShadowsocksClient R))
  unfolding Client.from_config
  create_clients parse [] m = some m
  create_clients parse (ss ∷ rest) m = Client.from_config R parse ss >>= λ made. elim made [
    | none ↦ create_clients parse rest m
    | some c ↦ create_clients parse rest (insert ss.name c m)
  ]

  unfoldable pub add_clients :
      List (Text × ShadowsocksClient R) → List (Text × O.Proxy) → List (Text × O.Proxy)
  add_clients [] m = m
  add_clients ((name, c) ∷ rest) m = add_clients rest (insert name (handle (client name)) m)

  -- "Build all outbounds map (for group creation)"
  unfoldable pub base_outbounds : List (Text × ShadowsocksClient R) → List (Text × O.Proxy)
  unfolding add_clients
  base_outbounds clients =
      add_clients clients (
        insert (bytes "REJECT") (handle the_reject)
          (insert (bytes "DIRECT") (handle the_direct) []))

  -- "Collect proxies"
  unfoldable pub collect_proxies : List Text → List (Text × O.Proxy) → List O.Proxy
  collect_proxies [] outbounds = []
  collect_proxies (name ∷ rest) outbounds = elim (lookup name outbounds) [
    | none ↦ collect_proxies rest outbounds
    | some p ↦ p ∷ collect_proxies rest outbounds
  ]

  -- The group of a type. The intervals of a latency test are nanoseconds.
  unfoldable pub make_group : ProxyGroupType → Text → List O.Proxy → Text → ℕ → ProxyGroup
  unfolding Select.new UrlTest.new Fallback.new
  make_group select name ps url interval = select_group (Select.new O name ps)
  make_group url_test name ps url interval =
      url_test_group (UrlTest.new O name ps url (interval * 1_000_000_000))
  make_group fallback name ps url interval = fallback_group (Fallback.new O name ps url interval)

  unfoldable pub create_group : ProxyGroupConfig → List (Text × O.Proxy) → Option ProxyGroup
  unfolding collect_proxies make_group
  create_group config outbounds = elim (collect_proxies config.proxies outbounds) [
    | [] ↦ none
    | p ∷ ps ↦ some (
        make_group config.group_type config.name (p ∷ ps) (get_or config.url default_test_url)
          (get_or config.interval default_test_interval))
  ]

  -- The manager with one more group, which later groups may refer to.
  abbrev pub add_group : Text → ProxyGroup → OutboundManager → OutboundManager
  add_group name g m = record m {
    arena = m.arena ++ g ∷ [];
    groups = insert name (length m.arena) m.groups;
    all_outbounds = insert name (handle (group (length m.arena))) m.all_outbounds;
  }

  -- "Create proxy groups": a group that cannot be made is left out.
  unfoldable pub create_groups : List ProxyGroupConfig → OutboundManager → OutboundManager
  unfolding create_group
  create_groups [] m = m
  create_groups (config ∷ rest) m = elim (create_group config m.all_outbounds) [
    | none ↦ create_groups rest m
    | some g ↦ create_groups rest (add_group config.name g m)
  ]

  -- None is a panic; there is no error.
  unfoldable pub from_config :
      (Text → ℕ → Option (IpAddr × ℕ)) → ProxyConfig → Option OutboundManager
  unfolding create_clients base_outbounds create_groups
  from_config parse config = create_clients parse config.shadowsocks [] >>= λ clients. some (
      create_groups config.group (record {
        shadowsocks = clients;
        arena = [];
        groups = [];
        all_outbounds = base_outbounds clients;
      }))

  unfoldable pub get_by_name : Text → OutboundManager → Option O.Proxy
  get_by_name name m = lookup name m.all_outbounds

  unfoldable pub get : Policy → OutboundManager → Option O.Proxy
  unfolding get_by_name
  get direct m = some (handle the_direct)
  get reject m = some (handle the_reject)
  get (proxy name) m = get_by_name name m

  unfoldable pub get_group : Text → OutboundManager → Option ProxyGroup
  get_group name m = lookup name m.groups >>= get_elem? m.arena

  -- What `select_proxy` does to a group: the group afterwards, and whether it succeeded.
  abbrev pub select_in : Text → ProxyGroup → ProxyGroup × Bool
  unfolding Select.select_by_name
  select_in name (select_group g) =
      let (g', found) = Select.select_by_name O name g in (select_group g', found)
  select_in name (url_test_group g) = (url_test_group g, false)
  select_in name (fallback_group g) = (fallback_group g, false)

  unfoldable pub select_proxy : Text → Text → OutboundManager → OutboundManager × Bool
  unfolding select_in
  select_proxy group_name proxy_name m = elim (lookup group_name m.groups) [
    | none ↦ (m, false)
    | some i ↦ elim (get_elem? m.arena i) [
      | none ↦ (m, false)
      | some g ↦
          let (g', found) = select_in proxy_name g in (record m { arena = set m.arena i g' }, found)
    ]
  ]
