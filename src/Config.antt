-- ===== src/Config.antt =====
-- src/config/types.rs and src/config/parser.rs: the parts of the configuration that the DNS service and
-- the outbounds are built from, and their validation. The parser of networks is an argument; `none` is
-- the answer that nothing is wrong.
pub mod Validation
pub mod Sample
mod Tests
use home_guard.Prelude.{
  ℕ, Bool, true, false, Option, none, some, List, [], ◌∷◌, ◌++◌, map, if◌then◌else◌, ◌==◌, nat_eq,
  list_eq, ◌||◌,
}
use home_guard.Prelude.Text.{Text, bytes}

pub record DnsConfig : Type 0 where
  pub upstream : List Text
  pub fake_dns : Bool
  pub fake_dns_pool : Text

pub record ShadowsocksConfig : Type 0 where
  pub name : Text
  pub server : Text
  pub port : ℕ
  pub password : Text
  pub method : Text

pub data ProxyGroupType : Type 0 where
  select url_test fallback : ProxyGroupType

pub record ProxyGroupConfig : Type 0 where
  pub name : Text
  pub group_type : ProxyGroupType
  pub proxies : List Text
  pub url : Option Text
  pub interval : Option ℕ

pub record ProxyConfig : Type 0 where
  pub shadowsocks : List ShadowsocksConfig
  pub group : List ProxyGroupConfig

pub record Config : Type 0 where
  pub dns : DnsConfig
  pub proxy : ProxyConfig

-- The kinds of `ConfigError::ValidationError`.
pub data ConfigError : Type 0 where
  no_upstream no_pool bad_pool no_proxy_name : ConfigError
  no_server bad_method : Text → ConfigError
  unknown_proxy : Text → Text → ConfigError

abbrev pub is_empty {ℓ} : {A : Type ℓ} → List A → Bool
is_empty [] = true
is_empty (x ∷ xs) = false

unfoldable pub contains : Text → List Text → Bool
contains name [] = false
contains name (n ∷ names) = (n == name) || contains name names

abbrev pub valid_methods : List Text
valid_methods =
    bytes "chacha20-ietf-poly1305"
    ∷ bytes "aes-256-gcm"
    ∷ bytes "aes-128-gcm"
    ∷ bytes "aes-256-cfb"
    ∷ bytes "aes-128-cfb"
    ∷ []

unfoldable pub validate_ss_method : Text → Bool
unfolding contains
validate_ss_method method = contains method valid_methods

-- The first of two checks that finds something wrong.
infixr 4 ◌or_else◌
abbrev pub ◌or_else◌ : Option ConfigError → Option ConfigError → Option ConfigError
none or_else next = next
some e or_else next = some e

abbrev pub ensure : Bool → ConfigError → Option ConfigError
ensure true e = none
ensure false e = some e

unfoldable pub validate_dns : (Text → Bool) → DnsConfig → Option ConfigError
validate_dns parses dns =
    if is_empty dns.upstream
    then some no_upstream
    else if dns.fake_dns
    then (if is_empty dns.fake_dns_pool
        then some no_pool
        else ensure (parses dns.fake_dns_pool) bad_pool)
    else none

unfoldable pub validate_shadowsocks : List ShadowsocksConfig → Option ConfigError
unfolding validate_ss_method
validate_shadowsocks [] = none
validate_shadowsocks (ss ∷ rest) =
    let later = validate_shadowsocks rest in
    if is_empty ss.name
    then some no_proxy_name
    else if is_empty ss.server
    then some (no_server ss.name)
    else (ensure (validate_ss_method ss.method) (bad_method ss.name) or_else later)

-- The names that a group may refer to.
abbrev pub proxy_names : ProxyConfig → List Text
proxy_names p = map (λ ss. ss.name) p.shadowsocks ++ bytes "DIRECT" ∷ bytes "REJECT" ∷ []

unfoldable pub validate_references : List Text → Text → List Text → Option ConfigError
unfolding contains
validate_references names group [] = none
validate_references names group (proxy ∷ rest) =
    ensure (contains proxy names) (unknown_proxy group proxy)
    or_else validate_references names group rest

unfoldable pub validate_groups : List Text → List ProxyGroupConfig → Option ConfigError
unfolding validate_references
validate_groups names [] = none
validate_groups names (g ∷ gs) =
    validate_references names g.name g.proxies or_else validate_groups names gs

unfoldable pub validate_config : (Text → Bool) → Config → Option ConfigError
unfolding validate_dns validate_shadowsocks validate_groups
validate_config parses c =
    validate_dns parses c.dns
    or_else validate_shadowsocks c.proxy.shadowsocks
    or_else validate_groups (proxy_names c.proxy) c.proxy.group
