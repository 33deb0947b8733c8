-- ===== src/Outbound/Manager/Tests.antt =====
-- The manager of the sample configuration, and the theorem at it.
use home_guard.Prelude.{
  ℕ, ◌≡◌, refl, Bool, true, Option, none, some, [], ◌∷◌, if◌then◌else◌, ◌==◌, nat_eq, list_eq, here,
  there, arith, ◌>>=◌, get_elem?,
}
use home_guard.Prelude.Map
use home_guard.Prelude.Net.{IpAddr, v4}
use home_guard.Prelude.Text.{Text, bytes, to_lowercase, lower_byte}
use home_guard.Config.Sample.{config, hong_kong, auto}
use home_guard.Config.{
  contains, validate_ss_method, validate_dns, validate_shadowsocks, validate_references,
  validate_groups, validate_config,
}
use home_guard.Config.Validation.{IsValid, validate_config-IsValid}
use home_guard.Rule.Types.{Policy, reject, proxy}
use home_guard.Outbound.Group.{Outbound}
use home_guard.Outbound.Group.Select
use home_guard.Outbound.Group.UrlTest
use home_guard.Outbound.Shadowsocks.Cipher.{method_of, new_cipher, evp_bytes_to_key, extend_key}
use home_guard.Outbound.Shadowsocks.Client
use home_guard.Outbound.Shadowsocks.Sample.{ring, pad}
use home_guard.Outbound.Manager.{
  Handle, the_direct, the_reject, client, group, OutboundManager, create_clients, add_clients,
  base_outbounds, collect_proxies, make_group, create_group, create_groups, from_config,
  get_by_name, get, get_group, select_proxy,
}
use home_guard.Outbound.Manager.Clients.{IsMade}
use home_guard.Outbound.Manager.Groups.{from_config-groups}
use home_guard.Outbound.Manager.Members.{IsEntry}

-- Outbounds that are their handles.
abbrev handles : Outbound
handles = record {
  Proxy = Handle;
  Stream = Handle;
  name = λ h. elim h [
    | the_direct ↦ bytes "DIRECT"
    | the_reject ↦ bytes "REJECT"
    | client name ↦ name
    | group i ↦ i ∷ []
  ];
  connect = λ h target. some h;
  is_healthy = λ h. true;
}

abbrev same : Handle → Handle
same h = h

-- A server is given by its address.
abbrev parse : Text → ℕ → Option (IpAddr × ℕ)
parse server port = if server == bytes "10.0.0.1" then some (v4 0x0a00_0001, port) else none

abbrev accept : Text → Bool
accept s = true

program : Unit {0}
unfolding Map.lookup Map.insert to_lowercase lower_byte contains validate_ss_method validate_dns
    validate_shadowsocks validate_references validate_groups validate_config method_of new_cipher
    evp_bytes_to_key extend_key pad Client.from_config create_clients add_clients base_outbounds
    collect_proxies make_group create_group create_groups from_config get_by_name get get_group
    select_proxy Select.new Select.position Select.select Select.select_by_name UrlTest.new
program = tt

abbrev ask : Policy → Option Handle
unfolding program
ask p = from_config ring handles same parse config.proxy >>= get ring handles same p

runs :
    (ask (proxy (bytes "auto")) ≡ some (group 1))
    × (ask (proxy (bytes "hk")) ≡ some (client (bytes "hk")))
    × (ask (proxy (bytes "nothing")) ≡ none)
    × (ask reject ≡ some the_reject)
unfolding program
runs = (refl, refl, refl, refl)

is_valid : IsValid accept config
unfolding program
is_valid = (validate_config-IsValid accept config).0 refl

is_made : IsMade ring handles same parse hong_kong
unfolding program
is_made = (_, refl)

from_config-groups_example :
    (m : OutboundManager ring handles same) × (from_config ring handles same parse config.proxy
      ≡ some m)
    × (i : ℕ) × (get_group ring handles same (bytes "auto") m ≡ get_elem? m.arena i)
    × (get_by_name ring handles same (bytes "auto") m ≡ some (group i))
    × IsEntry ring handles same config.proxy.group (bytes "auto") i m
from_config-groups_example =
    from_config-groups ring handles same parse accept config auto is_valid (is_made, tt)
      (there (here refl)) (omega arith)
