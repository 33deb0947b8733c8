-- ===== src/Proxy/Handler.antt =====
-- src/proxy/handler.rs: what becomes of a connection. The destination that the packet filter reports
-- (`none` where it has none), the outbounds of the manager and their connections are arguments;
-- relaying the bytes is not modelled. `none` stands for a panic.
pub mod Routes
mod Tests
use home_guard.Prelude.{
  ℕ, Bool, true, false, Option, none, some, List, [], ◌∷◌, if◌then◌else◌, ◌>>=◌,
}
use home_guard.Prelude.Net.{IpAddr, v4, v6}
use home_guard.Prelude.Text.{Text}
use home_guard.Crates.IpNet.{IpNet}
use home_guard.Crates.AhoCorasick.{AhoCorasick}
use home_guard.Crates.MaxMind.{MaxMind}
use home_guard.Dns.FakeDns.{Tables, FakeDns, lookup, is_fake_ip}
use home_guard.Rule.Types.{Policy, direct, reject, proxy, MatchResult}
use home_guard.Rule.Engine.{RuleEngine, match_request}
use home_guard.Control.Controller.{ParentalController, check_access, is_blocked}
use home_guard.Outbound.Address.{Address, socket_addr_v4, socket_addr_v6, domain}
use home_guard.Outbound.Group.{Outbound}

abbrev pub SocketAddr : Type 0
SocketAddr = IpAddr × ℕ

-- `Address::from_socket_addr`
unfoldable pub from_socket_addr : SocketAddr → Address
from_socket_addr (v4 ip, port) = socket_addr_v4 ip port
from_socket_addr (v6 ip, port) = socket_addr_v6 ip port 0 0

abbrev pub connect_timeout_default : ℕ
connect_timeout_default = 10

module _ (N : IpNet) (A : AhoCorasick) (G : MaxMind) (B : Tables) (O : Outbound) where
  pub record ConnectionHandler : Type 0 where
    pub fake_dns : Option (FakeDns B)
    pub rule_engine : RuleEngine N A G
    pub outbound_manager : Policy → Option O.Proxy
    pub parental_controller : Option ParentalController
    pub connect_timeout : ℕ

  -- What becomes of the connection: dropped without an error, closed by the policy, relayed to an
  -- address, relayed through a stream of an outbound, or an error.
  pub data Route : Type 0 where
    dropped rejected failed : Route
    direct_to : SocketAddr → Route
    via : O.Stream → Route

  unfoldable pub new :
      Option (FakeDns B) → RuleEngine N A G → (Policy → Option O.Proxy) → ConnectionHandler
  new fake rules manager = record {
    fake_dns = fake;
    rule_engine = rules;
    outbound_manager = manager;
    parental_controller = none;
    connect_timeout = connect_timeout_default;
  }

  unfoldable pub with_timeout :
      Option (FakeDns B) → RuleEngine N A G → (Policy → Option O.Proxy) → ℕ → ConnectionHandler
  with_timeout fake rules manager timeout = record {
    fake_dns = fake;
    rule_engine = rules;
    outbound_manager = manager;
    parental_controller = none;
    connect_timeout = timeout;
  }

  unfoldable pub with_parental_control :
      Option (FakeDns B)
      → RuleEngine N A G
      → (Policy → Option O.Proxy)
      → ParentalController
      → ConnectionHandler
  with_parental_control fake rules manager controller = record {
    fake_dns = fake;
    rule_engine = rules;
    outbound_manager = manager;
    parental_controller = some controller;
    connect_timeout = connect_timeout_default;
  }

  -- The domain of a fake address, and FakeDNS after the lookup.
  unfoldable pub resolve_domain : IpAddr → Option (FakeDns B) → Option Text × Option (FakeDns B)
  unfolding lookup is_fake_ip
  resolve_domain (v6 ip) fake = (none, fake)
  resolve_domain (v4 ip) none = (none, none)
  resolve_domain (v4 ip) (some s) =
      if is_fake_ip B ip s then (let (d, s') = lookup B ip s in (d, some s')) else (none, some s)

  -- "Check parental control", for a connection whose domain is known.
  unfoldable pub is_denied : ℕ → IpAddr → Option Text → Option ParentalController → Bool
  unfolding is_blocked check_access
  is_denied now source none controller = false
  is_denied now source (some d) none = false
  is_denied now source (some d) (some c) = is_blocked (check_access now source d c)

  abbrev pub target_address : Option Text → SocketAddr → Address
  target_address none target = from_socket_addr target
  target_address (some d) target = domain d target.1

  -- `handle_proxy`, up to the relay.
  unfoldable pub handle_proxy : Text → SocketAddr → Option Text → ConnectionHandler → Route
  unfolding from_socket_addr
  handle_proxy group target d h = elim (h.outbound_manager (proxy group)) [
    | none ↦ failed
    | some outbound ↦ elim (O.connect outbound (target_address d target)) [
      | none ↦ failed
      | some stream ↦ via stream
    ]
  ]

  -- "Route based on policy"
  unfoldable pub route : Policy → SocketAddr → Option Text → ConnectionHandler → Route
  unfolding handle_proxy
  route direct target d h = direct_to target
  route reject target d h = rejected
  route (proxy group) target d h = handle_proxy group target d h

  -- The steps from the parental controls on, for a destination and its domain.
  unfoldable pub decide : ℕ → IpAddr → SocketAddr → Option Text → ConnectionHandler → Option Route
  unfolding is_denied route match_request
  decide now source target d h =
      if is_denied now source d h.parental_controller
      then some dropped
      else (match_request N A G d (some target.0) h.rule_engine >>= λ r.
          some (route r.policy target d h))

  unfoldable pub handle :
      ℕ → IpAddr → Option SocketAddr → ConnectionHandler → Option (Route × ConnectionHandler)
  unfolding resolve_domain decide
  handle now source none h = some (failed, h)
  handle now source (some target) h =
      let (d, fake) = resolve_domain target.0 h.fake_dns in
      let h' : ConnectionHandler = record h { fake_dns = fake } in
      decide now source target d h' >>= λ r. some (r, h')
