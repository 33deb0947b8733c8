-- ===== src/Proxy/Handler/Tests.antt =====
-- Connections of the devices of the sample configuration, and the theorems at inputs.
use home_guard.Prelude.{◌≡◌, refl, true, false, Option, none, some, nat_eq, list_eq}
use home_guard.Prelude.Net.{v4}
use home_guard.Prelude.Text.{Text, bytes}
use home_guard.Crates.PatternList.{pattern_list}
use home_guard.Dns.FakeDns.{normalize, allocate, is_fake_ip}
use home_guard.Dns.FakeDns.Sample.{program as fake_program, tables, start, start-IsValid}
use home_guard.Rule.Types.{Policy, direct, reject, proxy, MatchResult}
use home_guard.Rule.Engine.Sample.{program as rule_program, nets, no_countries, rules}
use home_guard.Rule.Engine.{RuleEngine, match_request}
use home_guard.Rule.Engine
use home_guard.Control.Sample.{program as control_program, controller}
use home_guard.Outbound.Address.{Address, domain}
use home_guard.Outbound.Group.{Outbound}
use home_guard.Proxy.Handler.{
  ConnectionHandler, Route, dropped, rejected, direct_to, via, from_socket_addr, resolve_domain,
  is_denied, handle_proxy, route, decide, handle, with_parental_control,
}
use home_guard.Proxy.Handler.Routes.{outcome, handle-direct_fake}

-- An outbound whose stream is the address that it was asked for.
abbrev echo : Outbound
echo = record {
  Proxy = Text;
  Stream = Address;
  name = λ p. p;
  connect = λ p target. some target;
  is_healthy = λ p. true;
}

abbrev manager : Policy → Option Text
manager direct = none
manager reject = none
manager (proxy name) = some name

program : Unit {0}
unfolding rule_program fake_program control_program from_socket_addr resolve_domain is_denied
    handle_proxy route decide handle with_parental_control
program = tt

engine :
    (e : RuleEngine nets pattern_list no_countries) × (Engine.new nets pattern_list no_countries
        rules none
      ≡ some e)
unfolding program
engine = (_, refl)

-- The gateway after a query for the domain.
abbrev gateway : Text → ConnectionHandler nets pattern_list no_countries tables echo
gateway q = record {
  fake_dns = some (allocate tables q start).1;
  rule_engine = engine.0;
  outbound_manager = manager;
  parental_controller = some controller;
  connect_timeout = 10;
}

abbrev visit : Text → Option (Route nets pattern_list no_countries tables echo)
visit q = outcome nets pattern_list no_countries tables echo (
    handle nets pattern_list no_countries tables echo 5 (v4 5)
      (some (v4 (allocate tables q start).0, 443)) (gateway q))

runs :
    (visit (bytes "www.Google.com.") ≡ some (via (domain (bytes "www.google.com") 443)))
    × (visit (bytes "blocked.com") ≡ some rejected)
    × (visit (bytes "a.bad.xxx") ≡ some dropped)
    × (visit (bytes "example.org") ≡ some (direct_to (v4 0xc612_0001, 443)))
unfolding program engine
runs = (refl, refl, refl, refl)

abbrev google : Text
google = bytes "www.Google.com."

abbrev plain : Text
plain = bytes "example.org"

abbrev bad : Text
bad = bytes "a.bad.xxx"

allowed :
    (is_denied nets pattern_list no_countries tables echo 5
        (v4 5)
        (some (normalize google))
        (some controller)
      ≡ false)
    × (is_denied nets pattern_list no_countries tables echo 5
          (v4 5)
          (some (normalize plain))
          (some controller)
        ≡ false)
unfolding program
allowed = (refl, refl)

plain_rule :
    (r : MatchResult) × (match_request nets pattern_list no_countries
        (some (normalize plain))
        (some (v4 (allocate tables plain start).0))
        engine.0
      ≡ some r)
    × (r.policy ≡ direct)
unfolding program engine
plain_rule = (_, refl, refl)

handle-direct_fake_example :
    (visit plain ≡ some (direct_to (v4 (allocate tables plain start).0, 443)))
    × (is_fake_ip tables (allocate tables plain start).0 (allocate tables plain start).1 ≡ true)
handle-direct_fake_example =
    handle-direct_fake nets pattern_list no_countries tables echo 5 (v4 5) plain 443 start
      (gateway plain) plain_rule.0 start-IsValid refl allowed.1 plain_rule.1 plain_rule.2
